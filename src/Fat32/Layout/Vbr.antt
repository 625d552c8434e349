-- ===== src/Fat32/Layout/Vbr.antt =====
-- struct VBR, which begins with 3 bytes of code and 8 of an identifier, and the struct fat32_BPD
-- behind them: the fields that the driver reads.
use rainbow_os.Prelude.{ℕ, ◌+◌}
use rainbow_os.Memory.{Mem, read16, read32}

-- The sizes of the fields, in their order: those of the DOS 2.0 part, of the DOS 3.31 part and of
-- the extended boot record.
abbrev pub bpd_size : ℕ
bpd_size =
    2
    + 1
    + 2
    + 1
    + 2
    + 2
    + 1
    + 2
    + (2 + 2 + 4 + 4)
    + (4 + 2 + 2 + 4 + 2 + 2 + 12 + 1 + 1 + 1 + 4 + 11 + 8)

abbrev pub size_of : ℕ
size_of = 3 + 8 + bpd_size + 420 + 2

unfoldable pub bytes_per_sector : Mem → ℕ → ℕ
bytes_per_sector m vbr = read16 m (vbr + 11)

unfoldable pub sectors_per_cluster : Mem → ℕ → ℕ
sectors_per_cluster m vbr = m (vbr + 13)

unfoldable pub reserved_sectors : Mem → ℕ → ℕ
reserved_sectors m vbr = read16 m (vbr + 14)

unfoldable pub number_of_fats : Mem → ℕ → ℕ
number_of_fats m vbr = m (vbr + 16)

-- Behind the twelve fields of the DOS 2.0 and 3.31 parts.
unfoldable pub sectors_per_fat : Mem → ℕ → ℕ
sectors_per_fat m vbr = read32 m (vbr + 36)

unfoldable pub cluster_number_root : Mem → ℕ → ℕ
cluster_number_root m vbr = read32 m (vbr + 44)
