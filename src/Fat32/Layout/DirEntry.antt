-- ===== src/Fat32/Layout/DirEntry.antt =====
-- struct fat32_dirEntry: the fields that the driver reads.
use rainbow_os.Prelude.{ℕ, ◌+◌}
use rainbow_os.Memory.{Mem, read16, read32}

-- The sizes of the fields, in their order.
abbrev pub size_of : ℕ
size_of = 8 + 3 + 1 + 1 + 1 + 2 + 2 + 2 + 2 + 2 + 2 + 2 + 4

unfoldable pub file_name : Mem → ℕ → ℕ → ℕ
file_name m entry i = m (entry + i)

unfoldable pub file_extension : Mem → ℕ → ℕ → ℕ
file_extension m entry i = m (entry + 8 + i)

unfoldable pub attributes : Mem → ℕ → ℕ
attributes m entry = m (entry + 11)

unfoldable pub high_cluster_number : Mem → ℕ → ℕ
high_cluster_number m entry = read16 m (entry + 20)

unfoldable pub low_cluster_number : Mem → ℕ → ℕ
low_cluster_number m entry = read16 m (entry + 26)

unfoldable pub size : Mem → ℕ → ℕ
size m entry = read32 m (entry + 28)
