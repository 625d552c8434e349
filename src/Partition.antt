-- ===== src/Partition.antt =====
-- include/fs/mbr.hpp and getPartitionLBA of bootloader/stage1main.cpp: the partition table of the
-- boot record that stage 0 leaves at `_final_mbr_address`.
pub mod Active
mod Tests
use rainbow_os.Prelude.{ℕ, zero, suc, ◌+◌, ◌*◌, if◌then◌else◌, test_bit, Outcome, ok, panic}
use rainbow_os.Memory.{Mem, read32}

-- `mbr`, and the first of the four tables at 0x1be
abbrev pub mbr : ℕ
mbr = 0x0800

abbrev pub part1 : ℕ
part1 = mbr + 0x1be

-- partitionTable: 16 packed bytes
unfoldable pub attributes : Mem → ℕ → ℕ
attributes m i = m (part1 + 16 * i)

unfoldable pub lba_begin : Mem → ℕ → ℕ
lba_begin m i = read32 m (part1 + 16 * i + 8)

-- `for (size_t i = 0; i < 4; i++)`, with the rounds left
unfoldable pub search_partition : ℕ → ℕ → Mem → Outcome ℕ
search_partition zero i m = panic
search_partition (suc n) i m =
    let rest = search_partition n (i + 1) m in
    if test_bit (attributes m i) 7 then ok (lba_begin m i) else rest

unfoldable pub get_partition_lba : Mem → Outcome ℕ
get_partition_lba m = search_partition 4 0 m
