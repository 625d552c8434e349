-- ===== src/Partition/Tests.antt =====
-- A table whose third partition is the active one.
use rainbow_os.Prelude.{◌+◌, ◌≡◌, refl, arith, ◌==◌, if◌then◌else◌, ok}
use rainbow_os.Memory.{Mem}
use rainbow_os.Partition.{part1, attributes, lba_begin, get_partition_lba}
use rainbow_os.Partition.Active.{get_partition_lba-first}

abbrev third_active : Mem
third_active x = if x == part1 + 32 then 0x80 else if x == part1 + 40 then 63 else 0

get_partition_lba-first_example : get_partition_lba third_active ≡ ok (lba_begin third_active 2)
unfolding attributes
get_partition_lba-first_example =
    get_partition_lba-first third_active 2 (omega arith) refl (λ j h. ground arith)
