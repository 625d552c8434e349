-- ===== src/Acpi/Tests.antt =====
-- A MADT of 64 bytes at 4096 with a record of type 0 and then one of type 1.
use rainbow_os.Prelude.{
  ◌%◌, ◌^◌, ◌≡◌, refl, ◌↔◌, true, [], ◌∷◌, arith, ◌==◌, if◌then◌else◌, ok, out_of_fuel,
}
use rainbow_os.Memory.{Mem, read32}
use rainbow_os.Acpi.{table_length, check_sum, walk, get_entry}
use rainbow_os.Acpi.CheckSum.{byte_sum, check_sum_iff}
use rainbow_os.Acpi.Madt.{get_entry_found, walk_stuck}

abbrev table : Mem
table x =
    if x == 4100
    then 64
    else if x == 4141
    then 8
    else if x == 4148
    then 1
    else if x == 4149
    then 12
    else 0

table_length_64 : table_length table 4096 ≡ 64
unfolding read32
table_length_64 = refl

get_entry_found_example : get_entry 2 4096 1 table ≡ ok 4148
get_entry_found_example =
    get_entry_found (8 ∷ []) 2 4096 64 table table_length_64 (omega arith)
      (omega arith, refl, omega arith, tt) (omega arith) refl (omega arith)

walk_stuck_example : walk 100 64 16 (λ x. 0) ≡ out_of_fuel
walk_stuck_example = walk_stuck 100 64 16 (λ x. 0) (omega arith) (omega arith) (omega arith) refl

check_sum_iff_example : (check_sum table 4096 64 ≡ true) ↔ (byte_sum table 4096 64 % 2 ^ 8 ≡ 0)
check_sum_iff_example = check_sum_iff table 4096 64
