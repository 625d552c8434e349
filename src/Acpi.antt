-- ===== src/Acpi.antt =====
-- include/kernelInternal/acpi.hpp, include/kernelInternal/acpiKernel.hpp,
-- kernel/devices/acpiKernel.cpp and kernel/system/acpi.cpp: finding the root descriptor of the ACPI
-- tables, a table by its name, and a record of the MADT. The tables are read in the memory at the
-- offsets of the packed structs. A null pointer is the address 0, and a 64-bit address is cut to
-- 32 bits where the code casts it to a pointer. `fuel` bounds the loops that may not end.
pub mod CheckSum
pub mod Madt
mod Tests
use rainbow_os.Prelude.{
  ℕ, zero, suc, ◌+◌, ◌-◌, ◌*◌, ◌/◌, ◌%◌, ◌^◌, Bool, true, false, ◌&&◌, not, ltb, ◌==◌,
  if◌then◌else◌, u32, add32, sub32, Outcome, ok, panic, out_of_fuel, ◌>>=◌,
}
use rainbow_os.Memory.{Mem, read32, read64}
use rainbow_os.Str.{strlen, memcmp}

abbrev pub ebda_start : ℕ
ebda_start = 0x80000

abbrev pub ebda_end : ℕ
ebda_end = 0x9ffff

abbrev pub bios_start : ℕ
bios_start = 0xe0000

abbrev pub bios_end : ℕ
bios_end = 0xfffff

abbrev pub rsdp_search_str : ℕ → ℕ
rsdp_search_str i =
    if i == 0
    then b'R'
    else if i == 1
    then b'S'
    else if i == 2
    then b'D'
    else if i == 3
    then b' '
    else if i == 4
    then b'P'
    else if i == 5
    then b'T'
    else if i == 6
    then b'R'
    else 0

abbrev pub rsdp_search_str_len : ℕ
rsdp_search_str_len = 7

-- The loop of specialStrComp, with the rounds left. The first string is the constant.
unfoldable pub special_str_comp : ℕ → ℕ → Mem → ℕ → Bool
special_str_comp zero i m b = true
special_str_comp (suc n) i m b =
    let rest = special_str_comp n (i + 1) m b in
    if not (rsdp_search_str i == m (b + i)) then false else rest

-- One of the two loops of searchRSDPDesc: `n` addresses from `ptr` on, 0 if none matches.
unfoldable pub search_range : ℕ → ℕ → Mem → ℕ
search_range zero ptr m = 0
search_range (suc n) ptr m =
    let rest = search_range n (ptr + 1) m in
    if special_str_comp rsdp_search_str_len 0 m ptr then ptr else rest

unfoldable pub search_rsdp_desc : Mem → ℕ
search_rsdp_desc m =
    let ptr = search_range (ebda_end - rsdp_search_str_len - ebda_start) ebda_start m in
    let rest = search_range (bios_end - rsdp_search_str_len - bios_start) bios_start m in
    if not (ptr == 0) then ptr else rest

-- `for (size_t i = 0; i < size; i++) res += ptr[i];` on `unsigned int`
unfoldable pub add_bytes : ℕ → ℕ → ℕ → Mem → ℕ → ℕ
add_bytes zero i res m ptr = res
add_bytes (suc n) i res m ptr = add_bytes n (i + 1) (add32 res (m (ptr + i))) m ptr

unfoldable pub check_sum : Mem → ℕ → ℕ → Bool
check_sum m ptr size = add_bytes size 0 0 m ptr % 2 ^ 8 == 0

-- The fields of xsdp_desc that are read, and the sizes of the two descriptors.
abbrev pub revision : Mem → ℕ → ℕ
revision m ptr = m (ptr + 15)

abbrev pub rsdt_address : Mem → ℕ → ℕ
rsdt_address m ptr = read32 m (ptr + 16)

abbrev pub xsdt_address : Mem → ℕ → ℕ
xsdt_address m ptr = read64 m (ptr + 24)

abbrev pub rsdp_desc_size : ℕ
rsdp_desc_size = 20

abbrev pub xsdp_desc_size : ℕ
xsdp_desc_size = 36

unfoldable pub check_rsdp_desc : Mem → ℕ → Bool
check_rsdp_desc m ptr =
    if revision m ptr == 0
    then check_sum m ptr rsdp_desc_size
    else if revision m ptr == 2
    then check_sum m ptr xsdp_desc_size
    else false

-- kernel::acpi::findRSDPDesc, which checks the pointer also when it is null
unfoldable pub find_rsdp_desc : Mem → ℕ
find_rsdp_desc m = let ptr = search_rsdp_desc m in if not (check_rsdp_desc m ptr) then 0 else ptr

-- The members of class acpi_header.
pub record AcpiHeader : Type 0 where
  pub ptr : ℕ
  pub type2 : Bool

-- The constructor of acpi_header.
unfoldable pub acpi_header : Mem → Outcome AcpiHeader
acpi_header m =
    let ptr = find_rsdp_desc m in
    if ptr == 0 then panic else ok (record { ptr = ptr; type2 = revision m ptr == 2 })

-- The fields of acpi_sdt_header, and its size.
abbrev pub table_length : Mem → ℕ → ℕ
table_length m table = read32 m (table + 4)

abbrev pub sdt_header_size : ℕ
sdt_header_size = 36

-- The address that a table's entry `index` holds, in a table with 8-byte entries and in one with
-- 4-byte entries.
abbrev pub sdt_address : Bool → Mem → ℕ → ℕ → ℕ
sdt_address wide m table index =
    if wide
    then u32 (read64 m (table + sdt_header_size + 8 * index))
    else read32 m (table + sdt_header_size + 4 * index)

-- The loop of acpi_header::findEntry over the entries of one table, with the rounds left.
unfoldable pub find_table : ℕ → Bool → ℕ → Mem → ℕ → ℕ → ℕ
find_table zero wide index m table name = 0
find_table (suc n) wide index m table name =
    let rest = find_table n wide (index + 1) m table name in
    if memcmp m (sdt_address wide m table index) name 4 == 0
    then sdt_address wide m table index
    else rest

unfoldable pub find_entry : ℕ → AcpiHeader → ℕ → Mem → Outcome ℕ
find_entry fuel header name m = strlen fuel m name >>= λ len.
    let xsdt = u32 (xsdt_address m header.ptr) in
    let rsdt = rsdt_address m header.ptr in
    if not (len == 4)
    then panic
    else if header.type2 && not (xsdt_address m header.ptr == 0)
    then ok (find_table (sub32 (table_length m xsdt) sdt_header_size / 8) true 0 m xsdt name)
    else ok (find_table (sub32 (table_length m rsdt) sdt_header_size / 4) false 0 m rsdt name)

-- acpi_header::getType
unfoldable pub get_type : AcpiHeader → ℕ
get_type header = if header.type2 then 2 else 1

-- The constructor of acpi_madt: the pointer to the MADT. `apic` is the string "APIC".
unfoldable pub acpi_madt : ℕ → AcpiHeader → ℕ → Mem → Outcome ℕ
acpi_madt fuel header apic m =
    find_entry fuel header apic m >>= λ found. if found == 0 then panic else ok found

abbrev pub madt_table_size : ℕ
madt_table_size = 44

-- `while (walker < limit)` of acpi_madt::getEntry
unfoldable pub walk : ℕ → ℕ → ℕ → Mem → Outcome ℕ
walk zero limit walker m = out_of_fuel
walk (suc fuel) limit walker m =
    let rest = walk fuel limit (add32 walker (m (walker + 1))) m in
    let round = if m walker == 1 then ok walker else rest in
    if ltb walker limit then round else ok 0

-- acpi_madt::getEntry
unfoldable pub get_entry : ℕ → ℕ → ℕ → Mem → Outcome ℕ
get_entry fuel madt type m =
    let found = walk fuel (add32 madt (table_length m madt)) (add32 madt madt_table_size) m in
    if not (type == 1) then ok 0 else found
