-- ===== src/Multiboot.antt =====
-- include/sys/multiboot.h, and multibootHeaderSearch and buildMultibootInfo of
-- bootloader/stage1main.cpp: finding the header in the kernel's file, and the information structure
-- that is passed to the kernel. Fields are at the offsets that the i686 target gives the structs.
pub mod Search
pub mod Table
pub mod Info
mod Tests
use Prim.Native.Nat.{bit_or}
use rainbow_os.Prelude.{
  ℕ, zero, suc, ◌+◌, ◌*◌, ◌/◌, ◌%◌, ◌^◌, Bool, ◌&&◌, ◌||◌, not, leb, ◌==◌, if◌then◌else◌, add32,
  sub32, mul32, test_bit, Outcome, ok, out_of_fuel, ◌>>=◌,
}
use rainbow_os.Memory.{Mem, read32, write32}
use rainbow_os.Heap.{kalloc}
use rainbow_os.MemoryMap.{
  Int12, Int15, query_lower_memory, query_upper_memory, get_upper_memory_size,
}

abbrev pub multiboot_search : ℕ
multiboot_search = 8192

abbrev pub multiboot_header_align : ℕ
multiboot_header_align = 4

abbrev pub multiboot_magic : ℕ
multiboot_magic = 0x1badb002

-- multiboot_header: the three required fields
unfoldable pub magic : Mem → ℕ → ℕ
magic m header = read32 m header

unfoldable pub flags : Mem → ℕ → ℕ
flags m header = read32 m (header + 4)

unfoldable pub checksum : Mem → ℕ → ℕ
checksum m header = read32 m (header + 8)

-- The test of one address in multibootHeaderSearch.
unfoldable pub is_header : Mem → ℕ → Bool
is_header m header =
    (magic m header == multiboot_magic)
    && (add32 (add32 (magic m header) (flags m header)) (checksum m header) == 0)

-- The condition of the loop: `header <= ptr + 8192 - 12 || header >= ptr + size`.
unfoldable pub goes_on : ℕ → ℕ → ℕ → Bool
goes_on ptr size header =
    leb header (sub32 (add32 ptr multiboot_search) 12) || leb (add32 ptr size) header

unfoldable pub search_header : ℕ → ℕ → ℕ → ℕ → Mem → Outcome ℕ
search_header zero ptr size header m = out_of_fuel
search_header (suc fuel) ptr size header m =
    let rest = search_header fuel ptr size (add32 header multiboot_header_align) m in
    let round = if is_header m header then ok header else rest in
    if goes_on ptr size header then round else ok 0

-- multibootHeaderSearch on the `ptr` and the `size` of the file
unfoldable pub multiboot_header_search : ℕ → ℕ → ℕ → Mem → Outcome ℕ
multiboot_header_search fuel ptr size m = search_header fuel ptr size ptr m

-- multiboot_info_structure: the sizes of the fields in their order, with the two bytes that the
-- compiler puts before `color_1` and the two behind the last field
abbrev pub info_size : ℕ
info_size =
    4
    + (4 + 4)
    + 4
    + 4
    + (4 + 4)
    + 4 * 4
    + (4 + 4)
    + (4 + 4)
    + 4
    + 4
    + 4
    + (4 + 4 + 2 * 4)
    + (8 + 4 + 4 + 4 + 1 + 1 + 2 + 4 + 2 + 2)

-- `returnStruct->flags = returnStruct->flags | bits`
unfoldable pub set_flags : ℕ → ℕ → Mem → Mem
set_flags info bits m = write32 m info (bit_or (read32 m info) bits)

-- `if (header->flags & 1)`: the sizes of the memory and the map
unfoldable pub fill_memory : ℕ → ℕ → Int12 → Int15 → ℕ → ℕ → ℕ → Mem → Outcome Mem
fill_memory rounds fuel int12 int15 heap header info m =
    if not (test_bit (flags m header) 0)
    then ok m
    else (query_lower_memory int12 m >>= λ (lower, m1).
        query_upper_memory rounds fuel int15 heap (write32 m1 (info + 4) lower) >>= λ (upper, m2).
        let m3 = write32 m2 (info + 8) (get_upper_memory_size m2 upper) in
        let m4 = write32 m3 (info + 44) (mul32 (read32 m3 upper) 24) in
        let m5 = write32 m4 (info + 48) (read32 m4 (upper + 4)) in
        ok (set_flags info (2 ^ 6) (set_flags info 1 m5)))

-- `if (header->flags & 2)`: the boot device
unfoldable pub fill_device : ℕ → ℕ → ℕ → Mem → Mem
fill_device header info boot_device m =
    if test_bit (flags m header) 1 then set_flags info 2 (write32 m (info + 12) boot_device) else m

-- The tests `flags & 4` and `flags & 65528`, either of which gives up.
unfoldable pub unsupported : ℕ → Bool
unsupported f = test_bit f 2 || not (f / 2 ^ 3 % 2 ^ 13 == 0)

-- buildMultibootInfo: the pointer, null for flags that are not supported
unfoldable pub build_multiboot_info : ℕ → ℕ → Int12 → Int15 → ℕ → ℕ → ℕ → Mem → Outcome (ℕ × Mem)
build_multiboot_info rounds fuel int12 int15 heap header boot_device m =
    kalloc fuel heap info_size m >>= λ (info, m1).
    fill_memory rounds fuel int12 int15 heap header info (write32 m1 info 0) >>= λ m2.
    let m3 = fill_device header info boot_device m2 in
    if unsupported (flags m3 header) then ok (0, m3) else ok (info, m3)
