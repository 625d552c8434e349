-- ===== src/MemoryMap.antt =====
-- include/earlyLib/memoryDetection16.hpp and lib/earlyLib/memoryDetection16.cpp: asking the BIOS
-- for the sizes of the memory. The calls through real mode (lib/earlyLib/asmCall_int12.S and
-- lib/earlyLib/asmCall_int15.S) are parameters. `Int12` gives the word that it leaves in `result`.
-- `Int15` takes the offset, the segment and %ebx, and gives %ebx, %eax, %ecx and the carry that the
-- code finds after the call; the variables of the caller are not part of the memory.
pub mod Total
pub mod Collect
pub mod Query
mod Tests
use rainbow_os.Prelude.{
  ℕ, zero, suc, ◌+◌, ◌-◌, ◌*◌, ◌/◌, ◌%◌, ◌^◌, ◌||◌, not, ltb, leb, ◌==◌, if◌then◌else◌, u32, u64,
  add32, mul32, Outcome, ok, panic, out_of_fuel, ◌>>=◌,
}
use rainbow_os.Memory.{Mem, read32, read64, write32}
use rainbow_os.Heap.{kalloc}

abbrev pub Int12 : Type 0
Int12 = Mem → ℕ × Mem

pub record Registers : Type 0 where
  pub ebx : ℕ
  pub eax : ℕ
  pub ecx : ℕ
  pub carry : ℕ

abbrev pub Int15 : Type 0
Int15 = ℕ → ℕ → ℕ → Mem → Registers × Mem

unfoldable pub query_lower_memory : Int12 → Mem → Outcome (ℕ × Mem)
query_lower_memory int12 m =
    let (result, m') = int12 m in if result == 0 then panic else ok (result, m')

abbrev pub eax_signature : ℕ
eax_signature = 0x534D4150

abbrev pub max_size : ℕ
max_size = 100

-- mmap_structure_entry is not packed; on i686 a `uint64_t` member is aligned to 4 bytes, so the
-- fields are at 0, 4, 12, 20 and 24 of 28 bytes.
abbrev pub entry_size : ℕ
entry_size = 28

unfoldable pub entry_length_field : Mem → ℕ → ℕ
entry_length_field m entry = read64 m (entry + 12)

unfoldable pub acpi_3_0_extended : Mem → ℕ → ℕ
acpi_3_0_extended m entry = read32 m (entry + 24)

-- `do { ... } while (ebx != 0)` of queryUpperMemory: the final `size` and the memory
unfoldable pub query_loop : ℕ → Int15 → ℕ → ℕ → ℕ → Mem → Outcome (ℕ × Mem)
query_loop zero int15 mmap size ebx m = out_of_fuel
query_loop (suc fuel) int15 mmap size ebx m =
    let curr = add32 mmap (mul32 entry_size size) in
    let offset = curr % 16 in
    let segment = (curr - offset) / 16 in
    let (r, m') = int15 offset segment ebx m in
    let size' =
      if leb r.ecx 20 || (acpi_3_0_extended m' curr % 2 == 0) then add32 size 1 else size in
    let rest = query_loop fuel int15 mmap size' r.ebx m' in
    if not (r.carry == 0)
    then panic
    else if not (r.eax == eax_signature)
    then panic
    else if leb max_size size'
    then panic
    else if not (r.ebx == 0)
    then rest
    else ok (size', m')

-- queryUpperMemory: the pointer to an upperMemory_mmap_struct, a size and a pointer. `fuel` is for the
-- walks along the heap, `rounds` for the loop.
unfoldable pub query_upper_memory : ℕ → ℕ → Int15 → ℕ → Mem → Outcome (ℕ × Mem)
query_upper_memory rounds fuel int15 heap m =
    kalloc fuel heap (entry_size * max_size) m >>= λ (mmap, m1).
    query_loop rounds int15 mmap 0 0 m1 >>= λ (size, m2). kalloc fuel heap 8 m2 >>= λ (result, m3).
    ok (result, write32 (write32 m3 result size) (result + 4) mmap)

-- The loop of getUpperMemorySize over the entries that are left. `test` is on `uint64_t`.
unfoldable pub add_lengths : ℕ → ℕ → ℕ → Mem → ℕ
add_lengths zero entry final_size m = final_size
add_lengths (suc n) entry final_size m =
    let test = u64 (final_size + entry_length_field m entry) in
    let rest = add_lengths n (entry + entry_size) (u32 test) m in
    if ltb (2 ^ 32 - 1) test then 0 else rest

unfoldable pub get_upper_memory_size : Mem → ℕ → ℕ
get_upper_memory_size m ptr = add_lengths (read32 m ptr) (read32 m (ptr + 4)) 0 m
