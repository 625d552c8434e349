-- ===== src/Heap.antt =====
-- include/earlyLib/memory.hpp and lib/earlyLib/memory.cpp: the heap of the bootloader and of the
-- kernel, a list of entries threaded through the memory that it hands out.
-- A heapEntry at address `e` is its pointer `_next` in the four bytes at `e` and its bit-field
-- `_flags` in the byte at `e + 4`; with padding it takes `header_size` bytes. A null pointer is 0.
-- The static `heap` is an argument of the functions that read it. The recursions of the code along
-- the list run on fuel.
pub mod Blocks
pub mod Header
pub mod Reserve
pub mod Allocate
pub mod Safety
pub mod Initialize
pub mod Session
pub mod Free
pub mod Split
pub mod Bump
mod Tests
use rainbow_os.Prelude.{
  ℕ, zero, suc, ◌+◌, ◌*◌, ◌/◌, Bool, true, false, ◌||◌, not, ltb, ◌==◌, if◌then◌else◌, add32, sub32,
  test_bit, Outcome, ok, panic, out_of_fuel,
}
use rainbow_os.Memory.{Mem, write8, read32, write32}

-- `sizeof(mem::heapEntry)`
abbrev pub header_size : ℕ
header_size = 8

-- `_next` and `_flags.reserved`, a bit-field of one bit
unfoldable pub get_next : Mem → ℕ → ℕ
get_next m e = read32 m e

unfoldable pub get_reserved : Mem → ℕ → Bool
get_reserved m e = test_bit (m (e + 4)) 0

unfoldable pub set_next : Mem → ℕ → ℕ → Mem
set_next m e n = write32 m e n

unfoldable pub set_reserved : Mem → ℕ → Bool → Mem
set_reserved m e b = write8 m (e + 4) (m (e + 4) / 2 * 2 + (if b then 1 else 0))

-- heapEntry::init
unfoldable pub init : Mem → ℕ → ℕ → Mem
init m e next = set_next (set_reserved m e (next == 0)) e next

-- heapEntry::getSize, getDataPtr and isLast
unfoldable pub get_size : Mem → ℕ → ℕ
get_size m e = sub32 (sub32 (get_next m e) e) header_size

abbrev pub get_data_ptr : ℕ → ℕ
get_data_ptr e = add32 e header_size

abbrev pub is_last : Mem → ℕ → Bool
is_last m e = get_next m e == 0

-- The test of heapEntry::allocate before it splits, on `size_t`.
unfoldable pub splits : ℕ → ℕ → Bool
splits size available = ltb (header_size + 4) (sub32 size available)

-- heapEntry::allocate on the entry that it chooses.
unfoldable pub reserve : ℕ → ℕ → ℕ → Mem → Mem
reserve e size available m =
    let next = add32 (get_data_ptr e) size in
    let split = init (set_next m e next) next (get_next m e) in
    set_reserved (if splits size available then split else m) e true

-- heapEntry::allocate
unfoldable pub allocate : ℕ → ℕ → ℕ → Mem → Outcome (ℕ × Mem)
allocate zero e size m = out_of_fuel
allocate (suc fuel) e size m =
    let rest = allocate fuel (get_next m e) size m in
    let available = get_size m e in
    if is_last m e
    then ok (0, m)
    else if get_reserved m e || ltb available size
    then rest
    else ok (get_data_ptr e, reserve e size available m)

-- heapEntry::defragment
unfoldable pub defragment : ℕ → ℕ → Mem → Outcome Mem
defragment zero e m = out_of_fuel
defragment (suc fuel) e m =
    let rest = defragment fuel e (set_next m e (get_next m (get_next m e))) in
    if not (get_reserved m (get_next m e)) then rest else ok m

-- heapEntry::free
unfoldable pub free : ℕ → ℕ → Mem → Outcome Mem
free fuel e m = defragment fuel e (set_reserved m e false)

-- kalloc, operator new and operator new[]
unfoldable pub kalloc : ℕ → ℕ → ℕ → Mem → Outcome (ℕ × Mem)
kalloc fuel heap size m = allocate fuel heap size m

-- The loop of kfree from `it` on.
unfoldable pub kfree_loop : ℕ → ℕ → ℕ → Mem → Outcome Mem
kfree_loop zero it ptr m = out_of_fuel
kfree_loop (suc fuel) it ptr m =
    let rest = kfree_loop fuel (get_next m it) ptr m in
    if is_last m it then panic else if get_data_ptr it == ptr then free (suc fuel) it m else rest

-- kfree and the forms of operator delete
unfoldable pub kfree : ℕ → ℕ → ℕ → Mem → Outcome Mem
kfree fuel heap ptr m = kfree_loop fuel heap ptr m

-- heapInitialize: the statics `heap` and `heapEnd`, and the memory
unfoldable pub heap_initialize : ℕ → ℕ → Mem → ℕ × ℕ × Mem
heap_initialize ptr max_size m =
    let heap_end = sub32 (add32 ptr max_size) header_size in
    (ptr, heap_end, init (init m ptr heap_end) heap_end 0)
