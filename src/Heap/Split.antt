-- ===== src/Heap/Split.antt =====
-- The test of heapEntry::allocate before it splits: which requests split a block, and what a split
-- with too little room does.
use rainbow_os.Prelude.{ℕ, ◌+◌, ◌-◌, ◌^◌, ◌<◌, ◌≡◌, refl, false, arith}
use rainbow_os.Memory.{Mem}
use rainbow_os.Heap.{get_next, get_reserved, get_size, reserve}
use rainbow_os.Heap.Reserve.{split_memory, split_first, split_second, reserve_split}

size_wraps :
    (m : Mem) (a left : ℕ)
    → get_next m a ≡ a + left
    → 0 < left
    → left < 8
    → a + left < 2 ^ 32
    → get_size m a ≡ 2 ^ 32 + left - 8
unfolding get_size
size_wraps m a left h pos small lim = rw h (omega arith)

-- Where a free entry leaves between 1 and 7 bytes, reserving it creates a free entry that claims
-- almost the whole address space, although the next entry begins before its header ends.
pub reserve_overlaps :
    (m : Mem) (e size left : ℕ)
    → get_next m e ≡ e + 8 + size + left
    → 0 < left
    → left < 8
    → e + 8 + size + left < 2 ^ 32 - 12
    → let m' = reserve e size (size + left) m in
      let a = e + 8 + size in
      (get_next m' e ≡ a) × (get_reserved m' a ≡ false) × (get_size m' a ≡ 2 ^ 32 + left - 8)
reserve_overlaps m e size left h pos small lim =
    let a = e + 8 + size in
    let n = e + 8 + size + left in
    let first = split_first m e a n (omega arith) (omega arith) (omega arith) in
    let second = split_second m e a n (omega arith) (omega arith) (omega arith) in
    let eq =
      reserve_split m e size (size + left) a n (omega arith) (omega arith) refl (omega arith) h in
    rw eq
      (first.0, second.1, size_wraps (split_memory m e a n) a left second.0 pos small (omega arith))
