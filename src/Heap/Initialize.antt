-- ===== src/Heap/Initialize.antt =====
-- heapInitialize makes a heap of one free block.
use rainbow_os.Prelude.{
  Bool, ◌==◌, ℕ, ◌+◌, ◌-◌, ◌^◌, ◌≤◌, ◌<◌, ◌≡◌, refl, sym, subst, ◌∙◌, false, [], ◌∷◌, arith, add32,
  sub32,
}
use rainbow_os.Memory.{Mem, IsBytes, SameOutside}
use rainbow_os.Memory.Words.{write8-IsBytes, write32-IsBytes}
use rainbow_os.Heap.{init, set_next, set_reserved, heap_initialize}
use rainbow_os.Heap.Blocks.{block, Chain}
use rainbow_os.Heap.Header.{init-fields, get_next-eq, get_reserved-eq}

pub set_next-IsBytes : (m : Mem) (e n : ℕ) → IsBytes m → IsBytes (set_next m e n)
unfolding set_next
set_next-IsBytes m e n b = write32-IsBytes m e n b

pub set_reserved-IsBytes : (m : Mem) (e : ℕ) (r : Bool) → IsBytes m → IsBytes (set_reserved m e r)
unfolding set_reserved
set_reserved-IsBytes m e r b = write8-IsBytes m _ _ b

pub init-IsBytes : (m : Mem) (e n : ℕ) → IsBytes m → IsBytes (init m e n)
unfolding init
init-IsBytes m e n b = set_next-IsBytes _ e n (set_reserved-IsBytes m e (n == 0) b)

pub heap_initialize-IsBytes :
    (ptr max_size : ℕ) (m : Mem) → IsBytes m → IsBytes (heap_initialize ptr max_size m).2
unfolding heap_initialize
heap_initialize-IsBytes ptr max_size m b = init-IsBytes _ _ _ (init-IsBytes _ _ _ b)

initialized :
    (ptr last max_size : ℕ) (m : Mem)
    → 16 ≤ max_size
    → ptr + max_size < 2 ^ 32
    → last + 8 ≡ ptr + max_size
    → let m' = init (init m ptr last) last 0 in
      (ptr ≡ ptr)
      × (last ≡ last)
      × Chain m' last ptr (block (max_size - 16) false ∷ [])
      × SameOutside ptr max_size m m'
initialized ptr last max_size m room lim e =
    let one = init-fields m ptr last (omega arith) in
    let two = init-fields (init m ptr last) last 0 (omega arith) in
    let end : ptr + 8 + (max_size - 16) ≡ last = omega arith in
    (
      refl,
      refl,
      (
        get_next-eq _ _ ptr (λ x l h. two.2 x (omega arith)) ∙ one.0 ∙ sym end,
        get_reserved-eq _ _ ptr (two.2 (ptr + 4) (omega arith)) ∙ one.1 ∙ ground arith,
        subst (λ k. Chain (init (init m ptr last) last 0) last k []) (sym end)
            (refl, omega arith, two.0, two.1),
      ),
      λ x o. two.2 x (omega arith) ∙ one.2 x (omega arith),
    )

-- A region that has room for two headers, lies above address 0 and does not reach past the address
-- space becomes a heap of one free block that takes all but the two headers; only the region is
-- written.
pub heap_initialize-Chain :
    (ptr max_size : ℕ) (m : Mem)
    → 16 ≤ max_size
    → ptr + max_size < 2 ^ 32
    → let (heap, heap_end, m') = heap_initialize ptr max_size m in
      (heap ≡ ptr)
      × (heap_end ≡ ptr + max_size - 8)
      × Chain m' heap_end heap (block (max_size - 16) false ∷ [])
      × SameOutside ptr max_size m m'
unfolding heap_initialize
heap_initialize-Chain ptr max_size m room lim =
    let e' : sub32 (add32 ptr max_size) 8 ≡ ptr + max_size - 8 = omega arith in
    rw e' (initialized ptr (ptr + max_size - 8) max_size m room lim (omega arith))

-- The same heap, when the address of the entry that closes it is known.
pub heap_initialize-eq :
    (ptr last max_size : ℕ) (m : Mem)
    → 16 ≤ max_size
    → ptr + max_size < 2 ^ 32
    → last + 8 ≡ ptr + max_size
    → let (heap, heap_end, m') = heap_initialize ptr max_size m in
      (heap ≡ ptr)
      × Chain m' last ptr (block (max_size - 16) false ∷ [])
      × SameOutside ptr max_size m m'
unfolding heap_initialize
heap_initialize-eq ptr last max_size m room lim e =
    let e' : sub32 (add32 ptr max_size) 8 ≡ last = omega arith in
    let (start, end, chain, same) = initialized ptr last max_size m room lim e in
    rw e' (start, chain, same)
