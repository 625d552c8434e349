-- ===== src/Heap/Session.antt =====
-- Any sequence of allocations and frees on one heap.
use rainbow_os.Prelude.{
  subst, sym, ltb, ◌||◌, ◌==◌, ◌-◌, ℕ, suc, ◌+◌, ◌%◌, ◌≤◌, ◌<◌, ◌≡◌, refl, ◌⊎◌, inl, inr, Bool,
  true, false, Option, none, some, List, [], ◌∷◌, arith, Bool-cases, length, Outcome, ok, panic,
  ◌>>=◌,
}
use rainbow_os.Memory.{Mem}
use native.Mathlib.Decide.{dec_le}
use rainbow_os.Heap.{allocate, kalloc, kfree}
use rainbow_os.Heap.Blocks.{
  Block, block, next, Chain, take_block, alloc, SplitsWell, merge, release,
}
use rainbow_os.Heap.Allocate.{allocate-Allocates}
use rainbow_os.Heap.Free.{Releases, kfree-Releases}

pub data Request : Type 0 where
  allocating : ℕ → Request
  freeing : ℕ → Request

-- The requests in order. The pointers that allocations return are the caller's.
unfoldable pub session : ℕ → ℕ → List Request → Mem → Outcome Mem
session fuel heap [] m = ok m
session fuel heap (allocating size ∷ rs) m =
    kalloc fuel heap size m >>= λ (p, m'). session fuel heap rs m'
session fuel heap (freeing ptr ∷ rs) m = kfree fuel heap ptr m >>= session fuel heap rs

kalloc_lem : (fuel heap size : ℕ) (m : Mem) → kalloc fuel heap size m ≡ allocate fuel heap size m
unfolding kalloc
kalloc_lem fuel heap size m = refl

-- Every size is a multiple of the header size.
abbrev pub Aligned : List Block → Type 0
Aligned [] = Unit {0}
Aligned (b ∷ bs) = (b.size % 8 ≡ 0) × Aligned bs

abbrev pub AlignedRequests : List Request → Type 0
AlignedRequests [] = Unit {0}
AlignedRequests (allocating size ∷ rs) = (size % 8 ≡ 0) × AlignedRequests rs
AlignedRequests (freeing ptr ∷ rs) = AlignedRequests rs

divided :
    (r : Bool) (s size : ℕ) → s % 8 ≡ 0 → size % 8 ≡ 0 → (r ≡ true) ⊎ ((s ≤ size) ⊎ (size + 8 ≤ s))
divided r s size h k = inr (elim (dec_le s size) [ yes le ↦ inl le | no gt ↦ inr (omega arith) ])

Aligned-SplitsWell : (bs : List Block) (size : ℕ) → Aligned bs → size % 8 ≡ 0 → SplitsWell bs size
Aligned-SplitsWell [] size a h = tt
Aligned-SplitsWell (b ∷ bs) size a h =
    (divided b.reserved b.size size a.0 h, Aligned-SplitsWell bs size a.1 h)

-- A list of blocks that keeps the alignment and has at most `n` blocks.
abbrev AlignedUpTo : ℕ → List Block → Type 0
AlignedUpTo n bs = Aligned bs × (length bs ≤ n)

Aligned-take_block :
    (available size : ℕ) (bs : List Block)
    → available % 8 ≡ 0
    → size % 8 ≡ 0
    → size + 8 ≤ available ⊎ available ≡ size
    → Aligned bs
    → AlignedUpTo (length bs + 2) (take_block available size bs)
Aligned-take_block available size bs h k (inl room) a =
    let t : take_block available size bs
        ≡ block size true ∷ block (available - size - 8) false ∷ bs =
      ground arith in
    subst (AlignedUpTo (length bs + 2)) (sym t) ((k, (omega arith, a)), omega arith)
Aligned-take_block available size bs h k (inr fits) a =
    let t : take_block available size bs ≡ block size true ∷ bs = ground arith in
    subst (AlignedUpTo (length bs + 2)) (sym t) ((k, a), omega arith)

Aligned-alloc :
    (bs : List Block) (e size : ℕ)
    → Aligned bs
    → size % 8 ≡ 0
    → AlignedUpTo (length bs + 1) (alloc bs e size).1
Aligned-alloc [] e size a h = (tt, omega arith)
Aligned-alloc (b ∷ bs) e size a h = elim (Bool-cases (b.reserved || ltb b.size size)) [
  | inl skip ↦
      let r = alloc bs (next e b) size in
      let t : alloc (b ∷ bs) e size ≡ (r.0, b ∷ r.1) = rw skip in
      let ih = Aligned-alloc bs (next e b) size a.1 h in
      subst (λ q. AlignedUpTo (length (b ∷ bs) + 1) q.1) (sym t) ((a.0, ih.0), omega arith)
  | inr here ↦
      let t : alloc (b ∷ bs) e size ≡ (e + 8, take_block b.size size bs) = rw here in
      let le : size ≤ b.size = ground arith in
      let tb = Aligned-take_block b.size size bs a.0 h (omega arith) a.1 in
      subst (λ q. AlignedUpTo (length (b ∷ bs) + 1) q.1) (sym t) (tb.0, omega arith)
]

Aligned-merge :
    (bs : List Block) (s : ℕ) → s % 8 ≡ 0 → Aligned bs → AlignedUpTo (length bs + 1) (merge s bs)
Aligned-merge [] s h a = ground arith
Aligned-merge (b ∷ bs) s h a = elim (Bool-cases b.reserved) [
  | inl stop ↦
      let t : merge s (b ∷ bs) ≡ block s false ∷ b ∷ bs = rw stop in
      subst (AlignedUpTo (length (b ∷ bs) + 1)) (sym t) ((h, a), omega arith)
  | inr go ↦
      let t : merge s (b ∷ bs) ≡ merge (s + 8 + b.size) bs = rw go in
      let ih = Aligned-merge bs (s + 8 + b.size) (omega arith) a.1 in
      subst (AlignedUpTo (length (b ∷ bs) + 1)) (sym t) (ih.0, omega arith)
]

-- The blocks that a free leaves, if it finds its block.
abbrev Freed : ℕ → Option (List Block) → Type 0
Freed n none = Unit {0}
Freed n (some bs) = AlignedUpTo n bs

Freed-cons :
    (b : Block) (n : ℕ) (o : Option (List Block))
    → b.size % 8 ≡ 0
    → Freed n o
    → Freed (suc n) (elim o [ none ↦ none | some bs ↦ some (b ∷ bs) ])
Freed-cons b n none h f = tt
Freed-cons b n (some bs) h f = ((h, f.0), omega arith)

Freed-release : (bs : List Block) (e ptr : ℕ) → Aligned bs → Freed (length bs) (release bs e ptr)
Freed-release [] e ptr a = tt
Freed-release (b ∷ bs) e ptr a = elim (Bool-cases (e + 8 == ptr)) [
  | inl hit ↦
      let t : release (b ∷ bs) e ptr ≡ some (merge b.size bs) = rw hit in
      let ih = Aligned-merge bs b.size a.0 a.1 in
      subst (Freed (length (b ∷ bs))) (sym t) (ih.0, omega arith)
  | inr miss ↦
      let t : release (b ∷ bs) e ptr
          ≡ elim (release bs (next e b) ptr) [ none ↦ none | some bs' ↦ some (b ∷ bs') ] =
        rw miss in
      subst (Freed (length (b ∷ bs))) (sym t) (
        Freed-cons b (length bs) (release bs (next e b) ptr) a.0
          (Freed-release bs (next e b) ptr a.1))
]

-- How a session may end.
abbrev pub Ends : ℕ → ℕ → Outcome Mem → Type 0
Ends last heap o =
    (o ≡ panic)
    ⊎ ((m' : Mem) × (bs' : List Block) × (o ≡ ok m') × Chain m' last heap bs' × Aligned bs')

-- The rest of a session behind a free.
freeing-Ends :
    (o : Option (List Block)) (run : Outcome Mem) (k : Mem → Outcome Mem) (m : Mem)
    (last heap n : ℕ)
    → Freed n o
    → Releases m last heap o run
    → ((m' : Mem) (bs : List Block)
        → Chain m' last heap bs
        → Aligned bs
        → length bs ≤ n
        → Ends last heap (k m'))
    → Ends last heap (run >>= k)
freeing-Ends none run k m last heap n f r next_ends = inl (rw r refl)
freeing-Ends (some bs) run k m last heap n f (m', e, c, same) next_ends =
    rw e (next_ends m' bs c f.0 f.1)

-- From a heap whose block sizes are multiples of 8, a session that requests only multiples of 8
-- ends with such a heap or in the panic of kfree. As many rounds as there are blocks and requests,
-- and one more, are enough for each call.
pub session-Ends :
    (rs : List Request) (bs : List Block) (fuel heap last : ℕ) (m : Mem)
    → Chain m last heap bs
    → Aligned bs
    → AlignedRequests rs
    → length bs + length rs < fuel
    → Ends last heap (session fuel heap rs m)
unfolding session
session-Ends [] bs fuel heap last m c a r h = inr (m, bs, refl, c, a)
session-Ends (allocating size ∷ rs) bs fuel heap last m c a r h =
    let (m', e, c', _) =
      allocate-Allocates bs fuel heap size last m c (Aligned-SplitsWell bs size a r.0)
        (omega arith) in
    let grown = Aligned-alloc bs heap size a r.0 in
    rw (kalloc_lem fuel heap size m, e)
      (session-Ends rs (alloc bs heap size).1 fuel heap last m' c' grown.0 r.1 (omega arith))
session-Ends (freeing ptr ∷ rs) bs fuel heap last m c a r h =
    freeing-Ends (release bs heap ptr) (kfree fuel heap ptr m) (session fuel heap rs) m last heap
      (length bs) (Freed-release bs heap ptr a)
      (kfree-Releases bs fuel heap ptr last m c (omega arith))
      (λ m' bs' c' a' le. session-Ends rs bs' fuel heap last m' c' a' r (omega arith))
