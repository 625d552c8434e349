-- ===== src/Heap/Bump.antt =====
-- The heap as it is while nothing was freed: reserved blocks of the sizes asked for, and one free
-- block behind them.
use rainbow_os.Prelude.{
  add32, ℕ, zero, suc, ◌+◌, ◌-◌, ◌≤◌, ◌<◌, ◌≡◌, refl, ap, subst, ◌∙◌, ◌⊎◌, inl, inr, true, false,
  ◌||◌, List, [], ◌∷◌, ◌++◌, arith, ltb, Bool-cases, length, Outcome, ok, panic, out_of_fuel,
}
use rainbow_os.Memory.{Mem, IsBytes}
use native.Mathlib.Decide.{dec_lt}
use rainbow_os.Memory.{SameOutside}
use rainbow_os.Heap.{
  splits, get_data_ptr, reserve, get_next, get_size, get_reserved, is_last, allocate, kalloc,
}
use rainbow_os.Heap.Header.{get_next-eq, get_reserved-eq}
use rainbow_os.Heap.Blocks.{Block, block, next, Chain, Chain-le, InReserved, alloc, SplitsWell}
use rainbow_os.Heap.Safety.{InReserved-le}
use rainbow_os.Heap.Initialize.{set_next-IsBytes, set_reserved-IsBytes, init-IsBytes}
use rainbow_os.Heap.Allocate.{allocate-Allocates}

-- Reserved blocks of these sizes, and a free block of `room` bytes.
abbrev pub bump : List ℕ → ℕ → List Block
bump [] room = block room false ∷ []
bump (s ∷ ss) room = block s true ∷ bump ss room

-- Where the free block begins.
abbrev pub free_at : List ℕ → ℕ → ℕ
free_at [] e = e
free_at (s ∷ ss) e = free_at ss (e + 8 + s)

-- What happens in the reserved blocks leaves the chain.
pub Chain-InReserved :
    (m m' : Mem) (last e : ℕ) (bs : List Block)
    → ((x : ℕ) → e ≤ x → x < last + 8 → ¬ InReserved bs e x → m' x ≡ m x)
    → Chain m last e bs
    → Chain m' last e bs
Chain-InReserved m m' last e [] same c = (
  c.0,
  c.1,
  get_next-eq m m' e (λ x l h. same x l (omega (arith, c.0)) (λ i. i)) ∙ c.2,
  get_reserved-eq m m' e (same (e + 4) (omega arith) (omega (arith, c.0)) (λ i. i)) ∙ c.3,
)
Chain-InReserved m m' last e (b ∷ bs) same c =
    let top = Chain-le m last (next e b) bs c.2 in
    let header : (x : ℕ) → e ≤ x → x < e + 8 → m' x ≡ m x =
      λ x l h. same x l (omega arith) (λ i. absurd (omega (arith, InReserved-le (b ∷ bs) e x i))) in
    (
      get_next-eq m m' e (λ x l h. header x l (omega arith)) ∙ c.0,
      get_reserved-eq m m' e (header (e + 4) (omega arith) (omega arith)) ∙ c.1,
      Chain-InReserved m m' last (next e b) bs
          (λ x l h out.
            same x (omega arith) h
              (λ i. elim i [ inl own ↦ absurd (omega arith) | inr later ↦ out later ]))
          c.2,
    )

reserve-IsBytes :
    (e size available : ℕ) (m : Mem) → IsBytes m → IsBytes (reserve e size available m)
unfolding reserve
reserve-IsBytes e size available m b =
    let a = add32 (get_data_ptr e) size in
    let split = init-IsBytes _ a (get_next m e) (set_next-IsBytes m e a b) in
    elim (Bool-cases (splits size available)) [
      | inl cut ↦ rw cut (set_reserved-IsBytes _ e true split)
      | inr whole ↦ rw whole (set_reserved-IsBytes m e true b)
    ]

abbrev OkBytes : Outcome (ℕ × Mem) → Type 0
OkBytes (ok (p, m)) = IsBytes m
OkBytes panic = Unit {0}
OkBytes out_of_fuel = Unit {0}

allocate-IsBytes : (fuel e size : ℕ) (m : Mem) → IsBytes m → OkBytes (allocate fuel e size m)
unfolding allocate
allocate-IsBytes zero e size m b = tt
allocate-IsBytes (suc fuel) e size m b =
    let rest = allocate-IsBytes fuel (get_next m e) size m b in
    let here = reserve-IsBytes e size (get_size m e) m b in
    elim (Bool-cases (is_last m e)) [
      | inl end ↦ rw end b
      | inr inner ↦ elim (Bool-cases (get_reserved m e || ltb (get_size m e) size)) [
        | inl skip ↦ rw (inner, skip) rest
        | inr take ↦ rw (inner, take) here
      ]
    ]

alloc-bump :
    (ss : List ℕ) (room e size : ℕ)
    → size + 8 ≤ room
    → alloc (bump ss room) e size ≡ (free_at ss e + 8, bump (ss ++ size ∷ []) (room - size - 8))
alloc-bump [] room e size h = ground arith
alloc-bump (s ∷ ss) room e size h = rw (alloc-bump ss room (e + 8 + s) size h) refl

bump-SplitsWell : (ss : List ℕ) (room size : ℕ) → size + 8 ≤ room → SplitsWell (bump ss room) size
bump-SplitsWell [] room size h = (inr (inr h), tt)
bump-SplitsWell (s ∷ ss) room size h = (inl refl, bump-SplitsWell ss room size h)

length-bump : (ss : List ℕ) (room : ℕ) → length (bump ss room) ≡ length ss + 1
length-bump [] room = refl
length-bump (s ∷ ss) room = omega (arith, length-bump ss room)

pub free_at-le : (ss : List ℕ) (e : ℕ) → e ≤ free_at ss e
free_at-le [] e = omega arith
free_at-le (s ∷ ss) e = omega (arith, free_at-le ss (e + 8 + s))

pub free_at-Chain :
    (ss : List ℕ) (room e last : ℕ) (m : Mem)
    → Chain m last e (bump ss room)
    → free_at ss e + 8 + room ≡ last
free_at-Chain [] room e last m c = c.2.0
free_at-Chain (s ∷ ss) room e last m c = free_at-Chain ss room (e + 8 + s) last m c.2

pub free_at-append :
    (ss : List ℕ) (e size : ℕ) → free_at (ss ++ size ∷ []) e ≡ free_at ss e + 8 + size
free_at-append [] e size = refl
free_at-append (s ∷ ss) e size = free_at-append ss (e + 8 + s) size

-- The bytes that kalloc hands out are those of the new block.
pub bump-InReserved :
    (ss : List ℕ) (room e size x : ℕ)
    → free_at ss e + 8 ≤ x
    → x < free_at ss e + 8 + size
    → InReserved (bump (ss ++ size ∷ []) room) e x
bump-InReserved [] room e size x lo hi = inl (refl, lo, hi)
bump-InReserved (s ∷ ss) room e size x lo hi =
    inr (bump-InReserved ss room (e + 8 + s) size x lo hi)

-- A byte of the blocks before is no byte of the new one.
pub InReserved-bump :
    (ss : List ℕ) (room e x : ℕ) → InReserved (bump ss room) e x → x < free_at ss e
InReserved-bump [] room e x (inl h) = cc
InReserved-bump [] room e x (inr h) = absurd h
InReserved-bump (s ∷ ss) room e x (inl h) = omega (arith, free_at-le ss (e + 8 + s))
InReserved-bump (s ∷ ss) room e x (inr h) = InReserved-bump ss room (e + 8 + s) x h

-- Reserved bytes stay reserved when a block is added.
pub bump-kept :
    (ss : List ℕ) (room rest e size x : ℕ)
    → InReserved (bump ss room) e x
    → InReserved (bump (ss ++ size ∷ []) rest) e x
bump-kept [] room rest e size x (inl h) = cc
bump-kept [] room rest e size x (inr h) = absurd h
bump-kept (s ∷ ss) room rest e size x (inl h) = inl h
bump-kept (s ∷ ss) room rest e size x (inr h) = inr (bump-kept ss room rest (e + 8 + s) size x h)

-- A write into the new block leaves the chain.
pub Chain-bump :
    (ss : List ℕ) (room last e size a w : ℕ) (m m' : Mem)
    → SameOutside a w m m'
    → free_at ss e + 8 ≤ a
    → a + w ≤ free_at ss e + 8 + size
    → Chain m last e (bump (ss ++ size ∷ []) room)
    → Chain m' last e (bump (ss ++ size ∷ []) room)
Chain-bump ss room last e size a w m m' same lo hi c =
    Chain-InReserved m m' last e (bump (ss ++ size ∷ []) room)
      (λ x _ _ out. elim (dec_lt x a) [
        | yes before ↦ same x (inl before)
        | no reached ↦ elim (dec_lt x (a + w)) [
          | yes within ↦ absurd (out (bump-InReserved ss room e size x (omega arith) (omega arith)))
          | no behind ↦ same x (omega arith)
        ]
      ])
      c

-- While nothing was freed and the free block has room for the request and a header, kalloc hands out
-- the bytes behind the blocks before, keeps every byte below the heap and in those blocks, and
-- leaves a heap of the same form with one more block. Two rounds more than there are blocks are enough.
pub kalloc-bump :
    (ss : List ℕ) (room fuel e size last : ℕ) (m : Mem)
    → Chain m last e (bump ss room)
    → IsBytes m
    → size + 8 ≤ room
    → length ss + 1 < fuel
    → (m' : Mem) × (kalloc fuel e size m ≡ ok (free_at ss e + 8, m'))
      × Chain m' last e (bump (ss ++ size ∷ []) (room - size - 8))
      × IsBytes m'
      × ((x : ℕ) → (x < e) ⊎ InReserved (bump ss room) e x → m' x ≡ m x)
unfolding kalloc
kalloc-bump ss room fuel e size last m c b h enough =
    let a = alloc-bump ss room e size h in
    let (m', eq, c', same) =
      allocate-Allocates (bump ss room) fuel e size last m c (bump-SplitsWell ss room size h)
        (omega (arith, length-bump ss room)) in
    let eq' : allocate fuel e size m ≡ ok (free_at ss e + 8, m') =
      eq ∙ ap (λ (r : ℕ × List Block). ok (r.0, m')) a in
    (
      m',
      eq',
      subst (λ (r : ℕ × List Block). Chain m' last e r.1) a c',
      subst OkBytes eq' (allocate-IsBytes fuel e size m b),
      same,
    )
