-- ===== src/Heap/Safety.antt =====
-- What a caller of kalloc may rely on.
use rainbow_os.Prelude.{
  ℕ, ◌+◌, ◌-◌, ◌≤◌, ◌<◌, ◌≡◌, refl, sym, subst, ◌≢◌, ◌⊎◌, inl, inr, true, false, ◌||◌, List, [],
  ◌∷◌, arith, ltb, Bool-cases, length, ok,
}
use rainbow_os.Memory.{Mem}
use rainbow_os.Heap.{kalloc}
use rainbow_os.Heap.Blocks.{block, Block, next, Chain, InReserved, take_block, alloc, SplitsWell}
use rainbow_os.Heap.Allocate.{allocate-Allocates}

-- Every free block is smaller than the request.
abbrev pub AllSmall : List Block → ℕ → Type 0
AllSmall [] size = Unit {0}
AllSmall (b ∷ bs) size = ((b.reserved ≡ true) ⊎ (b.size < size)) × AllSmall bs size

pub InReserved-le : (bs : List Block) (e x : ℕ) → InReserved bs e x → e + 8 ≤ x
InReserved-le [] e x h = absurd h
InReserved-le (b ∷ bs) e x (inl h) = h.1
InReserved-le (b ∷ bs) e x (inr h) = omega (arith, InReserved-le bs (next e b) x h)

-- A free block and those behind it have no reserved byte before the block's end.
free_fresh :
    (b : Block) (bs : List Block) (e x : ℕ)
    → b.reserved ≡ false
    → x < next e b
    → ¬ InReserved (b ∷ bs) e x
free_fresh b bs e x f h (inl j) = cc
free_fresh b bs e x f h (inr j) = omega (arith, InReserved-le bs (next e b) x j)

-- What the pointer `p` and the new blocks `bs'` are to the request and the old blocks.
pub record Serves (bs : List Block) (e size p : ℕ) (bs' : List Block) : Type 0 where
  pub null : p ≡ 0 → AllSmall bs size
  pub above : p ≢ 0 → e + 8 ≤ p
  pub fresh : p ≢ 0 → (x : ℕ) → p ≤ x → x < p + size → ¬ InReserved bs e x
  pub owned : p ≢ 0 → (x : ℕ) → p ≤ x → x < p + size → InReserved bs' e x
  pub kept : (x : ℕ) → InReserved bs e x → InReserved bs' e x

whole-Serves :
    (b : Block) (bs : List Block) (e : ℕ)
    → b.reserved ≡ false
    → Serves (b ∷ bs) e b.size (e + 8) (block b.size true ∷ bs)
whole-Serves b bs e f = record {
  null = λ z. absurd (omega arith);
  above = λ ne. omega arith;
  fresh = λ ne x l h i. free_fresh b bs e x f h i;
  owned = λ ne x l h. inl (refl, l, h);
  kept = λ x i. elim i [ inl h ↦ absurd (cc) | inr h ↦ inr h ];
}

split-Serves :
    (b : Block) (bs : List Block) (e size : ℕ)
    → b.reserved ≡ false
    → size + 8 ≤ b.size
    → Serves (b ∷ bs) e size (e + 8) (block size true ∷ block (b.size - size - 8) false ∷ bs)
split-Serves b bs e size f room =
    let back : next e b ≡ e + 8 + size + 8 + (b.size - size - 8) = omega arith in
    record {
      null = λ z. absurd (omega arith);
      above = λ ne. omega arith;
      fresh = λ ne x l h i. free_fresh b bs e x f (omega arith) i;
      owned = λ ne x l h. inl (refl, l, h);
      kept = λ x i. elim i [
        | inl h ↦ absurd (cc)
        | inr h ↦ inr (inr (subst (λ k. InReserved bs k x) back h))
      ];
    }

take-Serves :
    (b : Block) (bs : List Block) (e size : ℕ)
    → b.reserved ≡ false
    → (b.size ≡ size) ⊎ (size + 8 ≤ b.size)
    → Serves (b ∷ bs) e size (e + 8) (take_block b.size size bs)
take-Serves b bs e size f (inl fits) =
    let t : take_block b.size b.size bs ≡ block b.size true ∷ bs = ground arith in
    subst (λ k. Serves (b ∷ bs) e k (e + 8) (take_block b.size k bs)) fits
      (subst (Serves (b ∷ bs) e b.size (e + 8)) (sym t) (whole-Serves b bs e f))
take-Serves b bs e size f (inr room) =
    let t : take_block b.size size bs ≡ block size true ∷ block (b.size - size - 8) false ∷ bs =
      ground arith in
    subst (Serves (b ∷ bs) e size (e + 8)) (sym t) (split-Serves b bs e size f room)

skip-Serves :
    (b : Block) (bs bs' : List Block) (e size p : ℕ)
    → (b.reserved ≡ true) ⊎ (b.size < size)
    → Serves bs (next e b) size p bs'
    → Serves (b ∷ bs) e size p (b ∷ bs')
skip-Serves b bs bs' e size p small s = record {
  null = λ z. (small, s.null z);
  above = λ ne. omega (arith, s.above ne);
  fresh = λ ne x l h i. elim i [
    | inl j ↦ absurd (omega (arith, s.above ne, j.2))
    | inr j ↦ s.fresh ne x l h j
  ];
  owned = λ ne x l h. inr (s.owned ne x l h);
  kept = λ x i. elim i [ inl j ↦ inl j | inr j ↦ inr (s.kept x j) ];
}

alloc-Serves :
    (bs : List Block) (e size : ℕ)
    → SplitsWell bs size
    → Serves bs e size (alloc bs e size).0 (alloc bs e size).1
alloc-Serves [] e size w = record {
  null = λ z. tt;
  above = λ ne. absurd (ne refl);
  fresh = λ ne. absurd (ne refl);
  owned = λ ne. absurd (ne refl);
  kept = λ x i. i;
}
alloc-Serves (b ∷ bs) e size w = elim (Bool-cases (b.reserved || ltb b.size size)) [
  | inl skip ↦
      let r = alloc bs (next e b) size in
      let r' : alloc (b ∷ bs) e size ≡ (r.0, b ∷ r.1) = rw skip in
      subst (λ q. Serves (b ∷ bs) e size q.0 q.1) (sym r')
        (skip-Serves b bs r.1 e size r.0 (ground arith) (alloc-Serves bs (next e b) size w.1))
  | inr here ↦
      let r' : alloc (b ∷ bs) e size ≡ (e + 8, take_block b.size size bs) = rw here in
      subst (λ q. Serves (b ∷ bs) e size q.0 q.1) (sym r')
        (take-Serves b bs e size (ground arith) (ground arith))
]

-- On a chain whose blocks all split well, kalloc ends with a pointer and a chain of new blocks. The
-- pointer is null only if every free block is smaller than the request. Otherwise the bytes that it
-- points to lie in a block that is reserved now and in none that was reserved before; every byte
-- that was reserved stays so and keeps its value.
pub kalloc-Serves :
    (bs : List Block) (fuel heap size last : ℕ) (m : Mem)
    → Chain m last heap bs
    → SplitsWell bs size
    → length bs < fuel
    → (p : ℕ) × (bs' : List Block) × (m' : Mem) × (kalloc fuel heap size m ≡ ok (p, m'))
      × Chain m' last heap bs'
      × Serves bs heap size p bs'
      × ((x : ℕ) → InReserved bs heap x → m' x ≡ m x)
unfolding kalloc
kalloc-Serves bs fuel heap size last m c w h =
    let (m', eq, c', same) = allocate-Allocates bs fuel heap size last m c w h in
    let r = alloc bs heap size in
    (r.0, r.1, m', eq, c', alloc-Serves bs heap size w, λ x i. same x (inr i))
