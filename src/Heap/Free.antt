-- ===== src/Heap/Free.antt =====
-- kfree and heapEntry::free implement release on the abstract heap.
use rainbow_os.Prelude.{
  ℕ, zero, suc, ◌+◌, ◌^◌, ◌≤◌, ◌<◌, ◌≡◌, refl, sym, subst, ◌∙◌, ◌≢◌, ◌⊎◌, inl, inr, true, false,
  Option, none, some, List, [], ◌∷◌, arith, ◌==◌, Bool-cases, length, Outcome, ok, panic,
}
use rainbow_os.Memory.{Mem, SameOutside}
use rainbow_os.Heap.{
  get_next, get_reserved, set_next, set_reserved, defragment, free, kfree_loop, kfree,
}
use rainbow_os.Heap.Blocks.{
  Block, block, next, Chain, InReserved, merge, release, Chain-le, Chain-lt,
}
use rainbow_os.Heap.Header.{
  get_next-set_next, get_reserved-set_reserved, set_next-SameOutside, set_reserved-SameOutside,
  get_next-eq, get_reserved-eq, Chain-frame,
}

defragment_stop :
    (fuel e n : ℕ) (m : Mem)
    → get_next m e ≡ n
    → get_reserved m n ≡ true
    → defragment (suc fuel) e m ≡ ok m
unfolding defragment
defragment_stop fuel e n m h r = rw (h, r)

defragment_next :
    (fuel e n k : ℕ) (m : Mem)
    → get_next m e ≡ n
    → get_reserved m n ≡ false
    → get_next m n ≡ k
    → defragment (suc fuel) e m ≡ defragment fuel e (set_next m e k)
unfolding defragment
defragment_next fuel e n k m h r hk = rw (h, r, hk)

-- A run that ends with the chain of `bs'` from `e` on, and that wrote only into the first `k` bytes.
abbrev Leaves : Mem → ℕ → ℕ → List Block → Outcome Mem → Type 0
Leaves m last e bs' o = (m' : Mem) × (o ≡ ok m') × Chain m' last e bs' × SameOutside e 5 m m'

defragment_lem :
    (bs : List Block) (fuel e s last : ℕ) (m : Mem)
    → get_next m e ≡ e + 8 + s
    → get_reserved m e ≡ false
    → Chain m last (e + 8 + s) bs
    → length bs < fuel
    → Leaves m last e (merge s bs) (defragment fuel e m)
defragment_lem bs zero e s last m h r c lt = absurd (omega arith)
defragment_lem [] (suc fuel) e s last m h r c lt =
    (m, defragment_stop fuel e (e + 8 + s) m h c.3, (h, r, c), λ x o. refl)
defragment_lem (b ∷ bs) (suc fuel) e s last m h r c lt = elim (Bool-cases b.reserved) [
  | inl stop ↦
      let t : merge s (b ∷ bs) ≡ block s false ∷ b ∷ bs = rw stop in
      subst (λ l. Leaves m last e l (defragment (suc fuel) e m)) (sym t)
        (m, defragment_stop fuel e (e + 8 + s) m h (c.1 ∙ stop), (h, r, c), λ x o. refl)
  | inr go ↦
      let t : merge s (b ∷ bs) ≡ merge (s + 8 + b.size) bs = rw go in
      let k = next (e + 8 + s) b in
      let k' : e + 8 + (s + 8 + b.size) ≡ k = omega arith in
      let lim = Chain-lt m last k bs c.2 in
      let top = Chain-le m last k bs c.2 in
      let m1 = set_next m e k in
      let same1 = set_next-SameOutside m e k in
      let (m', eq, c', same) =
        defragment_lem bs fuel e (s + 8 + b.size) last m1
          (get_next-set_next m e k (omega arith) ∙ sym k')
          (get_reserved-eq m m1 e (same1 (e + 4) (omega arith)) ∙ r)
          (subst (λ a. Chain m1 last a bs) (sym k')
            (Chain-frame m m1 last k bs (λ x l. same1 x (omega arith)) c.2))
          (omega arith) in
      subst (λ l. Leaves m last e l (defragment (suc fuel) e m)) (sym t)
        (
          m',
          defragment_next fuel e (e + 8 + s) k m h (c.1 ∙ go) c.0 ∙ eq,
          c',
          λ x o. same x o ∙ same1 x (omega arith),
        )
]

free_lem :
    (b : Block) (bs : List Block) (fuel e last : ℕ) (m : Mem)
    → Chain m last e (b ∷ bs)
    → length bs < fuel
    → Leaves m last e (merge b.size bs) (free fuel e m)
unfolding free
free_lem b bs fuel e last m c lt =
    let m1 = set_reserved m e false in
    let same1 = set_reserved-SameOutside m e false in
    let (m', eq, c', same) =
      defragment_lem bs fuel e b.size last m1
        (get_next-eq m m1 e (λ x l h. same1 x (omega arith)) ∙ c.0)
        (get_reserved-set_reserved m e false)
        (Chain-frame m m1 last (next e b) bs (λ x l. same1 x (omega arith)) c.2) lt in
    (m', eq, c', λ x o. same x o ∙ same1 x (omega arith))

InReserved-le : (bs : List Block) (e x : ℕ) → InReserved bs e x → e ≤ x
InReserved-le [] e x h = absurd h
InReserved-le (b ∷ bs) e x (inl h) = omega arith
InReserved-le (b ∷ bs) e x (inr h) = omega (arith, InReserved-le bs (next e b) x h)

InReserved-behind :
    (b : Block) (bs : List Block) (s e x : ℕ)
    → InReserved (block s false ∷ b ∷ bs) e x
    → e + 8 + s ≤ x
InReserved-behind b bs s e x (inl h) = absurd (cc)
InReserved-behind b bs s e x (inr h) = InReserved-le (b ∷ bs) (e + 8 + s) x h

-- A freed block and those that it took in have no reserved byte.
InReserved-merge : (bs : List Block) (s e x : ℕ) → InReserved (merge s bs) e x → e + 8 + s ≤ x
InReserved-merge [] s e x (inl h) = absurd (cc)
InReserved-merge [] s e x (inr h) = absurd h
InReserved-merge (b ∷ bs) s e x i = elim (Bool-cases b.reserved) [
  | inl stop ↦
      let t : merge s (b ∷ bs) ≡ block s false ∷ b ∷ bs = rw stop in
      InReserved-behind b bs s e x (subst (λ l. InReserved l e x) t i)
  | inr go ↦
      let t : merge s (b ∷ bs) ≡ merge (s + 8 + b.size) bs = rw go in
      omega (arith, InReserved-merge bs (s + 8 + b.size) e x (subst (λ l. InReserved l e x) t i))
]

-- What a run of kfree must be: a panic if no block begins at the pointer; else the chain of the
-- blocks that release leaves, with every byte below the chain or in a reserved block as it was.
abbrev pub Releases : Mem → ℕ → ℕ → Option (List Block) → Outcome Mem → Type 0
Releases m last e none o = o ≡ panic
Releases m last e (some bs') o =
    (m' : Mem) × (o ≡ ok m')
    × Chain m' last e bs'
    × ((x : ℕ) → (x < e) ⊎ InReserved bs' e x → m' x ≡ m x)

kfree_loop_hit :
    (fuel it ptr : ℕ) (m : Mem)
    → get_next m it ≢ 0
    → it + 8 < 2 ^ 32
    → it + 8 ≡ ptr
    → kfree_loop (suc fuel) it ptr m ≡ free (suc fuel) it m
unfolding kfree_loop
kfree_loop_hit fuel it ptr m ne lim h = ground arith

kfree_loop_miss :
    (fuel it ptr n : ℕ) (m : Mem)
    → get_next m it ≡ n
    → n ≢ 0
    → it + 8 < 2 ^ 32
    → it + 8 ≢ ptr
    → kfree_loop (suc fuel) it ptr m ≡ kfree_loop fuel n ptr m
unfolding kfree_loop
kfree_loop_miss fuel it ptr n m h ne lim miss = rw h (ground arith)

kfree_loop_last :
    (fuel it ptr : ℕ) (m : Mem) → get_next m it ≡ 0 → kfree_loop (suc fuel) it ptr m ≡ panic
unfolding kfree_loop
kfree_loop_last fuel it ptr m h = rw h

module _ (m : Mem) (last it : ℕ) (b : Block) (bs : List Block) (c : Chain m last it (b ∷ bs)) where
  Releases-cons :
      (o : Option (List Block)) (run : Outcome Mem)
      → Releases m last (next it b) o run
      → Releases m last it (elim o [ none ↦ none | some bs' ↦ some (b ∷ bs') ]) run
  Releases-cons none run h = h
  Releases-cons (some bs') run (m', eq, c', same) = (
    m',
    eq,
    (
      get_next-eq m m' it (λ x l h. same x (inl (omega arith))) ∙ c.0,
      get_reserved-eq m m' it (same (it + 4) (inl (omega arith))) ∙ c.1,
      c',
    ),
    λ x o. same x (zone x o),
  )
    where
      zone :
          (x : ℕ)
          → (x < it) ⊎ InReserved (b ∷ bs') it x
          → (x < next it b) ⊎ InReserved bs' (next it b) x
      zone x (inl h) = inl (omega arith)
      zone x (inr (inl h)) = inl h.2
      zone x (inr (inr h)) = inr h

  Releases-hit :
      (fuel ptr : ℕ)
      → it + 8 ≡ ptr
      → length bs < suc fuel
      → Releases m last it (some (merge b.size bs)) (kfree_loop (suc fuel) it ptr m)
  Releases-hit fuel ptr at h =
      let (m', eq, c', same) = free_lem b bs (suc fuel) it last m c h in
      (
        m',
        kfree_loop_hit fuel it ptr m (omega (arith, c.0))
              (omega
                (arith, Chain-le m last (next it b) bs c.2, Chain-lt m last (next it b) bs c.2))
              at
            ∙ eq,
        c',
        λ x o. elim o [
          | inl l ↦ same x (omega arith)
          | inr i ↦ same x (omega (arith, InReserved-merge bs b.size it x i))
        ],
      )

kfree_loop-Releases :
    (bs : List Block) (fuel it ptr last : ℕ) (m : Mem)
    → Chain m last it bs
    → length bs < fuel
    → Releases m last it (release bs it ptr) (kfree_loop fuel it ptr m)
kfree_loop-Releases bs zero it ptr last m c h = absurd (omega arith)
kfree_loop-Releases [] (suc fuel) it ptr last m c h = kfree_loop_last fuel it ptr m c.2
kfree_loop-Releases (b ∷ bs) (suc fuel) it ptr last m c h =
    let lim = Chain-lt m last (next it b) bs c.2 in
    let top = Chain-le m last (next it b) bs c.2 in
    elim (Bool-cases (it + 8 == ptr)) [
      | inl hit ↦
          let t : release (b ∷ bs) it ptr ≡ some (merge b.size bs) = rw hit in
          subst (λ r. Releases m last it r (kfree_loop (suc fuel) it ptr m)) (sym t)
            (Releases-hit m last it b bs c fuel ptr (ground arith) (omega arith))
      | inr miss ↦
          let t : release (b ∷ bs) it ptr
              ≡ elim (release bs (next it b) ptr) [ none ↦ none | some bs' ↦ some (b ∷ bs') ] =
            rw miss in
          subst (λ r. Releases m last it r (kfree_loop (suc fuel) it ptr m)) (sym t)
            (subst (Releases m last it _)
              (sym (
                kfree_loop_miss fuel it ptr (next it b) m c.0 (omega arith) (omega arith)
                  (ground arith)))
              (Releases-cons m last it b bs c (release bs (next it b) ptr)
                (kfree_loop fuel (next it b) ptr m)
                (kfree_loop-Releases bs fuel (next it b) ptr last m c.2 (omega arith))))
    ]

-- kfree frees as release does on the abstract heap: it panics if no block begins at the pointer,
-- and otherwise leaves the chain in which that block is free and has taken in the free blocks
-- behind it. Every byte below the heap or in a block that is still reserved keeps its value. One
-- round more than there are blocks is enough.
pub kfree-Releases :
    (bs : List Block) (fuel heap ptr last : ℕ) (m : Mem)
    → Chain m last heap bs
    → length bs < fuel
    → Releases m last heap (release bs heap ptr) (kfree fuel heap ptr m)
unfolding kfree
kfree-Releases bs fuel heap ptr last m c h = kfree_loop-Releases bs fuel heap ptr last m c h
