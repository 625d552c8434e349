-- ===== src/Heap/Allocate.antt =====
-- heapEntry::allocate implements first fit on the abstract heap.
use rainbow_os.Prelude.{
  ap, zero, length, Bool-cases, inl, inr, subst, refl, sym, ◌||◌, Outcome, ok, ◌≢◌, ltb, ℕ, suc,
  ◌+◌, ◌≤◌, ◌<◌, ◌≡◌, ◌∙◌, ◌⊎◌, true, false, List, [], ◌∷◌, arith,
}
use rainbow_os.Memory.{Mem}
use rainbow_os.Heap.{get_size, allocate, get_next, get_reserved, get_data_ptr, reserve}
use rainbow_os.Heap.Reserve.{reserve-Chain}
use rainbow_os.Heap.Blocks.{
  SplitsWell, next, Chain-le, Chain-lt, alloc, InReserved, take_block, Block, Chain,
}
use rainbow_os.Heap.Header.{get_size-next, get_next-eq, get_reserved-eq}

-- What a run of allocate must leave: the first-fit block, the chain of the new blocks, and every
-- byte below the chain or in a block that was reserved as it was.
abbrev pub Allocates : Mem → ℕ → ℕ → List Block → ℕ × List Block → Outcome (ℕ × Mem) → Type 0
Allocates m last e bs r o =
    (m' : Mem) × (o ≡ ok (r.0, m'))
    × Chain m' last e r.1
    × ((x : ℕ) → (x < e) ⊎ InReserved bs e x → m' x ≡ m x)

InReserved-le : (bs : List Block) (e x : ℕ) → InReserved bs e x → e ≤ x
InReserved-le [] e x h = absurd h
InReserved-le (b ∷ bs) e x (inl h) = omega arith
InReserved-le (b ∷ bs) e x (inr h) = omega (arith, InReserved-le bs (next e b) x h)

-- The recursion of allocate takes one step.
allocate_skip :
    (fuel e size n : ℕ) (m : Mem)
    → get_next m e ≡ n
    → n ≢ 0
    → (get_reserved m e || ltb (get_size m e) size) ≡ true
    → allocate (suc fuel) e size m ≡ allocate fuel n size m
unfolding allocate
allocate_skip fuel e size n m h ne t = rw (t, h) (ground arith)

allocate_here :
    (fuel e size n s : ℕ) (m : Mem)
    → get_next m e ≡ n
    → n ≢ 0
    → get_size m e ≡ s
    → (get_reserved m e || ltb s size) ≡ false
    → allocate (suc fuel) e size m ≡ ok (get_data_ptr e, reserve e size s m)
unfolding allocate
allocate_here fuel e size n s m h ne hs t = rw (hs, t, h) (ground arith)

allocate_end :
    (fuel e size : ℕ) (m : Mem) → get_next m e ≡ 0 → allocate (suc fuel) e size m ≡ ok (0, m)
unfolding allocate
allocate_end fuel e size m h = rw h

module _ (m : Mem) (last e size : ℕ) (b : Block) (bs : List Block)
    (c : Chain m last e (b ∷ bs)) where
  size_here : get_size m e ≡ b.size
  size_here =
      get_size-next m e b.size c.0
        (omega (arith, Chain-le m last (next e b) bs c.2, Chain-lt m last (next e b) bs c.2))

  skip_zone :
      (x : ℕ) → (x < e) ⊎ InReserved (b ∷ bs) e x → (x < next e b) ⊎ InReserved bs (next e b) x
  skip_zone x (inl h) = inl (omega arith)
  skip_zone x (inr (inl h)) = inl h.2
  skip_zone x (inr (inr h)) = inr h

  here_zone :
      b.reserved ≡ false → (x : ℕ) → (x < e) ⊎ InReserved (b ∷ bs) e x → (x < e) ⊎ (next e b ≤ x)
  here_zone f x (inl h) = inl h
  here_zone f x (inr (inl h)) = absurd (cc)
  here_zone f x (inr (inr h)) = inr (InReserved-le bs (next e b) x h)

  Allocates-skip :
      (fuel : ℕ)
      → (b.reserved || ltb b.size size) ≡ true
      → Allocates m last (next e b) bs (alloc bs (next e b) size) (allocate fuel (next e b) size m)
      → Allocates m last e (b ∷ bs) (alloc (b ∷ bs) e size) (allocate (suc fuel) e size m)
  Allocates-skip fuel t (m', eq, c', same) =
      let r = alloc bs (next e b) size in
      let r' : alloc (b ∷ bs) e size ≡ (r.0, b ∷ r.1) = rw t in
      let go = allocate_skip fuel e size (next e b) m c.0 (omega arith) (rw (c.1, size_here) t) in
      subst (λ q. Allocates m last e (b ∷ bs) q (allocate (suc fuel) e size m)) (sym r')
        (
          m',
          go ∙ eq,
          (
            get_next-eq m m' e (λ x l h. same x (inl (omega arith))) ∙ c.0,
            get_reserved-eq m m' e (same (e + 4) (inl (omega arith))) ∙ c.1,
            c',
          ),
          λ x o. same x (skip_zone x o),
        )

  Allocates-here :
      (fuel : ℕ)
      → (b.reserved || ltb b.size size) ≡ false
      → (b.reserved ≡ true) ⊎ ((b.size ≤ size) ⊎ (size + 8 ≤ b.size))
      → Allocates m last e (b ∷ bs) (alloc (b ∷ bs) e size) (allocate (suc fuel) e size m)
  Allocates-here fuel t w =
      let r' : alloc (b ∷ bs) e size ≡ (e + 8, take_block b.size size bs) = rw t in
      let (c', same) = reserve-Chain m last e size b bs c (ground arith) in
      subst (λ q. Allocates m last e (b ∷ bs) q (allocate (suc fuel) e size m)) (sym r')
        (
          reserve e size b.size m,
          allocate_here fuel e size (next e b) b.size m c.0 (omega arith) size_here (rw c.1 t)
              ∙ ap (λ (k : ℕ). ok (k, reserve e size b.size m))
                  (omega
                    (arith, Chain-le m last (next e b) bs c.2, Chain-lt m last (next e b) bs c.2)),
          c',
          λ x o. same x (here_zone (ground arith) x o),
        )

-- On a chain of blocks that all split well, allocate returns what first fit returns, 0 if no block
-- serves, and leaves the chain of the blocks that first fit leaves. No byte below the chain or
-- inside a reserved block changes, and one round more than there are blocks is enough.
pub allocate-Allocates :
    (bs : List Block) (fuel e size last : ℕ) (m : Mem)
    → Chain m last e bs
    → SplitsWell bs size
    → length bs < fuel
    → Allocates m last e bs (alloc bs e size) (allocate fuel e size m)
allocate-Allocates bs zero e size last m c w h = absurd (omega arith)
allocate-Allocates [] (suc fuel) e size last m c w h =
    (m, allocate_end fuel e size m c.2, c, λ x o. refl)
allocate-Allocates (b ∷ bs) (suc fuel) e size last m c w h =
    elim (Bool-cases (b.reserved || ltb b.size size)) [
      | inl skip ↦
          Allocates-skip m last e size b bs c fuel skip
            (allocate-Allocates bs fuel (next e b) size last m c.2 w.1 (omega arith))
      | inr here ↦ Allocates-here m last e size b bs c fuel here w.0
    ]
