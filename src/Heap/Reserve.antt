-- ===== src/Heap/Reserve.antt =====
-- heapEntry::allocate on the entry that it chooses: the split, and the chain that it leaves.
use rainbow_os.Prelude.{
  inl, inr, subst, refl, sym, ◌-◌, ℕ, ◌+◌, ◌^◌, ◌≤◌, ◌<◌, ◌≡◌, ◌∙◌, ◌⊎◌, true, false, List, ◌∷◌,
  arith, add32,
}
use rainbow_os.Memory.{Mem}
use rainbow_os.Heap.{
  get_next, get_reserved, set_next, set_reserved, init, get_data_ptr, splits, reserve,
}
use rainbow_os.Heap.Blocks.{next, Chain-le, Chain-lt, take_block, block, Block, Chain}
use rainbow_os.Heap.Header.{
  get_next-set_next, get_reserved-set_reserved, set_next-SameOutside, set_reserved-SameOutside,
  get_next-eq, get_reserved-eq, init-fields, Chain-frame,
}

splits_equal : (size : ℕ) → size < 2 ^ 32 → splits size size ≡ false
unfolding splits
splits_equal size h = ground arith

pub splits_smaller :
    (size available : ℕ) → size < available → available < 2 ^ 32 - 12 → splits size available ≡ true
unfolding splits
splits_smaller size available h lt = ground arith

-- The memory that reserve leaves, in the two cases.
reserve_whole :
    (m : Mem) (e size : ℕ) → size < 2 ^ 32 → reserve e size size m ≡ set_reserved m e true
unfolding reserve
reserve_whole m e size h = rw (splits_equal size h)

abbrev pub split_memory : Mem → ℕ → ℕ → ℕ → Mem
split_memory m e a n = set_reserved (init (set_next m e a) a n) e true

pub reserve_split :
    (m : Mem) (e size available a n : ℕ)
    → size < available
    → available < 2 ^ 32 - 12
    → e + 8 + size ≡ a
    → a < 2 ^ 32
    → get_next m e ≡ n
    → reserve e size available m ≡ split_memory m e a n
unfolding reserve
reserve_split m e size available a n h lt ea la en =
    let e' : add32 (get_data_ptr e) size ≡ a = omega arith in
    rw (splits_smaller size available h lt, en, e')

module _ (m : Mem) (e a n : ℕ) (ha : e + 8 ≤ a) (la : a < n) (ln : n < 2 ^ 32) where
  split-SameOutside : a + 8 ≤ n → (x : ℕ) → (x < e) ⊎ (n ≤ x) → split_memory m e a n x ≡ m x
  split-SameOutside hn x o =
      set_reserved-SameOutside _ e true x (omega arith)
      ∙ (init-fields (set_next m e a) a n ln).2 x (omega arith)
      ∙ set_next-SameOutside m e a x (omega arith)

  pub split_first :
      (get_next (split_memory m e a n) e ≡ a) × (get_reserved (split_memory m e a n) e ≡ true)
  split_first = (
    get_next-eq _ _ e (λ x l h.
          set_reserved-SameOutside _ e true x (omega arith)
          ∙ (init-fields (set_next m e a) a n ln).2 x (omega arith))
        ∙ get_next-set_next m e a (omega arith),
    get_reserved-set_reserved _ e true,
  )

  pub split_second :
      (get_next (split_memory m e a n) a ≡ n) × (get_reserved (split_memory m e a n) a ≡ false)
  split_second = (
    get_next-eq _ _ a (λ x l h. set_reserved-SameOutside _ e true x (omega arith))
        ∙ (init-fields (set_next m e a) a n ln).0,
    get_reserved-eq _ _ a (set_reserved-SameOutside _ e true (a + 4) (omega arith))
        ∙ (init-fields (set_next m e a) a n ln).1
        ∙ ground arith,
  )

-- What a run of reserve must leave: the chain with the blocks of `bs'` and the bytes around the
-- chosen block, which ends at `n`, as they were.
abbrev pub Reserved : Mem → ℕ → ℕ → ℕ → List Block → Mem → Type 0
Reserved m last e n bs' m' = Chain m' last e bs' × ((x : ℕ) → (x < e) ⊎ (n ≤ x) → m' x ≡ m x)

module _ (m : Mem) (last e : ℕ) (bs : List Block) where
  reserve_whole-Chain :
      (s : ℕ)
      → get_next m e ≡ e + 8 + s
      → Chain m last (e + 8 + s) bs
      → Reserved m last e (e + 8 + s) (block s true ∷ bs) (reserve e s s m)
  reserve_whole-Chain s h c =
      let top = Chain-le m last (e + 8 + s) bs c in
      let lim = Chain-lt m last (e + 8 + s) bs c in
      let same = set_reserved-SameOutside m e true in
      subst (Reserved m last e (e + 8 + s) (block s true ∷ bs))
        (sym (reserve_whole m e s (omega arith)))
        (
          (
            get_next-eq _ _ e (λ x l r. same x (omega arith)) ∙ h,
            get_reserved-set_reserved m e true,
            Chain-frame m (set_reserved m e true) last (e + 8 + s) bs (λ x l. same x (omega arith))
                c,
          ),
          λ x o. same x (omega arith),
        )

  reserve_split-Chain :
      (s size : ℕ)
      → get_next m e ≡ e + 8 + s
      → Chain m last (e + 8 + s) bs
      → size + 8 ≤ s
      → Reserved m last e
          (e + 8 + s)
          (block size true ∷ block (s - size - 8) false ∷ bs)
          (reserve e size s m)
  reserve_split-Chain s size h c room =
      let top = Chain-le m last (e + 8 + s) bs c in
      let lim = Chain-lt m last (e + 8 + s) bs c in
      let a = e + 8 + size in
      let n = e + 8 + s in
      let first = split_first m e a n (omega arith) (omega arith) (omega arith) in
      let second = split_second m e a n (omega arith) (omega arith) (omega arith) in
      let same =
        split-SameOutside m e a n (omega arith) (omega arith) (omega arith) (omega arith) in
      let e' : a + 8 + (s - size - 8) ≡ n = omega arith in
      subst (Reserved m last e n (block size true ∷ block (s - size - 8) false ∷ bs))
        (sym (reserve_split m e size s a n (omega arith) (omega arith) refl (omega arith) h))
        (
          (
            first.0,
            first.1,
            (
              second.0 ∙ sym e',
              second.1,
              subst (λ k. Chain (split_memory m e a n) last k bs) (sym e')
                  (Chain-frame m (split_memory m e a n) last n bs (λ x l. same x (omega arith)) c),
            ),
          ),
          same,
        )

-- Reserving a block that fits, or that leaves room for a header.
pub reserve-Chain :
    (m : Mem) (last e size : ℕ) (b : Block) (bs : List Block)
    → Chain m last e (b ∷ bs)
    → (b.size ≡ size) ⊎ (size + 8 ≤ b.size)
    → Reserved m last e (next e b) (take_block b.size size bs) (reserve e size b.size m)
reserve-Chain m last e size b bs c (inl fits) =
    let t : take_block b.size b.size bs ≡ block b.size true ∷ bs = ground arith in
    subst (λ k. Reserved m last e (next e b) (take_block b.size k bs) (reserve e k b.size m)) fits
      (subst (λ l. Reserved m last e (next e b) l (reserve e b.size b.size m)) (sym t)
        (reserve_whole-Chain m last e bs b.size c.0 c.2))
reserve-Chain m last e size b bs c (inr room) =
    let t : take_block b.size size bs ≡ block size true ∷ block (b.size - size - 8) false ∷ bs =
      ground arith in
    subst (λ l. Reserved m last e (next e b) l (reserve e size b.size m)) (sym t)
      (reserve_split-Chain m last e bs b.size size c.0 c.2 room)
