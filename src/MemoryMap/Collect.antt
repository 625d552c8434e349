-- ===== src/MemoryMap/Collect.antt =====
-- The loop of queryUpperMemory on a BIOS that lists its regions in order.
use rainbow_os.Prelude.{
  Bool-cases, sym, ◌≢◌, inl, inr, refl, zero, true, false, subst, ◌∙◌, eq→==, ok, ℕ, suc, ◌+◌, ◌-◌,
  ◌*◌, ◌/◌, ◌%◌, ◌^◌, ◌≤◌, ◌<◌, ◌≡◌, ap, ◌&&◌, arith, ltb, leb, ◌==◌, if◌then◌else◌, add32, mul32,
}
use rainbow_os.Memory.{Mem, inside}
use native.Mathlib.Decide.{dec_lt}
use rainbow_os.MemoryMap.{Int15, eax_signature, query_loop}

-- The 20 bytes of each region's record.
abbrev pub Regions : Type 0
Regions = ℕ → ℕ → ℕ

-- `m` with a record at `a`
abbrev pub recorded : Regions → ℕ → ℕ → Mem → Mem
recorded regions k a m x = if inside a 20 x then regions k (x - a) else m x

-- What the BIOS does. A continuation value is opaque to the caller, which begins with 0 and passes the
-- value of the last answer: `token k` is the one that asks for record `k`. The BIOS writes that record
-- at the segment and offset, and gives the next value, or 0 behind the last region, the signature,
-- the length 20 and no carry.
pub record ListsRegions (regions : Regions) (token : ℕ → ℕ) (count : ℕ) (int15 : Int15)
    : Type 0 where
  pub begins : token 0 ≡ 0
  pub continues : (k : ℕ) → 0 < k → k < count → token k ≢ 0
  pub answers :
      (offset segment k : ℕ) (m : Mem)
      → k < count
      → int15 offset segment (token k) m ≡ (
        record {
          ebx = if k + 1 == count then 0 else token (k + 1);
          eax = eax_signature;
          ecx = 20;
          carry = 0;
        },
        recorded regions k (segment * 16 + offset) m,
      )

-- `m` with the first `k` records, 28 bytes apart
abbrev pub collected : Regions → ℕ → ℕ → Mem → Mem
collected regions k mmap m x =
    if inside mmap (28 * k) x && ltb ((x - mmap) % 28) 20
    then regions ((x - mmap) / 28) ((x - mmap) % 28)
    else m x

module _ (regions : Regions) (token : ℕ → ℕ) (count : ℕ) (int15 : Int15)
    (lists : ListsRegions regions token count int15) (mmap : ℕ) (m0 : Mem) (most : count < 100)
    (fits : mmap + 2800 < 2 ^ 32) where
  abbrev Collected : ℕ → Mem → Type 0
  Collected k m = (x : ℕ) → m x ≡ collected regions k mmap m0 x

  add_record :
      (k : ℕ) (m : Mem) → Collected k m → Collected (k + 1) (recorded regions k (mmap + 28 * k) m)
  add_record k m w x = elim (dec_lt x (mmap + 28 * k)) [
    | yes lt ↦ ground (arith, w x)
    | no ge ↦ elim (dec_lt x (mmap + 28 * k + 28)) [
      | yes in_record ↦
          let row : (x - mmap) / 28 ≡ k = omega arith in
          let column : (x - mmap) % 28 ≡ x - (mmap + 28 * k) = omega arith in
          ground (
            arith,
            w x,
            ap (λ (q : ℕ). regions q ((x - mmap) % 28)) row,
            ap (λ (q : ℕ). regions k q) column,
          )
      | no past ↦ ground (arith, w x)
    ]
  ]

  -- One round.
  query_round :
      (fuel k : ℕ) (m : Mem)
      → k < count
      → let m' = recorded regions k (mmap + 28 * k) m in
        query_loop (suc fuel) int15 mmap k (token k) m ≡ (
          if k + 1 == count
          then ok (k + 1, m')
          else query_loop fuel int15 mmap (k + 1) (token (k + 1)) m')
  unfolding query_loop
  query_round fuel k m lt =
      let a = mmap + 28 * k in
      let curr : add32 mmap (mul32 28 k) ≡ mmap + 28 * k = omega arith in
      let next : add32 k 1 ≡ k + 1 = omega arith in
      let full : leb 100 (k + 1) ≡ false = ground arith in
      let at : (a - a % 16) / 16 * 16 + a % 16 ≡ a = omega arith in
      let call = lists.answers (a % 16) ((a - a % 16) / 16) k m lt in
      let more : k + 1 ≢ count → (token (k + 1) == 0) ≡ false =
        λ ne. ground (arith, lists.continues (k + 1) (omega arith) (omega arith)) in
      rw (curr, call, next, full, at)
        (elim (Bool-cases (k + 1 == count)) [
          | inl e ↦ rw e refl
          | inr e ↦ rw (e, more (ground arith)) refl
        ])

  -- From round `k` on the loop stores the other records.
  query_loop_from :
      (fuel k : ℕ) (m : Mem)
      → k < count
      → count ≤ k + fuel
      → Collected k m
      → (m' : Mem) × (query_loop fuel int15 mmap k (token k) m ≡ ok (count, m'))
        × Collected count m'
  query_loop_from zero k m lt enough w = absurd (omega arith)
  query_loop_from (suc fuel) k m lt enough w =
      let m1 = recorded regions k (mmap + 28 * k) m in
      let w1 = add_record k m w in
      let round = query_round fuel k m lt in
      elim (dec_lt (k + 1) count) [
        | yes more ↦
            let (m', e, w') = query_loop_from fuel (k + 1) m1 more (omega arith) w1 in
            let goes : (k + 1 == count) ≡ false = ground arith in (m', round ∙ rw goes e, w')
        | no last ↦
            let is_last : k + 1 ≡ count = omega arith in
            let stops : (k + 1 == count) ≡ true = eq→== _ _ is_last in
            (
              m1,
              round ∙ rw stops (ap (λ (q : ℕ). ok (q, m1)) is_last),
              subst (λ (q : ℕ). Collected q m1) is_last w1,
            )
      ]

  -- On a BIOS that lists between 1 and 99 regions, in records of 20 bytes, the loop of
  -- queryUpperMemory ends: it counts all of them and stores their records in order, 28 bytes apart from
  -- `mmap` on, and no other byte changes. The map must fit the address space. As many rounds as there
  -- are regions are enough.
  pub query_loop-collected :
      (fuel : ℕ)
      → 0 < count
      → count ≤ fuel
      → (m' : Mem) × (query_loop fuel int15 mmap 0 0 m0 ≡ ok (count, m'))
        × ((x : ℕ) → m' x ≡ collected regions count mmap m0 x)
  query_loop-collected fuel any enough =
      let (m', e, w) = query_loop_from fuel 0 m0 any (omega arith) (λ x. ground arith) in
      (m', ap (λ (b : ℕ). query_loop fuel int15 mmap 0 b m0) (sym lists.begins) ∙ e, w)
