-- ===== src/Str/Compare.antt =====
-- string.c: what the results of memcmp and strcmp say of the memory.
use rainbow_os.Prelude.{
  ap, ◌∙◌, sub32, Outcome, ℕ, zero, suc, ◌+◌, ◌-◌, ◌≤◌, ◌<◌, ◌≡◌, refl, sym, ap, ◌∙◌, ◌≢◌, ◌↔◌, ◌⊎◌,
  inl, inr, arith, ltb, ltb→lt, Bool-cases, sub32, Outcome, ok,
}
use rainbow_os.Memory.{Mem, IsBytes}
use native.Mathlib.Decide.{ℕ_discrete}
use rainbow_os.Str.{minus_one, compare_bytes, memcmp, sign_extend, strcmp_loop, strcmp}
use rainbow_os.Str.Terminated.{IsString}

-- The `n` bytes from `a` on are those from `b` on.
abbrev pub SameBytes : Mem → ℕ → ℕ → ℕ → Type 0
SameBytes m a b n = (i : ℕ) → i < n → m (a + i) ≡ m (b + i)

-- At offset `i` the two ranges differ for the first time, and the left byte is the smaller.
pub record FirstBelow (m : Mem) (a b n : ℕ) : Type 0 where
  pub at : ℕ
  pub in_range : at < n
  pub before : SameBytes m a b at
  pub below : m (a + at) < m (b + at)

-- What the result of a comparison says.
abbrev pub Compares : Mem → ℕ → ℕ → ℕ → ℕ → Type 0
Compares m a b n r =
    ((r ≡ 0) × SameBytes m a b n)
    ⊎ (((r ≡ minus_one) × FirstBelow m a b n) ⊎ ((r ≡ 1) × FirstBelow m b a n))

SameBytes-add-one :
    (m : Mem) (a b i : ℕ) → SameBytes m a b i → m (a + i) ≡ m (b + i) → SameBytes m a b (i + 1)
SameBytes-add-one m a b i same e j h = elim (ℕ_discrete j i) [
  | yes p ↦ rw p e
  | no ne ↦ same j (omega arith)
]

compare_bytes_lem :
    (n i k : ℕ) (m : Mem) (a b : ℕ)
    → i + n ≡ k
    → SameBytes m a b i
    → Compares m a b k (compare_bytes n i m a b)
unfolding compare_bytes
compare_bytes_lem zero i k m a b e same = inl (refl, λ j h. same j (omega arith))
compare_bytes_lem (suc n) i k m a b e same = elim (Bool-cases (ltb (m (a + i)) (m (b + i)))) [
  | inl below ↦ rw below (
      inr (
        inl (
          refl,
          record { at = i; in_range = omega arith; before = same; below = ltb→lt _ _ below },
        )))
  | inr nb ↦ rw nb (elim (Bool-cases (ltb (m (b + i)) (m (a + i)))) [
    | inl above ↦ rw above (
        inr (
          inr (
            refl,
            record {
              at = i;
              in_range = omega arith;
              before = λ j h. sym (same j h);
              below = ltb→lt _ _ above;
            },
          )))
    | inr na ↦ rw na (
        compare_bytes_lem n (i + 1) k m a b (omega arith)
          (SameBytes-add-one m a b i same (ground arith)))
  ])
]

-- `memcmp` returns 0 when the ranges agree, -1 when the first byte in which they differ is smaller
-- on the left, and 1 when it is smaller on the right.
pub memcmp-Compares : (m : Mem) (a b n : ℕ) → Compares m a b n (memcmp m a b n)
unfolding memcmp
memcmp-Compares m a b n = compare_bytes_lem n 0 n m a b (omega arith) (λ j h. absurd (omega arith))

-- The two strings are the same, their closing NULs included.
abbrev pub SameString : Mem → ℕ → ℕ → ℕ → ℕ → Type 0
SameString m a n b k = (n ≡ k) × SameBytes m a b n

abbrev difference : Mem → ℕ → ℕ → ℕ → ℕ
difference m a b i = sub32 (sign_extend (m (a + i))) (sign_extend (m (b + i)))

difference-eq-zero_iff :
    (m : Mem) (a b i : ℕ) → IsBytes m → (difference m a b i ≡ 0) ↔ (m (a + i) ≡ m (b + i))
difference-eq-zero_iff m a b i bytes = ground (arith, bytes (a + i), bytes (b + i))

strcmp_loop_stop :
    (fuel i : ℕ) (m : Mem) (a b : ℕ)
    → (m (a + i) ≢ m (b + i)) ⊎ (m (a + i) ≡ 0)
    → strcmp_loop (suc fuel) i m a b ≡ ok (difference m a b i)
unfolding strcmp_loop
strcmp_loop_stop fuel i m a b h = ground arith

strcmp_loop_next :
    (fuel i : ℕ) (m : Mem) (a b : ℕ)
    → m (a + i) ≡ m (b + i)
    → m (a + i) ≢ 0
    → strcmp_loop (suc fuel) i m a b ≡ strcmp_loop fuel (i + 1) m a b
unfolding strcmp_loop
strcmp_loop_next fuel i m a b e h = ground arith

-- What is claimed of a run of the loop.
abbrev pub Decides : Mem → ℕ → ℕ → ℕ → ℕ → Outcome ℕ → Type 0
Decides m a n b k o = (r : ℕ) × (o ≡ ok r) × ((r ≡ 0) ↔ SameString m a n b k)

module _ (m : Mem) (a n b k : ℕ) (bytes : IsBytes m) (s : IsString m a n) (t : IsString m b k) where
  at_difference :
      (fuel i : ℕ)
      → i ≤ n
      → m (a + i) ≢ m (b + i)
      → Decides m a n b k (strcmp_loop (suc fuel) i m a b)
  at_difference fuel i le ne = (
    difference m a b i,
    strcmp_loop_stop fuel i m a b (inl ne),
    (
      λ z. absurd (ne ((difference-eq-zero_iff m a b i bytes).0 z)),
      λ all. absurd (elim (ℕ_discrete i n) [
        | yes e ↦ ne (rw e (s.closed ∙ sym (ap (λ j. m (b + j)) all.0 ∙ t.closed)))
        | no q ↦ ne (all.1 i (omega arith))
      ]),
    ),
  )

  at_closing :
      (fuel i : ℕ)
      → i ≡ n
      → i ≤ k
      → SameBytes m a b i
      → m (a + i) ≡ m (b + i)
      → Decides m a n b k (strcmp_loop (suc fuel) i m a b)
  at_closing fuel i e le same eq =
      let zero_here : m (a + i) ≡ 0 = rw e s.closed in
      let ik : i ≡ k = ground (arith, t.chars i) in
      (
        difference m a b i,
        strcmp_loop_stop fuel i m a b (inr zero_here),
        (
          λ z. (sym e ∙ ik, λ j h. same j (omega arith)),
          λ all. (difference-eq-zero_iff m a b i bytes).1 eq,
        ),
      )

  strcmp_loop_lem :
      (fuel i d : ℕ)
      → SameBytes m a b i
      → i + d ≡ n
      → d < fuel
      → i ≤ k
      → Decides m a n b k (strcmp_loop fuel i m a b)
  strcmp_loop_lem zero i d same e h le = absurd (omega arith)
  strcmp_loop_lem (suc fuel) i d same e h le = elim (ℕ_discrete (m (a + i)) (m (b + i))) [
    | no ne ↦ at_difference fuel i (omega arith) ne
    | yes eq ↦ elim (ℕ_discrete i n) [
      | yes at_end ↦ at_closing fuel i at_end le same eq
      | no q ↦
          let nz : m (a + i) ≢ 0 = s.chars i (omega arith) in
          let below : i + 1 ≤ k = ground (arith, t.closed) in
          rw (strcmp_loop_next fuel i m a b eq nz) (
            strcmp_loop_lem fuel (i + 1) (d - 1) (SameBytes-add-one m a b i same eq) (omega arith)
              (omega arith) below)
    ]
  ]

  -- `strcmp` of two strings returns 0 exactly when they have the same characters, and one round
  -- more than the first string has characters is enough.
  pub strcmp_lem : (fuel : ℕ) → n < fuel → Decides m a n b k (strcmp fuel m a b)
  unfolding strcmp
  strcmp_lem fuel h =
      strcmp_loop_lem fuel 0 n (λ j lt. absurd (omega arith)) (omega arith) h (omega arith)
