-- ===== src/Xtoa/Digits.antt =====
-- The first loop of `xtoa`: the digits of the number, the lowest first.
use native.Mathlib.Nat.{pow-suc}
use native.Mathlib.Decide.{ℕ_discrete}
use rainbow_os.Prelude.{
  ap, ℕ, zero, suc, ◌+◌, ◌-◌, ◌*◌, ◌/◌, ◌%◌, ◌^◌, ◌≤◌, ◌<◌, ◌≡◌, refl, sym, subst, ◌∙◌, ◌≢◌, ◌⊎◌,
  false, arith, ltb, if◌then◌else◌, ok,
}
use rainbow_os.Memory.{Mem, IsBytes, SameOutside, write8}
use rainbow_os.Memory.Words.{write8-IsBytes}
use rainbow_os.Xtoa.{digit_char, xtoa_digits}

-- The value of a digit character, `0` to `9` and `A` to `F`.
abbrev pub digit_value : ℕ → ℕ
digit_value c = if ltb c b'A' then c - b'0' else c - (b'A' - 10)

-- A digit character of the base: one of `0` to `9` and `A` to `F`, and nothing between.
abbrev pub IsDigit : ℕ → ℕ → Type 0
IsDigit base c = (((b'0' ≤ c) × (c ≤ b'9')) ⊎ ((b'A' ≤ c) × (c ≤ b'F'))) × (digit_value c < base)

-- The number that the `n` characters from `str + i` on are in the base, the lowest digit first.
abbrev pub low_first : Mem → ℕ → ℕ → ℕ → ℕ → ℕ
low_first m str base i zero = 0
low_first m str base i (suc n) = digit_value (m (str + i)) + base * low_first m str base (i + 1) n

pub digit_char-IsDigit : (base r : ℕ) → base ≤ 16 → r < base → IsDigit base (digit_char false r)
unfolding digit_char
digit_char-IsDigit base r le h = ground arith

digit_value-digit_char : (r : ℕ) → r < 16 → digit_value (digit_char false r) ≡ r
unfolding digit_char
digit_value-digit_char r h = ground arith

-- What the digit loop leaves behind when it starts at `i` with `num` and writes `n` digits.
pub record Digits (m m' : Mem) (num base str i n : ℕ) : Type 0 where
  pub digits : (k : ℕ) → k < n → IsDigit base (m' (str + (i + k)))
  pub value : low_first m' str base i n ≡ num
  pub top : 0 < n → m' (str + (i + (n - 1))) ≢ b'0'
  pub same : SameOutside (str + i) n m m'
  pub bytes : IsBytes m'

halves : (num base f : ℕ) → 2 ≤ base → num < 2 ^ suc f → num / base < 2 ^ f
halves num base f h lt = grind (arith, pow-suc 2 f)

done :
    (f num base str i : ℕ) (m : Mem)
    → num ≡ 0
    → xtoa_digits (suc f) false num base str i m ≡ ok (i, m)
unfolding xtoa_digits
done f num base str i m e = rw e

next :
    (f num base str i : ℕ) (m : Mem)
    → num ≢ 0
    → xtoa_digits (suc f) false num base str i m
      ≡ xtoa_digits f false
          (num / base)
          base
          str
          (i + 1)
          (write8 m (str + i) (digit_char false (num % base)))
unfolding xtoa_digits
next f num base str i m ne = ground arith

module _ (m m' : Mem) (num base str i n : ℕ) (lo : 2 ≤ base) (hi : base ≤ 16) (pos : num ≢ 0)
    (d : Digits
      (write8 m (str + i) (digit_char false (num % base)))
      m'
      (num / base)
      base
      str
      (i + 1)
      n) where
  first_char : m' (str + i) ≡ digit_char false (num % base)
  unfolding write8
  first_char =
      ground (arith, d.same (str + i), digit_char-IsDigit base (num % base) hi (omega arith))

  digits_step : (k : ℕ) → k < suc n → IsDigit base (m' (str + (i + k)))
  digits_step zero h =
      let e : i + 0 ≡ i = omega arith in
      rw (e, first_char) (digit_char-IsDigit base (num % base) hi (omega arith))
  digits_step (suc k) h =
      let e : i + suc k ≡ i + 1 + k = omega arith in rw e (d.digits k (omega arith))

  value_step : low_first m' str base i (suc n) ≡ num
  value_step =
      rw (first_char, digit_value-digit_char (num % base) (omega arith), d.value) (grind arith)

  -- The digit written last is that of a number below the base.
  top_step : 0 < suc n → m' (str + (i + (suc n - 1))) ≢ b'0'
  unfolding digit_char
  top_step h = elim (ℕ_discrete n 0) [
    | yes last ↦
        let at : str + (i + (suc n - 1)) ≡ str + i = omega arith in
        let none_left : num / base ≡ 0 =
          sym d.value ∙ ap (λ (q : ℕ). low_first m' str base (i + 1) q) last in
        let whole : num % base ≡ num = grind (arith, none_left) in
        ground (arith, ap m' at, first_char, whole, pos)
    | no more ↦
        let at : str + (i + (suc n - 1)) ≡ str + (i + 1 + (n - 1)) = omega arith in
        subst (λ (q : ℕ). m' q ≢ b'0') (sym at) (d.top (omega arith))
  ]

  same_step : SameOutside (str + i) (suc n) m m'
  unfolding write8
  same_step x h = ground (arith, d.same x (omega arith))

  Digits-suc : Digits m m' num base str i (suc n)
  Digits-suc = record {
    digits = digits_step;
    value = value_step;
    top = top_step;
    same = same_step;
    bytes = d.bytes;
  }

-- With `num < 2 ^ f` the loop ends within `f` digits, and writes none for 0.
pub xtoa_digits-Digits :
    (f num base str i : ℕ) (m : Mem)
    → 2 ≤ base
    → base ≤ 16
    → num < 2 ^ f
    → IsBytes m
    → (n : ℕ) × (m' : Mem) × (xtoa_digits (suc f) false num base str i m ≡ ok (i + n, m'))
      × Digits m m' num base str i n
      × (n ≤ f)
      × (num ≢ 0 → 0 < n)
xtoa_digits-Digits f zero base str i m lo hi h b = (
  0,
  m,
  rw (done f 0 base str i m refl) (let e : i ≡ i + 0 = omega arith in ap (λ (k : ℕ). ok (k, m)) e),
  record {
    digits = λ k lt. absurd (omega arith);
    value = refl;
    top = λ h. absurd (omega arith);
    same = λ x o. refl;
    bytes = b;
  },
  omega arith,
  λ ne. absurd (ne refl),
)
xtoa_digits-Digits zero (suc num) base str i m lo hi h b = absurd (omega arith)
xtoa_digits-Digits (suc f) (suc num) base str i m lo hi h b =
    let c = digit_char false (suc num % base) in
    let (n, m', e, d, le, _) =
      xtoa_digits-Digits f (suc num / base) base str (i + 1) (write8 m (str + i) c) lo hi
        (halves (suc num) base f lo h) (write8-IsBytes m (str + i) c b) in
    (
      suc n,
      m',
      rw (next (suc f) (suc num) base str i m (omega arith), e)
          (let q : i + 1 + n ≡ i + suc n = omega arith in ap (λ (k : ℕ). ok (k, m')) q),
      Digits-suc m m' (suc num) base str i n lo hi (omega arith) d,
      omega arith,
      λ ne. omega arith,
    )
