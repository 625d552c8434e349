-- ===== src/Xtoa/Print.antt =====
-- What `xtoa` prints: the numeral of an unsigned value, and its fault on negative values.
use rainbow_os.Prelude.{
  ap, ◌>>=◌, ◌%◌, ◌∙◌, ℕ, zero, suc, ◌+◌, ◌-◌, ◌/◌, ◌%◌, ◌^◌, ◌≤◌, ◌<◌, ◌≡◌, ap, ◌∙◌, ◌≢◌, ◌⊎◌,
  Bool, true, false, none, some, arith, ok, ◌>>=◌,
}
use rainbow_os.Memory.{Mem, IsBytes, SameOutside, write8}
use rainbow_os.Memory.Words.{write8-IsBytes}
use rainbow_os.Str.Terminated.{IsString}
use rainbow_os.Xtoa.{digit_char, xtoa_digits, xtoa_finish, xtoa}
use rainbow_os.Xtoa.Digits.{IsDigit, Digits, xtoa_digits-Digits}
use rainbow_os.Xtoa.Reverse.{xtoa_swap-reverse, xtoa_swap-SameOutside, numeral, numeral-low_first}

-- At `str` stands the numeral of `value` in the base: `len` digits, of which the first is no 0 unless it
-- is the only one, and a NUL.
pub record Prints (m m' : Mem) (str base len value : ℕ) : Type 0 where
  pub string : IsString m' str len
  pub digits : (j : ℕ) → j < len → IsDigit base (m' (str + j))
  pub no_leading_zero : 1 < len → m' str ≢ b'0'
  pub value_of : numeral m' str base len ≡ value
  pub same : SameOutside str (len + 1) m m'

module _ (m m' : Mem) (num base str n : ℕ) (d : Digits m m' num base str 0 n) (pos : 0 < n) where
  abbrev out : Mem
  out = xtoa_finish false base str n m'

  abbrev closed : Mem
  closed = write8 m' (str + n) 0

  out-reverse : (j : ℕ) → j < n → out (str + j) ≡ m' (str + (n - 1 - j))
  unfolding xtoa_finish write8
  out-reverse j h = ground (
    arith,
    xtoa_swap-reverse (n - 1) str closed (write8-IsBytes m' (str + n) 0 d.bytes) j (omega arith),
  )

  out-outside : (x : ℕ) → (x < str) ⊎ (str + n ≤ x) → out x ≡ closed x
  unfolding xtoa_finish
  out-outside x o = ground (
    arith,
    xtoa_swap-SameOutside ((n - 1) / 2 + 1) 0 (n - 1) str closed (omega arith) x (omega arith),
  )

  out-digits : (j : ℕ) → j < n → IsDigit base (out (str + j))
  out-digits j h =
      let e : str + (n - 1 - j) ≡ str + (0 + (n - 1 - j)) = omega arith in
      rw (out-reverse j h, e) (d.digits (n - 1 - j) (omega arith))

  finish-Prints : Prints m out str base n num
  unfolding write8
  finish-Prints = record {
    string = record {
      chars = λ i h. omega (arith, out-digits i h);
      closed = rw (out-outside (str + n) (omega arith)) (ground arith);
    };
    digits = out-digits;
    no_leading_zero = λ h.
        let at : str + (n - 1 - 0) ≡ str + (0 + (n - 1)) = omega arith in
        let front : str + 0 ≡ str = omega arith in
        ground (arith, out-reverse 0 pos, ap m' at, ap out front, d.top pos);
    value_of = numeral-low_first m' out str base n n 0 (omega arith) out-reverse ∙ d.value;
    same = λ x o. ground (arith, out-outside x (omega arith), d.same x (omega arith));
  }

xtoa_zero :
    (fuel str base : ℕ) (negative : Bool) (m : Mem)
    → 2 ≤ base
    → base ≤ 16
    → xtoa fuel negative 0 str base m ≡ ok (some str, write8 (write8 m str b'0') (str + 1) 0)
unfolding xtoa
xtoa_zero fuel str base negative m lo hi = ground arith

xtoa_pos :
    (fuel value str base : ℕ) (negative : Bool) (m : Mem)
    → 2 ≤ base
    → base ≤ 16
    → value ≢ 0
    → xtoa fuel negative value str base m ≡ (
        xtoa_digits fuel negative value base str 0 m >>= λ (index, m').
        ok (some str, xtoa_finish negative base str index m'))
unfolding xtoa
xtoa_pos fuel value str base negative m lo hi ne = ground arith

zero-Prints :
    (m : Mem) (str base : ℕ)
    → 2 ≤ base
    → Prints m (write8 (write8 m str b'0') (str + 1) 0) str base 1 0
unfolding write8
zero-Prints m str base lo = record {
  string = record { chars = λ i h. ground arith; closed = ground arith };
  digits = λ j h. ground arith;
  no_leading_zero = λ h. absurd (omega arith);
  value_of = ground arith;
  same = λ x o. ground arith;
}

-- `xtoa` of an unsigned value below `2 ^ f`, in a base from 2 to 16, returns `str` and leaves there
-- a NUL-terminated numeral of at most `f` digits of the base, without a leading zero, whose value,
-- read from the front, is the value; nothing past its NUL is written, and `f + 1` rounds are enough.
pub xtoa-Prints :
    (f value str base : ℕ) (m : Mem)
    → 2 ≤ base
    → base ≤ 16
    → 1 ≤ f
    → value < 2 ^ f
    → IsBytes m
    → (len : ℕ) × (m' : Mem) × (xtoa (suc f) false value str base m ≡ ok (some str, m'))
      × (len ≤ f)
      × Prints m m' str base len value
xtoa-Prints f zero str base m lo hi one fits b = (
  1,
  write8 (write8 m str b'0') (str + 1) 0,
  xtoa_zero (suc f) str base false m lo hi,
  one,
  zero-Prints m str base lo,
)
xtoa-Prints f (suc v) str base m lo hi one fits b =
    let (n, m', e, d, le, pos) = xtoa_digits-Digits f (suc v) base str 0 m lo hi fits b in
    (
      n,
      xtoa_finish false base str n m',
      rw (xtoa_pos (suc f) (suc v) str base false m lo hi (omega arith), e)
          (ap (λ (k : ℕ). ok (some str, xtoa_finish false base str k m')) (omega arith)),
      le,
      finish-Prints m m' (suc v) base str n d (pos (omega arith)),
    )

-- `xtoa` refuses a base below 2 or above 16: it returns NULL and writes nothing.
pub xtoa_bad_base :
    (fuel : ℕ) (negative : Bool) (magnitude str base : ℕ) (m : Mem)
    → (base < 2) ⊎ (16 < base)
    → xtoa fuel negative magnitude str base m ≡ ok (none, m)
unfolding xtoa
xtoa_bad_base fuel negative magnitude str base m h = ground arith

negative_digit :
    (fuel d str : ℕ) (m : Mem)
    → 0 < d
    → d < 10
    → xtoa_digits (suc (suc fuel)) true d 10 str 0 m
      ≡ ok (1, write8 m (str + 0) (digit_char true (d % 10)))
unfolding xtoa_digits
negative_digit fuel d str m h lt = ground arith

-- A negative number of one decimal digit is printed as `-` and the character that lies as far below
-- `0` as the digit should lie above it.
pub xtoa_negative :
    (fuel d str : ℕ) (m : Mem)
    → IsBytes m
    → 0 < d
    → d < 10
    → (m' : Mem) × (xtoa (suc (suc fuel)) true d str 10 m ≡ ok (some str, m'))
      × (m' str ≡ b'-')
      × (m' (str + 1) ≡ b'0' - d)
      × (m' (str + 2) ≡ 0)
xtoa_negative fuel d str m b h lt =
    let m1 = write8 m (str + 0) (digit_char true (d % 10)) in
    (
      xtoa_finish true 10 str 1 m1,
      rw (
        xtoa_pos (suc (suc fuel)) d str 10 true m (omega arith) (omega arith) (omega arith),
        negative_digit fuel d str m h lt,
      ),
      unfold xtoa_finish write8 digit_char in ground (arith),
      unfold xtoa_finish write8 digit_char in ground (arith),
      unfold xtoa_finish write8 digit_char in ground (arith),
    )
