-- ===== src/OutStream/Number.antt =====
-- Numbers on the screen: a number is printed as the literal of its numeral.
use rainbow_os.Prelude.{
  ℕ, ◌+◌, ◌-◌, ◌^◌, ◌≤◌, ◌<◌, ◌≡◌, ap, subst, ◌∙◌, ◌⊎◌, false, some, arith, ok,
}
use rainbow_os.Memory.{Mem, IsBytes}
use rainbow_os.Str.{strlen}
use rainbow_os.Xtoa.{xtoa}
use rainbow_os.Str.Terminated.{strlen_lem}
use rainbow_os.Xtoa.Print.{Prints, xtoa-Prints}
use native.Mathlib.Decide.{dec_lt}
use rainbow_os.OutStream.{
  OutStream, write_range, write_string, write_literal, write_num, Console, num,
}
use rainbow_os.OutStream.Screen.{
  Good, Good-memory, Displays, chars, write_literal-Shows, write_range_literal,
}

-- A numeral leaves a memory of bytes.
Prints-IsBytes :
    (m m' : Mem) (str base len n : ℕ)
    → base ≤ 16
    → Prints m m' str base len n
    → IsBytes m
    → IsBytes m'
Prints-IsBytes m m' str base len n high p b x = elim (dec_lt x str) [
  | yes below ↦ omega (arith, p.same x (omega arith), b x)
  | no reached ↦ elim (dec_lt (str + len) x) [
    | yes above ↦ omega (arith, p.same x (omega arith), b x)
    | no within ↦
        let e : str + (x - str) ≡ x = omega arith in
        subst (λ (q : ℕ). m' q < 256) e (inside_array (x - str) (omega arith))
  ]
]
  where
    inside_array : (j : ℕ) → j ≤ len → m' (str + j) < 256
    inside_array j le = elim (dec_lt j len) [
      | yes digit ↦ omega (arith, p.digits j digit)
      | no end ↦ (let e : j ≡ len = omega arith in rw (e, p.string.closed) (omega arith))
    ]

-- `write_num` once the digits stand in the array.
write_num_lem :
    (fuel stack n len : ℕ) (out : OutStream) (m m' : Mem)
    → xtoa fuel false n stack out.base m ≡ ok (some stack, m')
    → strlen fuel m' stack ≡ ok len
    → write_num fuel stack n out m ≡ ok (write_range len stack out m')
unfolding write_num write_string
write_num_lem fuel stack n len out m m' e l = rw (e, l)

module _ (buffer stack : ℕ) (apart : (stack + 33 ≤ buffer) ⊎ (buffer + 4000 ≤ stack)) where
  -- A number below `2 ^ 32` is written as the literal of its numeral in the base of the stream: at
  -- most 32 digits without a leading zero, which are left with a NUL in the array. The array lies
  -- away from the screen.
  pub num-write_literal :
      (n : ℕ) (out : OutStream) (m : Mem)
      → Good buffer (out, m)
      → n < 2 ^ 32
      → (len : ℕ) × (m' : Mem) × (len ≤ 32)
        × Prints m m' stack out.base len n
        × (num stack n (out, m) ≡ ok (write_literal (chars m' stack len) out m'))
        × IsBytes m'
  unfolding num
  num-write_literal n out m g h =
      let (len, m', e, short, p) =
        xtoa-Prints 32 n stack out.base m g.base_low g.base_high (omega arith) h g.bytes in
      let b = Prints-IsBytes m m' stack out.base len n g.base_high p g.bytes in
      let good : Good buffer (out, m') = record {
        cursor = g.cursor;
        at_buffer = g.at_buffer;
        base_low = g.base_low;
        base_high = g.base_high;
        bytes = b;
      } in
      (
        len,
        m',
        short,
        p,
        write_num_lem 33 stack n len out m m' e (strlen_lem 33 stack len m' p.string (omega arith))
            ∙ ap (λ (c : Console). ok c)
                (write_range_literal buffer stack len stack out m' good (omega arith)),
        b,
      )

  -- Printing a number below `2 ^ 32` ends and shows.
  pub num-Displays : (n : ℕ) → n < 2 ^ 32 → Displays buffer stack (num stack n)
  num-Displays n h (out, m) g =
      let (len, m', short, p, e, b) = num-write_literal n out m g h in
      let good = Good-memory buffer out m m' g b in
      let shown = write_literal-Shows buffer stack (chars m' stack len) out m' good in
      let c' = write_literal (chars m' stack len) out m' in
      (
        c',
        e,
        record {
          good = shown.good;
          base_kept = shown.base_kept;
          same = λ x o q. shown.same x o q ∙ p.same x (omega arith);
        },
      )
