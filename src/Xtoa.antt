-- ===== src/Xtoa.antt =====
-- include/klib/cstdlib.hpp: `xtoa`, which prints an integer in a base from 2 to 16.
-- The template's `value` of type T is its sign and its magnitude: for an unsigned T the sign is
-- false. C++ division truncates, so the remainder of a negative number is the negated remainder
-- of its magnitude. Overflow does not occur: `num` only shrinks.
pub mod Digits
pub mod Reverse
pub mod Print
mod Tests
use rainbow_os.Prelude.{
  ℕ, zero, suc, ◌+◌, ◌-◌, ◌/◌, ◌%◌, Bool, ◌&&◌, ◌||◌, Option, none, some, ltb, ◌==◌, if◌then◌else◌,
  Outcome, ok, out_of_fuel, ◌>>=◌,
}
use rainbow_os.Memory.{Mem, write8}

-- The character that is stored for `char digit = num % convertedBase`, where `r` is the remainder of
-- the magnitude. A digit of a negative number is at most 0, so it takes the first branch.
unfoldable pub digit_char : Bool → ℕ → ℕ
digit_char negative r = if negative then b'0' - r else if ltb r 10 then b'0' + r else b'A' + r - 10

-- `for (; num != 0; ++index) { ... num /= convertedBase; }`, which ends with `index`
unfoldable pub xtoa_digits : ℕ → Bool → ℕ → ℕ → ℕ → ℕ → Mem → Outcome (ℕ × Mem)
unfolding digit_char
xtoa_digits zero negative num base str index m = out_of_fuel
xtoa_digits (suc fuel) negative num base str index m =
    let m' = write8 m (str + index) (digit_char negative (num % base)) in
    let rest = xtoa_digits fuel negative (num / base) base str (index + 1) m' in
    if num == 0 then ok (index, m) else rest

-- `for (size_t i = 0; i < index/2+1; i++)`: exchanges `str[i]` and `str[index-i]`
unfoldable pub xtoa_swap : ℕ → ℕ → ℕ → ℕ → Mem → Mem
xtoa_swap zero i index str m = m
xtoa_swap (suc n) i index str m =
    let tmp = m (str + i) in
    let m' = write8 m (str + i) (m (str + (index - i))) in
    xtoa_swap n (i + 1) index str (write8 m' (str + (index - i)) tmp)

-- What follows the digits: the sign, the NUL, `index--` and the exchange.
unfoldable pub xtoa_finish : Bool → ℕ → ℕ → ℕ → Mem → Mem
unfolding xtoa_swap
xtoa_finish negative base str index m =
    let signed = (base == 10) && negative in
    let m' = if signed then write8 m (str + index) b'-' else m in
    let index' = if signed then index + 1 else index in
    xtoa_swap ((index' - 1) / 2 + 1) 0 (index' - 1) str (write8 m' (str + index') 0)

-- The result is `NULL` or `str`.
unfoldable pub xtoa : ℕ → Bool → ℕ → ℕ → ℕ → Mem → Outcome (Option ℕ × Mem)
xtoa fuel negative magnitude str base m =
    if ltb base 2 || ltb 16 base
    then ok (none, m)
    else if magnitude == 0
    then ok (some str, write8 (write8 m str b'0') (str + 1) 0)
    else (xtoa_digits fuel negative magnitude base str 0 m >>= λ (index, m').
        ok (some str, xtoa_finish negative base str index m'))
