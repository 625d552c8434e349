-- ===== src/Terminal/Scroll.antt =====
-- What scroll leaves on the screen.
use rainbow_os.Prelude.{
  ℕ, ◌+◌, ◌-◌, ◌*◌, ◌≤◌, ◌<◌, ◌≡◌, refl, ap, ◌∙◌, false, arith, ltb, leb, if◌then◌else◌,
}
use rainbow_os.Memory.{Mem, IsBytes, SameOutside, read16}
use rainbow_os.Str.{memmove}
use rainbow_os.Str.Copy.{copied, memmove-copied}
use rainbow_os.Terminal.{Terminal, scroll}
use rainbow_os.Terminal.Cells.{cell, blank, screen_bytes, cell-blank_rows, blank_rows-SameOutside}

module _ (t : Terminal) (m : Mem) (bytes : IsBytes m) (lines : ℕ) (h : lines < 25) where
  abbrev moved : Mem
  moved = memmove t.buffer (t.buffer + 2 * (80 * lines)) (80 * (25 - lines) * 2) m

  moved-byte :
      (x : ℕ) → moved x ≡ copied t.buffer (t.buffer + 2 * (80 * lines)) (80 * (25 - lines) * 2) m x
  moved-byte x =
      memmove-copied t.buffer (t.buffer + 2 * (80 * lines)) (80 * (25 - lines) * 2) m bytes x

  cell-moved : (k : ℕ) → k < (25 - lines) * 80 → cell t moved k ≡ cell t m (k + 80 * lines)
  unfolding cell read16
  cell-moved k lt =
      let a = t.buffer + 2 * k in
      let b = t.buffer + 2 * (k + 80 * lines) in
      let e : t.buffer + 2 * (80 * lines) + (a - t.buffer) ≡ b = omega arith in
      let e' : t.buffer + 2 * (80 * lines) + (a + 1 - t.buffer) ≡ b + 1 = omega arith in
      let low : moved a ≡ m b = ground (arith, moved-byte a, ap m e) in
      let high : moved (a + 1) ≡ m (b + 1) = ground (arith, moved-byte (a + 1), ap m e') in
      rw (low, high)

  moved-SameOutside : SameOutside t.buffer screen_bytes m moved
  moved-SameOutside x o = ground (arith, moved-byte x)

-- `scroll` by fewer lines than the screen has moves each row up by them, blanks the rows at the
-- bottom in the current colour, writes nothing beside the screen and returns 0.
pub scroll_lem :
    (t : Terminal) (m : Mem) (lines : ℕ)
    → IsBytes m
    → lines < 25
    → let (code, m') = scroll lines t m in
      (code ≡ 0)
      × ((k : ℕ)
          → k < 2000
          → cell t m' k
            ≡ (if ltb k ((25 - lines) * 80) then cell t m (k + 80 * lines) else blank t))
      × SameOutside t.buffer screen_bytes m m'
unfolding scroll
scroll_lem t m lines bytes h =
    let m1 = memmove t.buffer (t.buffer + 2 * (80 * lines)) (80 * (25 - lines) * 2) m in
    let c : leb 25 lines ≡ false = ground arith in
    rw c (
      refl,
      λ k lt.
          ground (arith, cell-blank_rows lines (25 - lines) t m1 k, cell-moved t m bytes lines h k),
      λ x o.
          blank_rows-SameOutside lines (25 - lines) t m1 (omega arith) x o
          ∙ moved-SameOutside t m bytes lines h x o,
    )

-- `scroll` by as many lines as the screen has, or more, returns 1 and writes nothing.
pub scroll_refused : (t : Terminal) (m : Mem) (lines : ℕ) → 25 ≤ lines → scroll lines t m ≡ (1, m)
unfolding scroll
scroll_refused t m lines h = ground arith
