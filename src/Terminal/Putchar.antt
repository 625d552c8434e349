-- ===== src/Terminal/Putchar.antt =====
-- What putchar writes.
use rainbow_os.Prelude.{
  ℕ, ◌+◌, ◌*◌, ◌≤◌, ◌<◌, ◌≡◌, refl, ◌⊎◌, Bool, true, false, not, ◌&&◌, arith, ltb, ◌==◌,
  if◌then◌else◌, u16,
}
use rainbow_os.Memory.{Mem, IsBytes, SameOutside}
use rainbow_os.Terminal.{Terminal, vga_entry, set_cell, next_row, scroll, putchar}
use rainbow_os.Terminal.Cells.{cell, blank, screen_bytes, cell-set_cell, set_cell-SameOutside}
use rainbow_os.Terminal.Scroll.{scroll_lem}
use rainbow_os.Terminal.Cursor.{OnScreen}
use rainbow_os.Terminal.Bytes.{set_cell-IsBytes}

-- The step to the next row writes only the screen.
next_row-SameOutside :
    (t : Terminal) (m : Mem) → IsBytes m → SameOutside t.buffer screen_bytes m (next_row t m).1
unfolding next_row
next_row-SameOutside t m b x o =
    ground (arith, (scroll_lem (record t { row = u16 (t.row + 1) }) m 1 b (omega arith)).2 x o)

-- Whatever the character, putchar writes only the 4000 bytes of the screen.
pub putchar-SameOutside :
    (c : ℕ) (t : Terminal) (m : Mem)
    → OnScreen t
    → IsBytes m
    → SameOutside t.buffer screen_bytes m (putchar c t m).2
unfolding putchar
putchar-SameOutside c t m v b x o =
    let entry = vga_entry c t.color in
    let index = t.row * 80 + t.column in
    ground (
      arith,
      next_row-SameOutside (record t { column = 0 }) m b x o,
      set_cell-SameOutside t m index entry (omega arith) x o,
      next_row-SameOutside (record t { column = 0; full_line = true }) (set_cell t index entry m)
          (set_cell-IsBytes t m index entry b) x o,
    )

-- A printable character that does not end the last row goes into the cell under the cursor in the
-- current colour, every other cell stays, the result is 0 and the cursor moves on: to the next
-- column, or to the start of the next row, which is then marked as reached by a full line.
pub putchar_printable :
    (c : ℕ) (t : Terminal) (m : Mem)
    → OnScreen t
    → 20 ≤ c
    → c ≤ 126
    → (t.row < 24) ⊎ (t.column < 79)
    → let (code, t', m') = putchar c t m in
      (code ≡ 0)
      × ((k : ℕ)
          → cell t m' k ≡ (if k == t.row * 80 + t.column then vga_entry c t.color else cell t m k))
      × (t'.row * 80 + t'.column ≡ t.row * 80 + t.column + 1)
      × (t'.full_line ≡ (t.column == 79))
unfolding putchar next_row
putchar_printable c t m v lo hi room = (
  ground arith,
  λ k. ground (arith, cell-set_cell t m (t.row * 80 + t.column) k c t.color),
  ground arith,
  ground arith,
)

-- The terminal as it stands when the last row is full, before `_row--`.
abbrev below : Terminal → Terminal
below t = record t { row = 25; column = 0; full_line = true }

last_cell :
    (c : ℕ) (t : Terminal) (m : Mem)
    → 20 ≤ c
    → c ≤ 126
    → t.row ≡ 24
    → t.column ≡ 79
    → putchar c t m ≡ (
      0,
      record t { row = 24; column = 0; full_line = true },
      (scroll 1 (below t) (set_cell t 1999 (vga_entry c t.color) m)).1,
    )
unfolding putchar next_row
last_cell c t m lo hi last full = ground arith

-- A printable character in the last cell of the screen scrolls it by one line: each cell then holds
-- what the cell a row below held, the new character included, the last row is blank in the current
-- colour, and the cursor stands at the start of the last row behind a full line.
pub putchar_last :
    (c : ℕ) (t : Terminal) (m : Mem)
    → IsBytes m
    → 20 ≤ c
    → c ≤ 126
    → t.row ≡ 24
    → t.column ≡ 79
    → let (code, t', m') = putchar c t m in
      (code ≡ 0)
      × (t' ≡ record t { row = 24; column = 0; full_line = true })
      × ((k : ℕ)
          → k < 2000
          → cell t m' k ≡ (
              if ltb k 1920
              then (if k == 1919 then vga_entry c t.color else cell t m (k + 80))
              else blank t))
unfolding cell blank
putchar_last c t m b lo hi last full =
    let entry = vga_entry c t.color in
    let m1 = set_cell t 1999 entry m in
    rw (last_cell c t m lo hi last full) (
      refl,
      refl,
      λ k lt. ground (
        arith,
        (scroll_lem (below t) m1 1 (set_cell-IsBytes t m 1999 entry b) (omega arith)).1 k lt,
        cell-set_cell t m 1999 (k + 80) c t.color,
      ),
    )

-- A newline scrolls the screen by one line if the cursor is in the last row and the row was not ended
-- by a full line.
abbrev pub newline_scrolls : Terminal → Bool
newline_scrolls t = not t.full_line && (t.row == 24)

-- A newline gives the code 0 and clears the mark of a full line. Behind a full line the cursor, which
-- stands on the next row already, and all cells stay. Otherwise the cursor goes to
-- the start of the next row; in the last row it goes to the start of that row, each cell then holds
-- what the cell a row below held, and the last row is blank in the current colour.
pub putchar_newline :
    (t : Terminal) (m : Mem)
    → OnScreen t
    → IsBytes m
    → let (code, t', m') = putchar 10 t m in
      (code ≡ 0)
      × (t'.full_line ≡ false)
      × (t'.column ≡ (if t.full_line then t.column else 0))
      × (t'.row + (if newline_scrolls t then 1 else 0) ≡ (if t.full_line then t.row else t.row + 1))
      × ((k : ℕ)
          → k < 2000
          → cell t m' k ≡ (
              if newline_scrolls t
              then (if ltb k 1920 then cell t m (k + 80) else blank t)
              else cell t m k))
unfolding putchar next_row cell blank
putchar_newline t m v b =
    let scrolled = scroll_lem (record t { row = 25; column = 0 }) m 1 b (omega arith) in
    (
      ground arith,
      ground arith,
      ground arith,
      ground (arith, v.row_in),
      λ k lt. ground (arith, scrolled.1 k lt, v.row_in),
    )
