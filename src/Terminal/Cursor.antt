-- ===== src/Terminal/Cursor.antt =====
-- The cursor stays on the screen.
use rainbow_os.Prelude.{ℕ, ◌≤◌, ◌<◌, ◌≡◌, refl, ◌⊎◌, true, false, arith}
use rainbow_os.Memory.{Mem}
use rainbow_os.Terminal.{
  Terminal, framebuffer_terminal, set_color, reset, next_row, putchar, set_cursor,
}

-- The cursor is on the screen.
pub record OnScreen (t : Terminal) : Type 0 where
  pub row_in : t.row < 25
  pub column_in : t.column < 80

pub next_row-OnScreen : (t : Terminal) (m : Mem) → OnScreen t → OnScreen (next_row t m).0
unfolding next_row
next_row-OnScreen t m v = ground arith

-- Every character that is put, control character, printable or refused, leaves the cursor on the
-- screen if it was there.
pub putchar-OnScreen : (c : ℕ) (t : Terminal) (m : Mem) → OnScreen t → OnScreen (putchar c t m).1
unfolding putchar next_row
putchar-OnScreen c t m v = ground arith

-- `setCursor` accepts just the positions on the screen, and then the cursor is there; it changes
-- nothing else, and nothing at all if it refuses.
pub set_cursor_lem :
    (row column : ℕ) (t : Terminal)
    → let (accepted, t') = set_cursor row column t in
      ((accepted ≡ true)
        × (row < 25)
        × (column < 80)
        × (t' ≡ record t { row = row; column = column }))
      ⊎ ((accepted ≡ false) × ((25 ≤ row) ⊎ (80 ≤ column)) × (t' ≡ t))
unfolding set_cursor
set_cursor_lem row column t = ground arith

-- The cursor stays on the screen, and the buffer where it is.
pub set_cursor-OnScreen :
    (row column : ℕ) (t : Terminal)
    → OnScreen t
    → OnScreen (set_cursor row column t).1
      × (Terminal.buffer (set_cursor row column t).1 ≡ t.buffer)
unfolding set_cursor
set_cursor-OnScreen row column t v = (ground arith, ground arith)

-- `reset` gives the state that the constructor gives, whatever the terminal went through.
pub reset-framebuffer_terminal : (t : Terminal) → reset t ≡ framebuffer_terminal
unfolding reset set_color framebuffer_terminal rainbow_os.Terminal.vga_entry_color
reset-framebuffer_terminal t = refl
