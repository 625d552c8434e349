-- ===== src/Terminal/Cells.antt =====
-- The cells of the screen: writing one, blanking rows, clear.
use rainbow_os.Prelude.{
  ℕ, zero, suc, ◌+◌, ◌*◌, ◌^◌, ◌≤◌, ◌<◌, ◌≡◌, refl, ◌∙◌, ◌&&◌, arith, ltb, leb, ◌==◌, if◌then◌else◌,
}
use rainbow_os.Memory.{Mem, SameOutside, read16, write16}
use rainbow_os.Terminal.{Terminal, vga_entry, set_cell, blank_row, blank_rows, clear}

-- The word that stands in a cell.
unfoldable pub cell : Terminal → Mem → ℕ → ℕ
cell t m index = read16 m (t.buffer + 2 * index)

-- The number of bytes of the screen.
abbrev pub screen_bytes : ℕ
screen_bytes = 4000

vga_entry-lt : (uc color : ℕ) → vga_entry uc color < 2 ^ 16
unfolding vga_entry
vga_entry-lt uc color = omega arith

pub cell-set_cell :
    (t : Terminal) (m : Mem) (j k uc color : ℕ)
    → cell t (set_cell t j (vga_entry uc color) m) k
      ≡ (if k == j then vga_entry uc color else cell t m k)
unfolding cell set_cell read16 write16
cell-set_cell t m j k uc color = ground (arith, vga_entry-lt uc color)

pub set_cell-SameOutside :
    (t : Terminal) (m : Mem) (j v : ℕ)
    → j < 2000
    → SameOutside t.buffer screen_bytes m (set_cell t j v m)
unfolding set_cell write16
set_cell-SameOutside t m j v h x o = ground arith

unfoldable pub blank : Terminal → ℕ
blank t = vga_entry b' ' t.color

cell-blank_row :
    (n x y : ℕ) (t : Terminal) (m : Mem) (k : ℕ)
    → cell t (blank_row n x y t m) k
      ≡ (if leb (y * 80 + x) k && ltb k (y * 80 + x + n) then blank t else cell t m k)
unfolding blank_row blank
cell-blank_row zero x y t m k = ground arith
cell-blank_row (suc n) x y t m k = ground (
  arith,
  cell-blank_row n (x + 1) y t (set_cell t (y * 80 + x) (blank t) m) k,
  cell-set_cell t m (y * 80 + x) k b' ' t.color,
)

-- Blanking the rows from `y` on changes just their cells.
pub cell-blank_rows :
    (n y : ℕ) (t : Terminal) (m : Mem) (k : ℕ)
    → cell t (blank_rows n y t m) k
      ≡ (if leb (y * 80) k && ltb k ((y + n) * 80) then blank t else cell t m k)
unfolding blank_rows
cell-blank_rows zero y t m k = ground arith
cell-blank_rows (suc n) y t m k =
    ground
      (arith, cell-blank_rows n (y + 1) t (blank_row 80 0 y t m) k, cell-blank_row 80 0 y t m k)

blank_row-SameOutside :
    (n x y : ℕ) (t : Terminal) (m : Mem)
    → y < 25
    → x + n ≤ 80
    → SameOutside t.buffer screen_bytes m (blank_row n x y t m)
unfolding blank_row
blank_row-SameOutside zero x y t m h l z o = refl
blank_row-SameOutside (suc n) x y t m h l z o =
    let m' = set_cell t (y * 80 + x) (vga_entry b' ' t.color) m in
    blank_row-SameOutside n (x + 1) y t m' h (omega arith) z o
    ∙ set_cell-SameOutside t m (y * 80 + x) (vga_entry b' ' t.color) (omega arith) z o

pub blank_rows-SameOutside :
    (n y : ℕ) (t : Terminal) (m : Mem)
    → y + n ≤ 25
    → SameOutside t.buffer screen_bytes m (blank_rows n y t m)
unfolding blank_rows
blank_rows-SameOutside zero y t m h z o = refl
blank_rows-SameOutside (suc n) y t m h z o =
    let m' = blank_row 80 0 y t m in
    blank_rows-SameOutside n (y + 1) t m' (omega arith) z o
    ∙ blank_row-SameOutside 80 0 y t m (omega arith) (omega arith) z o

-- `clear` gives each of the 2000 cells a space in the current colour, and writes nothing beside
-- the 4000 bytes of the screen.
pub clear_lem :
    (t : Terminal) (m : Mem)
    → ((k : ℕ) → k < 2000 → cell t (clear t m) k ≡ vga_entry b' ' t.color)
      × SameOutside t.buffer screen_bytes m (clear t m)
unfolding clear blank
clear_lem t m = (
  λ k h. ground (arith, cell-blank_rows 25 0 t m k),
  blank_rows-SameOutside 25 0 t m (omega arith),
)
