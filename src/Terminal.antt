-- ===== src/Terminal.antt =====
-- include/devices/BIOSVideoIO.hpp and lib/io/BIOSVideoIO.cpp: the text terminal on the VGA
-- framebuffer, io::framebuffer_terminal. A cell of the screen is the 16-bit word at
-- `buffer + 2 * index`. The methods that write the framebuffer take and return the memory.
pub mod Cells
pub mod Scroll
pub mod Cursor
pub mod Putchar
pub mod Bytes
mod Tests
use Prim.Native.Nat.{bit_or}
use rainbow_os.Prelude.{
  ℕ, zero, suc, ◌+◌, ◌-◌, ◌*◌, ◌^◌, Bool, true, false, ◌||◌, ltb, leb, ◌==◌, if◌then◌else◌, u8, u16,
}
use rainbow_os.Memory.{Mem, write16}
use rainbow_os.Str.{memmove}

-- enum class vga_color
pub data VgaColor : Type 0 where
  black blue green cyan red magenta brown light_grey : VgaColor
  dark_grey light_blue light_green light_cyan light_red light_magenta light_brown white : VgaColor

unfoldable pub color_code : VgaColor → ℕ
color_code black = 0
color_code blue = 1
color_code green = 2
color_code cyan = 3
color_code red = 4
color_code magenta = 5
color_code brown = 6
color_code light_grey = 7
color_code dark_grey = 8
color_code light_blue = 9
color_code light_green = 10
color_code light_cyan = 11
color_code light_red = 12
color_code light_magenta = 13
color_code light_brown = 14
color_code white = 15

pub record Terminal : Type 0 where
  pub row : ℕ
  pub column : ℕ
  pub color : ℕ
  pub full_line : Bool
  pub buffer : ℕ

abbrev pub vga_height : ℕ
vga_height = 25

abbrev pub vga_width : ℕ
vga_width = 80

abbrev pub framebuffer_location : ℕ
framebuffer_location = 0xb8000

unfoldable pub vga_entry_color : VgaColor → VgaColor → ℕ
unfolding color_code
vga_entry_color fg bg = u8 (bit_or (color_code fg) (color_code bg * 2 ^ 4))

unfoldable pub vga_entry : ℕ → ℕ → ℕ
vga_entry uc color = u16 (bit_or uc (color * 2 ^ 8))

-- The constructor.
unfoldable pub framebuffer_terminal : Terminal
framebuffer_terminal = record {
  row = 0;
  column = 0;
  color = 0x07;
  full_line = false;
  buffer = framebuffer_location;
}

unfoldable pub set_color : VgaColor → VgaColor → Terminal → Terminal
set_color fg bg t = record t { color = vga_entry_color fg bg }

unfoldable pub reset : Terminal → Terminal
reset t =
    set_color light_grey black
      (record t { buffer = framebuffer_location; row = 0; column = 0; full_line = false })

-- `_buffer[index] = entry`
unfoldable pub set_cell : Terminal → ℕ → ℕ → Mem → Mem
set_cell t index entry m = write16 m (t.buffer + 2 * index) entry

-- `for (; x < vga_width; x++)` in row `y`, with the rounds left
unfoldable pub blank_row : ℕ → ℕ → ℕ → Terminal → Mem → Mem
blank_row zero x y t m = m
blank_row (suc n) x y t m =
    blank_row n (x + 1) y t (set_cell t (y * vga_width + x) (vga_entry b' ' t.color) m)

-- `for (; y < vga_height; y++)`, with the rounds left
unfoldable pub blank_rows : ℕ → ℕ → Terminal → Mem → Mem
blank_rows zero y t m = m
blank_rows (suc n) y t m = blank_rows n (y + 1) t (blank_row vga_width 0 y t m)

unfoldable pub clear : Terminal → Mem → Mem
clear t m = blank_rows vga_height 0 t m

-- The return code and the memory. `_buffer + n` moves by `2 * n` bytes.
unfoldable pub scroll : ℕ → Terminal → Mem → ℕ × Mem
scroll lines t m =
    let size = vga_width * (vga_height - lines) * 2 in
    let m' = memmove t.buffer (t.buffer + 2 * (vga_width * lines)) size m in
    if leb vga_height lines then (1, m) else (0, blank_rows lines (vga_height - lines) t m')

-- `if (++_row == vga_height) { scroll(1); _row--; }`
unfoldable pub next_row : Terminal → Mem → Terminal × Mem
next_row t m =
    let row' = u16 (t.row + 1) in
    let t' = record t { row = row' } in
    if row' == vga_height
    then (record t { row = u16 (row' + 2 ^ 16 - 1) }, (scroll 1 t' m).1)
    else (t', m)

-- `c < 20 || c > 126`, on the signed `char`
abbrev pub out_of_bounds : ℕ → Bool
out_of_bounds c = leb 128 c || (ltb c 20 || ltb 126 c)

-- The return code, the terminal and the memory.
unfoldable pub putchar : ℕ → Terminal → Mem → ℕ × Terminal × Mem
putchar c t m =
    let (t1, m1) = next_row (record t { column = 0 }) m in
    let t2 = record t { full_line = false } in
    let m2 = set_cell t (t.row * vga_width + t.column) (vga_entry c t.color) m in
    let column' = u16 (t.column + 1) in
    let (t3, m3) = next_row (record t { column = 0; full_line = true }) m2 in
    if c == 10
    then (if t.full_line then (0, t2, m) else (0, t1, m1))
    else if out_of_bounds c
    then (1, t2, m)
    else if column' == vga_width
    then (0, t3, m3)
    else (0, record t2 { column = column' }, m2)

unfoldable pub set_cursor : ℕ → ℕ → Terminal → Bool × Terminal
set_cursor row column t =
    if leb vga_height row || leb vga_width column
    then (false, t)
    else (true, record t { row = row; column = column })
