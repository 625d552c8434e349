-- ===== src/Terminal/Bytes.antt =====
-- The terminal keeps a memory of bytes one, and its buffer where it is.
use rainbow_os.Prelude.{
  ℕ, zero, suc, ◌+◌, ◌-◌, ◌*◌, ◌≡◌, inl, inr, true, arith, leb, ◌==◌, Bool-cases, u16,
}
use rainbow_os.Memory.{Mem, IsBytes, write16}
use rainbow_os.Memory.Words.{write8-IsBytes}
use rainbow_os.Str.{memmove}
use rainbow_os.Str.Copy.{memmove-copied}
use rainbow_os.Terminal.{
  Terminal, set_cell, blank_row, blank_rows, clear, scroll, next_row, putchar, vga_entry,
}

pub set_cell-IsBytes : (t : Terminal) (m : Mem) (j v : ℕ) → IsBytes m → IsBytes (set_cell t j v m)
unfolding set_cell write16
set_cell-IsBytes t m j v b = write8-IsBytes _ _ _ (write8-IsBytes m _ _ b)

blank_row-IsBytes : (n x y : ℕ) (t : Terminal) (m : Mem) → IsBytes m → IsBytes (blank_row n x y t m)
unfolding blank_row
blank_row-IsBytes zero x y t m b = b
blank_row-IsBytes (suc n) x y t m b =
    blank_row-IsBytes n (x + 1) y t _ (set_cell-IsBytes t m (y * 80 + x) (vga_entry b' ' t.color) b)

blank_rows-IsBytes : (n y : ℕ) (t : Terminal) (m : Mem) → IsBytes m → IsBytes (blank_rows n y t m)
unfolding blank_rows
blank_rows-IsBytes zero y t m b = b
blank_rows-IsBytes (suc n) y t m b =
    blank_rows-IsBytes n (y + 1) t _ (blank_row-IsBytes 80 0 y t m b)

pub clear-IsBytes : (t : Terminal) (m : Mem) → IsBytes m → IsBytes (clear t m)
unfolding clear
clear-IsBytes t m b = blank_rows-IsBytes 25 0 t m b

memmove-IsBytes : (dst src n : ℕ) (m : Mem) → IsBytes m → IsBytes (memmove dst src n m)
memmove-IsBytes dst src n m b x =
    ground (arith, memmove-copied dst src n m b x, b x, b (src + (x - dst)))

scroll-IsBytes : (lines : ℕ) (t : Terminal) (m : Mem) → IsBytes m → IsBytes (scroll lines t m).1
unfolding scroll
scroll-IsBytes lines t m b =
    let moved =
      memmove-IsBytes t.buffer (t.buffer + 2 * (80 * lines)) (80 * (25 - lines) * 2) m b in
    let blanked = blank_rows-IsBytes lines (25 - lines) t _ moved in
    elim (Bool-cases (leb 25 lines)) [ inl all ↦ rw all b | inr some_stay ↦ rw some_stay blanked ]

next_row-IsBytes : (t : Terminal) (m : Mem) → IsBytes m → IsBytes (next_row t m).1
unfolding next_row
next_row-IsBytes t m b =
    let scrolled = scroll-IsBytes 1 (record t { row = u16 (t.row + 1) }) m b in
    elim (Bool-cases (u16 (t.row + 1) == 25)) [
      | inl last ↦ rw last scrolled
      | inr other ↦ rw other b
    ]

pub putchar-IsBytes : (c : ℕ) (t : Terminal) (m : Mem) → IsBytes m → IsBytes (putchar c t m).2
unfolding putchar
putchar-IsBytes c t m b x =
    let m2 = set_cell t (t.row * 80 + t.column) (vga_entry c t.color) m in
    let b2 = set_cell-IsBytes t m (t.row * 80 + t.column) (vga_entry c t.color) b in
    ground (
      arith,
      b x,
      b2 x,
      next_row-IsBytes (record t { column = 0 }) m b x,
      next_row-IsBytes (record t { column = 0; full_line = true }) m2 b2 x,
    )

pub putchar-buffer : (c : ℕ) (t : Terminal) (m : Mem) → Terminal.buffer (putchar c t m).1 ≡ t.buffer
unfolding putchar next_row
putchar-buffer c t m = ground arith
