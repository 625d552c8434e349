-- ===== src/Terminal/Tests.antt =====
-- A fresh terminal, and one with the cursor in the last cell.
use rainbow_os.Prelude.{
  ℕ, ◌+◌, ◌*◌, ◌<◌, ◌≡◌, refl, inr, true, false, arith, ltb, ◌==◌, if◌then◌else◌,
}
use rainbow_os.Memory.{Mem, SameOutside}
use rainbow_os.Terminal.{Terminal, vga_entry, putchar}
use rainbow_os.Terminal.Cells.{cell, blank, screen_bytes}
use rainbow_os.Terminal.Cursor.{OnScreen, putchar-OnScreen}
use rainbow_os.Terminal.Putchar.{
  putchar-SameOutside, putchar_printable, putchar_last, putchar_newline,
}

abbrev zeros : Mem
zeros x = 0

abbrev at : ℕ → ℕ → Terminal
at row column = record {
  row = row;
  column = column;
  color = 7;
  full_line = false;
  buffer = 0xb8000;
}

at_end : OnScreen (at 24 79)
at_end = record { row_in = omega arith; column_in = omega arith }

putchar_printable_example :
    let (code, t', m') = putchar b'R' (at 24 78) zeros in
    (code ≡ 0)
    × ((k : ℕ)
        → cell (at 24 78) m' k
          ≡ (if k == 24 * 80 + 78 then vga_entry b'R' 7 else cell (at 24 78) zeros k))
    × (t'.row * 80 + t'.column ≡ 24 * 80 + 78 + 1)
    × (t'.full_line ≡ (78 == 79))
putchar_printable_example =
    putchar_printable b'R' (at 24 78) zeros
      (record { row_in = omega arith; column_in = omega arith }) (omega arith) (omega arith)
      (inr (omega arith))

putchar_last_example :
    let (code, t', m') = putchar b'R' (at 24 79) zeros in
    (code ≡ 0)
    × (t' ≡ record (at 24 79) { row = 24; column = 0; full_line = true })
    × ((k : ℕ)
        → k < 2000
        → cell (at 24 79) m' k ≡ (
            if ltb k 1920
            then (if k == 1919 then vga_entry b'R' 7 else cell (at 24 79) zeros (k + 80))
            else blank (at 24 79)))
putchar_last_example =
    putchar_last b'R' (at 24 79) zeros (λ x. omega arith) (omega arith) (omega arith) refl refl

putchar_newline_example :
    let (code, t', m') = putchar 10 (at 24 79) zeros in
    (code ≡ 0)
    × (t'.full_line ≡ false)
    × (t'.column ≡ 0)
    × (t'.row + 1 ≡ 24 + 1)
    × ((k : ℕ)
        → k < 2000
        → cell (at 24 79) m' k
          ≡ (if ltb k 1920 then cell (at 24 79) zeros (k + 80) else blank (at 24 79)))
putchar_newline_example = putchar_newline (at 24 79) zeros at_end (λ x. omega arith)

putchar-SameOutside_example :
    SameOutside 0xb8000 screen_bytes zeros (putchar b'R' (at 24 79) zeros).2
putchar-SameOutside_example = putchar-SameOutside b'R' (at 24 79) zeros at_end (λ x. omega arith)

putchar-OnScreen_example : OnScreen (putchar b'R' (at 24 79) zeros).1
putchar-OnScreen_example = putchar-OnScreen b'R' (at 24 79) zeros at_end
