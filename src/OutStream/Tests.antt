-- ===== src/OutStream/Tests.antt =====
-- A console at the framebuffer, with the array of the number at 4096.
use rainbow_os.Prelude.{ℕ, ◌≤◌, ◌≡◌, refl, inl, arith, ok}
use rainbow_os.Memory.{Mem, IsBytes}
use rainbow_os.Terminal.{framebuffer_terminal}
use rainbow_os.Xtoa.Print.{Prints}
use rainbow_os.OutStream.{OutStream, init, write_literal, num}
use rainbow_os.OutStream.Screen.{Good, chars}
use rainbow_os.OutStream.Number.{num-write_literal}

abbrev zeros : Mem
zeros x = 0

abbrev out : OutStream
out = init framebuffer_terminal

out-Good : Good 0xb8000 (out, zeros)
unfolding init framebuffer_terminal
out-Good = record {
  cursor = record { row_in = omega arith; column_in = omega arith };
  at_buffer = refl;
  base_low = omega arith;
  base_high = omega arith;
  bytes = λ x. omega arith;
}

num-write_literal_example :
    (len : ℕ) × (m' : Mem) × (len ≤ 32)
    × Prints zeros m' 4096 out.base len 1234
    × (num 4096 1234 (out, zeros) ≡ ok (write_literal (chars m' 4096 len) out m'))
    × IsBytes m'
num-write_literal_example =
    num-write_literal 0xb8000 4096 (inl (omega arith)) 1234 out zeros out-Good (omega arith)
