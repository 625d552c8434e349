-- ===== src/Xtoa/Tests.antt =====
-- Printing 255 in hexadecimal, and -7.
use rainbow_os.Prelude.{ℕ, ◌+◌, ◌-◌, ◌≤◌, ◌≡◌, inr, true, false, none, some, arith, ok}
use rainbow_os.Memory.{Mem}
use rainbow_os.Xtoa.{xtoa}
use rainbow_os.Xtoa.Print.{Prints, xtoa-Prints, xtoa_negative, xtoa_bad_base}

abbrev zeros : Mem
zeros x = 0

xtoa-Prints_example :
    (len : ℕ) × (m' : Mem) × (xtoa 33 false 255 4096 16 zeros ≡ ok (some 4096, m'))
    × (len ≤ 32)
    × Prints zeros m' 4096 16 len 255
xtoa-Prints_example =
    xtoa-Prints 32 255 4096 16 zeros (omega arith) (omega arith) (omega arith) (omega arith)
      (λ x. omega arith)

xtoa_negative_example :
    (m' : Mem) × (xtoa 2 true 7 4096 10 zeros ≡ ok (some 4096, m'))
    × (m' 4096 ≡ b'-')
    × (m' (4096 + 1) ≡ b'0' - 7)
    × (m' (4096 + 2) ≡ 0)
xtoa_negative_example = xtoa_negative 0 7 4096 zeros (λ x. omega arith) (omega arith) (omega arith)

xtoa_bad_base_example : xtoa 33 false 255 4096 17 zeros ≡ ok (none, zeros)
xtoa_bad_base_example = xtoa_bad_base 33 false 255 4096 17 zeros (inr (omega arith))
