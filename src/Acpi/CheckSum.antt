-- ===== src/Acpi/CheckSum.antt =====
-- checkSum: the bytes of a structure sum to zero modulo 256.
use rainbow_os.Prelude.{ℕ, zero, suc, ◌+◌, ◌%◌, ◌^◌, ◌<◌, ◌≡◌, ap, ◌∙◌, ◌↔◌, true, arith, add32}
use rainbow_os.Memory.{Mem}
use rainbow_os.Acpi.{add_bytes, check_sum}

-- The sum of the `n` bytes from `a` on.
abbrev pub byte_sum : Mem → ℕ → ℕ → ℕ
byte_sum m a zero = 0
byte_sum m a (suc n) = m a + byte_sum m (a + 1) n

add_bytes_lem :
    (n i res : ℕ) (m : Mem) (ptr : ℕ)
    → res < 2 ^ 32
    → add_bytes n i res m ptr ≡ (res + byte_sum m (ptr + i) n) % 2 ^ 32
unfolding add_bytes
add_bytes_lem zero i res m ptr h = omega arith
add_bytes_lem (suc n) i res m ptr h =
    let same : ptr + (i + 1) ≡ ptr + i + 1 = omega arith in
    add_bytes_lem n (i + 1) (add32 res (m (ptr + i))) m ptr (omega arith)
    ∙ ap (λ (a : ℕ). (add32 res (m (ptr + i)) + byte_sum m a n) % 2 ^ 32) same
    ∙ omega arith

-- A structure of any size passes the check exactly when the sum of its bytes is a multiple of 256,
-- though the code adds them up on 32 bits.
pub check_sum_iff :
    (m : Mem) (ptr size : ℕ) → (check_sum m ptr size ≡ true) ↔ (byte_sum m ptr size % 2 ^ 8 ≡ 0)
unfolding check_sum
check_sum_iff m ptr size =
    let added = add_bytes_lem size 0 0 m ptr (omega arith) in
    let start : byte_sum m (ptr + 0) size ≡ byte_sum m ptr size =
      ap (λ (a : ℕ). byte_sum m a size) (omega arith) in
    ground (arith, added, start)
