-- ===== src/Str/Terminated.antt =====
-- string.c: the functions on NUL-terminated strings, strlen and strcpy.
use rainbow_os.Prelude.{ℕ, zero, suc, ◌+◌, ◌<◌, ◌≡◌, ◌≢◌, ◌⊎◌, arith, ok}
use rainbow_os.Memory.{Mem, write8}
use rainbow_os.Str.{copy_up, memcpy, strlen_loop, strlen, strcpy_loop, strcpy}

-- At `str` stands a string of `n` characters, closed by a NUL.
pub record IsString (m : Mem) (str n : ℕ) : Type 0 where
  pub chars : (i : ℕ) → i < n → m (str + i) ≢ 0
  pub closed : m (str + n) ≡ 0

strlen_loop_lem :
    (fuel str n i k : ℕ) (m : Mem)
    → IsString m str n
    → i + k ≡ n
    → k < fuel
    → strlen_loop fuel m str i ≡ ok n
unfolding strlen_loop
strlen_loop_lem zero str n i k m s e h = absurd (omega arith)
strlen_loop_lem (suc fuel) str n i zero m s e h =
    let e' : i ≡ n = omega arith in rw e' (ground (arith, s.closed))
strlen_loop_lem (suc fuel) str n i (suc k) m s e h = ground (
  arith,
  s.chars i (omega arith),
  strlen_loop_lem fuel str n (i + 1) k m s (omega arith) (omega arith),
)

-- `strlen` returns the number of characters before the first NUL, and `n + 1` rounds are enough.
pub strlen_lem : (fuel str n : ℕ) (m : Mem) → IsString m str n → n < fuel → strlen fuel m str ≡ ok n
unfolding strlen
strlen_lem fuel str n m s h = strlen_loop_lem fuel str n 0 n m s (omega arith) h

-- A write past the string, or below it, leaves the string as it is.
write8-IsString :
    {m : Mem} {str n : ℕ} (a v : ℕ)
    → IsString m str n
    → (a < str) ⊎ (str + n < a)
    → IsString (write8 m a v) str n
unfolding write8
write8-IsString a v s apart = record {
  chars = λ i h. ground (arith, s.chars i h);
  closed = ground (arith, s.closed);
}

strcpy_loop_lem :
    (fuel dest src n i k : ℕ) (m : Mem)
    → IsString m src n
    → (dest + n < src) ⊎ (src + n < dest)
    → i + k ≡ n
    → k < fuel
    → strcpy_loop fuel i dest src m ≡ ok (copy_up (suc k) i dest src m)
unfolding strcpy_loop copy_up
strcpy_loop_lem zero dest src n i k m s apart e h = absurd (omega arith)
strcpy_loop_lem (suc fuel) dest src n i zero m s apart e h =
    let s' = write8-IsString (dest + i) (m (src + i)) s (omega arith) in
    let e' : i ≡ n = omega arith in rw e' (ground (arith, s'.closed))
strcpy_loop_lem (suc fuel) dest src n i (suc k) m s apart e h =
    let m' = write8 m (dest + i) (m (src + i)) in
    let s' = write8-IsString (dest + i) (m (src + i)) s (omega arith) in
    ground (
      arith,
      s'.chars i (omega arith),
      strcpy_loop_lem fuel dest src n (i + 1) k m' s' apart (omega arith) (omega arith),
    )

-- `strcpy` of a string of `n` characters to a destination that does not overlap it leaves the
-- memory that `memcpy` of `n + 1` bytes leaves, the NUL included, and `n + 1` rounds are enough.
pub strcpy-memcpy :
    (fuel dest src n : ℕ) (m : Mem)
    → IsString m src n
    → (dest + n < src) ⊎ (src + n < dest)
    → n < fuel
    → strcpy fuel dest src m ≡ ok (memcpy dest src (suc n) m)
unfolding strcpy memcpy
strcpy-memcpy fuel dest src n m s apart h =
    strcpy_loop_lem fuel dest src n 0 n m s apart (omega arith) h
