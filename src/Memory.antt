-- ===== src/Memory.antt =====
-- The flat physical memory that the whole program works on: the bootloader and the kernel run
-- without paging, and reach structures on disk buffers, in firmware tables and on the heap by
-- casting addresses. A memory maps each address to its byte. Values are little-endian, as on i686.
pub mod Words
use rainbow_os.Prelude.{
  ℕ, ◌+◌, ◌*◌, ◌/◌, ◌%◌, ◌^◌, ◌≤◌, ◌<◌, ◌≡◌, ◌⊎◌, Bool, ◌&&◌, ltb, leb, ◌==◌, if◌then◌else◌,
}

abbrev pub Mem : Type 0
Mem = ℕ → ℕ

-- Every cell holds a byte.
abbrev pub IsBytes : Mem → Type 0
IsBytes m = (x : ℕ) → m x < 2 ^ 8

-- `x` lies in the `n` bytes from `a` on.
abbrev pub inside : ℕ → ℕ → ℕ → Bool
inside a n x = leb a x && ltb x (a + n)

-- `m'` differs from `m` at most in the `n` bytes from `a` on.
abbrev pub SameOutside : ℕ → ℕ → Mem → Mem → Type 0
SameOutside a n m m' = (x : ℕ) → (x < a) ⊎ (a + n ≤ x) → m' x ≡ m x

-- `*(uint8_t*) a = v`
unfoldable pub write8 : Mem → ℕ → ℕ → Mem
write8 m a v x = if x == a then v % 2 ^ 8 else m x

unfoldable pub read16 : Mem → ℕ → ℕ
read16 m a = m a + m (a + 1) * 2 ^ 8

unfoldable pub read32 : Mem → ℕ → ℕ
read32 m a = m a + m (a + 1) * 2 ^ 8 + m (a + 2) * 2 ^ 16 + m (a + 3) * 2 ^ 24

unfoldable pub read64 : Mem → ℕ → ℕ
unfolding read32
read64 m a = read32 m a + read32 m (a + 4) * 2 ^ 32

unfoldable pub write16 : Mem → ℕ → ℕ → Mem
unfolding write8
write16 m a v = write8 (write8 m a v) (a + 1) (v / 2 ^ 8)

unfoldable pub write32 : Mem → ℕ → ℕ → Mem
unfolding write8
write32 m a v =
    write8 (write8 (write8 (write8 m a v) (a + 1) (v / 2 ^ 8)) (a + 2) (v / 2 ^ 16)) (a + 3)
      (v / 2 ^ 24)

unfoldable pub write64 : Mem → ℕ → ℕ → Mem
unfolding write32
write64 m a v = write32 (write32 m a v) (a + 4) (v / 2 ^ 32)
