-- ===== src/Str/Copy.antt =====
-- string.c: what memcpy, memmove and memset leave in memory.
use rainbow_os.Prelude.{
  ℕ, zero, suc, ◌+◌, ◌-◌, ◌≤◌, ◌≡◌, ◌⊎◌, inl, inr, arith, ltb, if◌then◌else◌, Bool-cases, u8,
}
use rainbow_os.Memory.{Mem, IsBytes, inside, write8}
use rainbow_os.Memory.Words.{write8-IsBytes}
use rainbow_os.Str.{copy_up, copy_down, memcpy, memmove, fill, memset}

-- The memory in which the `n` bytes from `dst` on are those that `m` holds from `src` on.
abbrev pub copied : ℕ → ℕ → ℕ → Mem → Mem
copied dst src n m x = if inside dst n x then m (src + (x - dst)) else m x

-- Going up is right if the destination does not lie above the source, or not in its range.
copy_up_lem :
    (n i dst src : ℕ) (m : Mem)
    → IsBytes m
    → (dst ≤ src) ⊎ (src + (i + n) ≤ dst)
    → (x : ℕ)
    → copy_up n i dst src m x ≡ (if inside (dst + i) n x then m (src + (x - dst)) else m x)
unfolding copy_up write8
copy_up_lem zero i dst src m b apart x = ground arith
copy_up_lem (suc n) i dst src m b apart x = ground (
  arith,
  b (src + i),
  copy_up_lem n (i + 1) dst src (write8 m (dst + i) (m (src + i)))
      (write8-IsBytes m (dst + i) (m (src + i)) b) (omega arith) x,
)

copy_down_lem :
    (n dst src : ℕ) (m : Mem)
    → IsBytes m
    → src ≤ dst
    → (x : ℕ) → copy_down n dst src m x ≡ copied dst src n m x
unfolding copy_down write8
copy_down_lem zero dst src m b above x = ground arith
copy_down_lem (suc n) dst src m b above x = ground (
  arith,
  b (src + n),
  copy_down_lem n dst src (write8 m (dst + n) (m (src + n)))
      (write8-IsBytes m (dst + n) (m (src + n)) b) above x,
)

-- `memmove` copies right however the two ranges lie: every byte of the destination becomes the
-- byte that the source range held before the call, and no other byte changes.
pub memmove-copied :
    (dst src n : ℕ) (m : Mem) → IsBytes m → (x : ℕ) → memmove dst src n m x ≡ copied dst src n m x
unfolding memmove
memmove-copied dst src n m b x = elim (Bool-cases (ltb dst src)) [
  | inl up ↦ rw up (ground (arith, copy_up_lem n 0 dst src m b (ground arith) x))
  | inr down ↦ rw down (copy_down_lem n dst src m b (ground arith) x)
]

-- `memcpy` copies as `memmove` does where the destination begins at or below the source, or
-- begins past the end of the source range.
pub memcpy-copied :
    (dst src n : ℕ) (m : Mem)
    → IsBytes m
    → (dst ≤ src) ⊎ (src + n ≤ dst)
    → (x : ℕ) → memcpy dst src n m x ≡ copied dst src n m x
unfolding memcpy
memcpy-copied dst src n m b apart x = ground (arith, copy_up_lem n 0 dst src m b (omega arith) x)

fill_lem :
    (n i buf value : ℕ) (m : Mem) (x : ℕ)
    → fill n i buf value m x ≡ (if inside (buf + i) n x then u8 value else m x)
unfolding fill write8
fill_lem zero i buf value m x = ground arith
fill_lem (suc n) i buf value m x =
    ground (arith, fill_lem n (i + 1) buf value (write8 m (buf + i) value) x)

-- `memset` gives each of the `n` bytes from `buf` on the low byte of the value, and no other byte
-- changes.
pub memset_lem :
    (buf value n : ℕ) (m : Mem) (x : ℕ)
    → memset buf value n m x ≡ (if inside buf n x then u8 value else m x)
unfolding memset
memset_lem buf value n m x = ground (arith, fill_lem n 0 buf value m x)
