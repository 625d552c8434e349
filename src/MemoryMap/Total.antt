-- ===== src/MemoryMap/Total.antt =====
-- getUpperMemorySize: the sum of the lengths of the regions, if it fits 32 bits.
use rainbow_os.Prelude.{
  ℕ, zero, suc, ◌+◌, ◌^◌, ◌≤◌, ◌<◌, ◌≡◌, refl, ap, arith, ltb, if◌then◌else◌, u32, u64,
}
use rainbow_os.Memory.{Mem, IsBytes, read32, read64}
use rainbow_os.Memory.Words.{read32-lt}
use rainbow_os.MemoryMap.{entry_length_field, add_lengths, get_upper_memory_size}

-- The sum of the lengths of `n` entries.
abbrev pub total_length : Mem → ℕ → ℕ → ℕ
total_length m entry zero = 0
total_length m entry (suc n) = entry_length_field m entry + total_length m (entry + 28) n

-- No region reaches the last 4 GiB of the 64-bit range.
abbrev pub Moderate : Mem → ℕ → ℕ → Type 0
Moderate m entry zero = Unit {0}
Moderate m entry (suc n) =
    (entry_length_field m entry + 2 ^ 32 ≤ 2 ^ 64) × Moderate m (entry + 28) n

add_lengths_lem :
    (n entry final_size : ℕ) (m : Mem)
    → final_size < 2 ^ 32
    → Moderate m entry n
    → add_lengths n entry final_size m ≡ (
        if ltb (final_size + total_length m entry n) (2 ^ 32)
        then final_size + total_length m entry n
        else 0)
unfolding add_lengths
add_lengths_lem zero entry final_size m h b = ground arith
add_lengths_lem (suc n) entry final_size m h b = ground (
  arith,
  add_lengths_lem n (entry + 28) (u32 (u64 (final_size + entry_length_field m entry))) m
      (omega arith) b.1,
  b.0,
)

-- If each region is shorter than 2 ^ 64 - 2 ^ 32, the result is the sum of the `length` fields of all
-- entries of the map, or 0 if that sum does not fit 32 bits.
pub get_upper_memory_size_lem :
    (m : Mem) (ptr : ℕ)
    → Moderate m (read32 m (ptr + 4)) (read32 m ptr)
    → get_upper_memory_size m ptr ≡ (
        if ltb (total_length m (read32 m (ptr + 4)) (read32 m ptr)) (2 ^ 32)
        then total_length m (read32 m (ptr + 4)) (read32 m ptr)
        else 0)
unfolding get_upper_memory_size
get_upper_memory_size_lem m ptr b =
    ground (arith, add_lengths_lem (read32 m ptr) (read32 m (ptr + 4)) 0 m (omega arith) b)

-- The 24 bytes that the BIOS writes for a region, an address, a length and a type, stand at `a`.
abbrev pub Region : Mem → ℕ → ℕ → ℕ → ℕ → Type 0
Region m a base len type =
    (read64 m a ≡ base) × (read64 m (a + 8) ≡ len) × (read32 m (a + 16) ≡ type)

length_high :
    (m : Mem) (a type : ℕ)
    → IsBytes m
    → read32 m (a + 16) ≡ type
    → 1 ≤ type
    → (2 ^ 32 ≤ entry_length_field m a) × (entry_length_field m a < 2 ^ 64)
unfolding entry_length_field read64
length_high m a type b t known =
    let lo = read32-lt m (a + 12) b in
    let hi = read32-lt m (a + 16) b in
    let at : read32 m (a + 12 + 4) ≡ read32 m (a + 16) = ap (λ (q : ℕ). read32 m q) (omega arith) in
    (omega arith, omega arith)

add_lengths_high :
    (n entry : ℕ) (m : Mem)
    → 1 ≤ n
    → 2 ^ 32 ≤ entry_length_field m entry
    → entry_length_field m entry < 2 ^ 64
    → add_lengths n entry 0 m ≡ 0
unfolding add_lengths
add_lengths_high zero entry m h lo hi = refl
add_lengths_high (suc n) entry m h lo hi = ground arith

-- The BIOS writes its record at the address of the entry, where the entry has `entry_length`. So the
-- field `length` holds the upper half of the region's length and its type: with a type other than
-- 0 on the first region, the size is reported as 0, whatever the lengths are.
pub get_upper_memory_size_misplaced :
    (m : Mem) (ptr base len type : ℕ)
    → IsBytes m
    → 1 ≤ read32 m ptr
    → 1 ≤ type
    → Region m (read32 m (ptr + 4)) base len type
    → get_upper_memory_size m ptr ≡ 0
unfolding get_upper_memory_size
get_upper_memory_size_misplaced m ptr base len type b one known (_, _, t) =
    let (lo, hi) = length_high m (read32 m (ptr + 4)) type b t known in
    add_lengths_high (read32 m ptr) (read32 m (ptr + 4)) m one lo hi
