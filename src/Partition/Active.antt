-- ===== src/Partition/Active.antt =====
-- getPartitionLBA takes the first active partition.
use rainbow_os.Prelude.{
  ℕ, zero, suc, ◌+◌, ◌≤◌, ◌<◌, ◌≡◌, refl, true, false, arith, test_bit, ok, panic,
}
use rainbow_os.Memory.{Mem}
use native.Mathlib.Decide.{dec_lt}
use rainbow_os.Partition.{attributes, lba_begin, search_partition, get_partition_lba}

search_partition-first :
    (n i k : ℕ) (m : Mem)
    → i ≤ k
    → k < i + n
    → test_bit (attributes m k) 7 ≡ true
    → ((j : ℕ) → i ≤ j → j < k → test_bit (attributes m j) 7 ≡ false)
    → search_partition n i m ≡ ok (lba_begin m k)
unfolding search_partition
search_partition-first zero i k m l h t f = absurd (omega arith)
search_partition-first (suc n) i k m l h t f = elim (dec_lt i k) [
  | yes lt ↦ rw (
    f i (omega arith) lt,
    search_partition-first n (i + 1) k m (omega arith) (omega arith) t
        (λ j a b. f j (omega arith) b),
  )
  | no ge ↦ let same : i ≡ k = omega arith in rw (same, t)
]

search_partition_none :
    (n i : ℕ) (m : Mem)
    → ((j : ℕ) → i ≤ j → j < i + n → test_bit (attributes m j) 7 ≡ false)
    → search_partition n i m ≡ panic
unfolding search_partition
search_partition_none zero i m f = refl
search_partition_none (suc n) i m f = rw (
  f i (omega arith) (omega arith),
  search_partition_none n (i + 1) m (λ j a b. f j (omega arith) (omega arith)),
)

-- If table `k` of the four is the first with bit 7 of its attributes set, getPartitionLBA returns
-- its starting sector.
pub get_partition_lba-first :
    (m : Mem) (k : ℕ)
    → k < 4
    → test_bit (attributes m k) 7 ≡ true
    → ((j : ℕ) → j < k → test_bit (attributes m j) 7 ≡ false)
    → get_partition_lba m ≡ ok (lba_begin m k)
unfolding get_partition_lba
get_partition_lba-first m k h t f =
    search_partition-first 4 0 k m (omega arith) (omega arith) t (λ j a b. f j b)

-- If none of the four tables has the bit, the boot panics.
pub get_partition_lba_none :
    (m : Mem)
    → ((j : ℕ) → j < 4 → test_bit (attributes m j) 7 ≡ false)
    → get_partition_lba m ≡ panic
unfolding get_partition_lba
get_partition_lba_none m f = search_partition_none 4 0 m (λ j a b. f j (omega arith))
