-- ===== src/Multiboot/Search.antt =====
-- multibootHeaderSearch.
use rainbow_os.Prelude.{
  ℕ, zero, suc, ◌+◌, ◌*◌, ◌^◌, ◌≤◌, ◌<◌, ◌≡◌, refl, sym, ap, subst, ◌∙◌, true, false, arith, add32,
  ok, out_of_fuel,
}
use rainbow_os.Memory.{Mem}
use native.Mathlib.Decide.{dec_lt}
use rainbow_os.Multiboot.{is_header, goes_on, search_header, multiboot_header_search}

goes_on_early :
    (ptr size header : ℕ)
    → ptr + 8192 < 2 ^ 32
    → header ≤ ptr + 8180
    → goes_on ptr size header ≡ true
unfolding goes_on
goes_on_early ptr size header h le = ground arith

search_round :
    (fuel ptr size header : ℕ) (m : Mem)
    → ptr + 8192 < 2 ^ 32
    → header ≤ ptr + 8180
    → is_header m header ≡ false
    → search_header (suc fuel) ptr size header m ≡ search_header fuel ptr size (header + 4) m
unfolding search_header
search_round fuel ptr size header m h le miss =
    let next : add32 header 4 ≡ header + 4 = omega arith in
    let cut : goes_on ptr size header ≡ true = goes_on_early ptr size header h le in
    rw (cut, miss, next)

search_hit :
    (fuel ptr size header : ℕ) (m : Mem)
    → ptr + 8192 < 2 ^ 32
    → header ≤ ptr + 8180
    → is_header m header ≡ true
    → search_header (suc fuel) ptr size header m ≡ ok header
unfolding search_header
search_hit fuel ptr size header m h le hit = rw (goes_on_early ptr size header h le, hit)

-- The address in the first 8180 bytes of the file at which the search, from `ptr + 4 * i` on, ends.
search_first :
    (fuel ptr size i k : ℕ) (m : Mem)
    → ptr + 8192 < 2 ^ 32
    → i ≤ k
    → 4 * k ≤ 8180
    → k < i + fuel
    → is_header m (ptr + 4 * k) ≡ true
    → ((j : ℕ) → i ≤ j → j < k → is_header m (ptr + 4 * j) ≡ false)
    → search_header fuel ptr size (ptr + 4 * i) m ≡ ok (ptr + 4 * k)
search_first zero ptr size i k m h le most enough hit miss = absurd (omega arith)
search_first (suc fuel) ptr size i k m h le most enough hit miss = elim (dec_lt i k) [
  | yes lt ↦
      search_round fuel ptr size (ptr + 4 * i) m h (omega arith) (miss i (omega arith) lt)
      ∙ ap (λ (q : ℕ). search_header fuel ptr size q m) (omega arith)
      ∙ search_first fuel ptr size (i + 1) k m h (omega arith) most (omega arith) hit
          (λ j a b. miss j (omega arith) b)
  | no ge ↦
      let same : i ≡ k = omega arith in
      subst (λ (q : ℕ). search_header (suc fuel) ptr size (ptr + 4 * q) m ≡ ok (ptr + 4 * k))
        (sym same) (search_hit fuel ptr size (ptr + 4 * k) m h (omega arith) hit)
]

-- If a header stands at a multiple of 4 in the first 8180 bytes of the file, and none before it, the
-- search returns it, whatever the size of the file. One round for each address is enough.
pub multiboot_header_search-first :
    (fuel ptr size k : ℕ) (m : Mem)
    → ptr + 8192 < 2 ^ 32
    → 4 * k ≤ 8180
    → k < fuel
    → is_header m (ptr + 4 * k) ≡ true
    → ((j : ℕ) → j < k → is_header m (ptr + 4 * j) ≡ false)
    → multiboot_header_search fuel ptr size m ≡ ok (ptr + 4 * k)
unfolding multiboot_header_search
multiboot_header_search-first fuel ptr size k m h most enough hit miss =
    ap (λ (q : ℕ). search_header fuel ptr size q m) (omega arith)
    ∙ search_first fuel ptr size 0 k m h (omega arith) most (omega arith) hit (λ j a b. miss j b)

-- Past a header that is none the search goes on, if its condition lets it.
search_pass :
    (fuel ptr size header : ℕ) (m : Mem)
    → header + 4 < 2 ^ 32
    → goes_on ptr size header ≡ true
    → is_header m header ≡ false
    → search_header (suc fuel) ptr size header m ≡ search_header fuel ptr size (header + 4) m
unfolding search_header
search_pass fuel ptr size header m h on miss =
    let next : add32 header 4 ≡ header + 4 = omega arith in rw (on, miss, next)

search_stop :
    (fuel ptr size header : ℕ) (m : Mem)
    → goes_on ptr size header ≡ false
    → search_header (suc fuel) ptr size header m ≡ ok 0
unfolding search_header
search_stop fuel ptr size header m stop = rw stop

search_all :
    (fuel ptr size i : ℕ) (m : Mem)
    → ptr + size < 2 ^ 32
    → 8184 < size
    → i ≤ 2046
    → 2046 < i + fuel
    → ((j : ℕ) → j < 2046 → is_header m (ptr + 4 * j) ≡ false)
    → search_header fuel ptr size (ptr + 4 * i) m ≡ ok 0
unfolding goes_on
search_all zero ptr size i m h long le enough miss = absurd (omega arith)
search_all (suc fuel) ptr size i m h long le enough miss = elim (dec_lt i 2046) [
  | yes lt ↦
      search_pass fuel ptr size (ptr + 4 * i) m (omega arith) (ground arith) (miss i lt)
      ∙ ap (λ (q : ℕ). search_header fuel ptr size q m) (omega arith)
      ∙ search_all fuel ptr size (i + 1) m h long (omega arith) (omega arith) miss
  | no ge ↦ search_stop fuel ptr size (ptr + 4 * i) m (ground arith)
]

-- In a file of more than 8184 bytes without a header in the first 8184, the search ends with null, and
-- 2047 rounds are enough.
pub multiboot_header_search_none :
    (fuel ptr size : ℕ) (m : Mem)
    → ptr + size < 2 ^ 32
    → 8184 < size
    → 2046 < fuel
    → ((j : ℕ) → j < 2046 → is_header m (ptr + 4 * j) ≡ false)
    → multiboot_header_search fuel ptr size m ≡ ok 0
unfolding multiboot_header_search
multiboot_header_search_none fuel ptr size m h long enough miss =
    ap (λ (q : ℕ). search_header fuel ptr size q m) (omega arith)
    ∙ search_all fuel ptr size 0 m h long (omega arith) (omega arith) miss

search_none : (ptr size header : ℕ) (m : Mem) → search_header zero ptr size header m ≡ out_of_fuel
unfolding search_header
search_none ptr size header m = refl

search_on :
    (fuel ptr size i : ℕ) (m : Mem)
    → size ≤ 8184
    → ptr + 8192 < 2 ^ 32
    → ptr + 4 * (i + fuel) < 2 ^ 32
    → ((j : ℕ) → j < i + fuel → is_header m (ptr + 4 * j) ≡ false)
    → search_header fuel ptr size (ptr + 4 * i) m ≡ out_of_fuel
unfolding goes_on
search_on zero ptr size i m short low h miss = search_none ptr size (ptr + 4 * i) m
search_on (suc fuel) ptr size i m short low h miss =
    search_pass fuel ptr size (ptr + 4 * i) m (omega arith) (ground arith) (miss i (omega arith))
    ∙ ap (λ (q : ℕ). search_header fuel ptr size q m) (omega arith)
    ∙ search_on fuel ptr size (i + 1) m short low (omega arith) (λ j lt. miss j (omega arith))

-- In a file of at most 8184 bytes the search does not stop at the end of the file: without a
-- header it runs on through the memory behind, for as long as that holds none and addresses do
-- not wrap.
pub multiboot_header_search_endless :
    (fuel ptr size : ℕ) (m : Mem)
    → size ≤ 8184
    → ptr + 8192 < 2 ^ 32
    → ptr + 4 * fuel < 2 ^ 32
    → ((j : ℕ) → j < fuel → is_header m (ptr + 4 * j) ≡ false)
    → multiboot_header_search fuel ptr size m ≡ out_of_fuel
unfolding multiboot_header_search
multiboot_header_search_endless fuel ptr size m short low h miss =
    ap (λ (q : ℕ). search_header fuel ptr size q m) (omega arith)
    ∙ search_on fuel ptr size 0 m short low (omega arith) (λ j lt. miss j (omega arith))
