-- ===== src/Xtoa/Reverse.antt =====
-- The last loop of `xtoa`: it turns the string round.
use rainbow_os.Prelude.{
  ◌*◌, ◌-◌, ◌==◌, ℕ, zero, suc, ◌+◌, ◌-◌, ◌*◌, ◌/◌, ◌≤◌, ◌<◌, ◌≡◌, refl, Bool, ◌&&◌, ◌||◌, arith,
  ltb, leb, ◌==◌, if◌then◌else◌,
}
use rainbow_os.Memory.{Mem, IsBytes, SameOutside, write8}
use rainbow_os.Memory.Words.{write8-IsBytes}
use rainbow_os.Xtoa.{xtoa_swap}
use rainbow_os.Xtoa.Digits.{digit_value, low_first}

-- The offsets that rounds `i` to `i + n - 1` have exchanged.
abbrev swapped : ℕ → ℕ → ℕ → ℕ → Bool
swapped i n index j = (leb i j && ltb j (i + n)) || (leb i (index - j) && ltb (index - j) (i + n))

-- One round.
exchange : ℕ → ℕ → ℕ → Mem → Mem
exchange str i k m = write8 (write8 m (str + i) (m (str + k))) (str + k) (m (str + i))

exchange_lem :
    (str i k : ℕ) (m : Mem)
    → IsBytes m
    → (j : ℕ)
    → exchange str i k m (str + j)
      ≡ (if j == i then m (str + k) else if j == k then m (str + i) else m (str + j))
unfolding exchange write8
exchange_lem str i k m b j = ground (arith, b (str + k), b (str + i))

exchange-IsBytes : (str i k : ℕ) (m : Mem) → IsBytes m → IsBytes (exchange str i k m)
unfolding exchange
exchange-IsBytes str i k m b = write8-IsBytes _ _ _ (write8-IsBytes _ _ _ b)

xtoa_swap-suc :
    (n i index str : ℕ) (m : Mem)
    → xtoa_swap (suc n) i index str m ≡ xtoa_swap n (i + 1) index str (exchange str i (index - i) m)
unfolding xtoa_swap exchange
xtoa_swap-suc n i index str m = refl

xtoa_swap_lem :
    (n i index str : ℕ) (m : Mem)
    → IsBytes m
    → i + n ≤ index / 2 + 1
    → (j : ℕ) → j ≤ index
    → xtoa_swap n i index str m (str + j)
      ≡ (if swapped i n index j then m (str + (index - j)) else m (str + j))
xtoa_swap_lem zero i index str m b h j le = unfold xtoa_swap in ground arith
xtoa_swap_lem (suc n) i index str m b h j le =
    let m' = exchange str i (index - i) m in
    rw
      (
        xtoa_swap-suc,
        xtoa_swap_lem n (i + 1) index str m' (exchange-IsBytes str i (index - i) m b) (omega arith)
            j le,
        exchange_lem str i (index - i) m b j,
        exchange_lem str i (index - i) m b (index - j),
      )
      (ground arith)

-- The whole loop turns the `index + 1` characters round.
pub xtoa_swap-reverse :
    (index str : ℕ) (m : Mem)
    → IsBytes m
    → (j : ℕ) → j ≤ index
    → xtoa_swap (index / 2 + 1) 0 index str m (str + j) ≡ m (str + (index - j))
xtoa_swap-reverse index str m b j le =
    ground (arith, xtoa_swap_lem (index / 2 + 1) 0 index str m b (omega arith) j le)

pub xtoa_swap-SameOutside :
    (n i index str : ℕ) (m : Mem)
    → i + n ≤ index / 2 + 1
    → SameOutside str (index + 1) m (xtoa_swap n i index str m)
xtoa_swap-SameOutside zero i index str m h x o = unfold xtoa_swap in refl
xtoa_swap-SameOutside (suc n) i index str m h x o =
    rw
      (
        xtoa_swap-suc,
        xtoa_swap-SameOutside n (i + 1) index str (exchange str i (index - i) m) (omega arith) x o,
      )
      (unfold exchange write8 in ground arith)

-- Read from the front, the turned string has the value that the digits had lowest first.
abbrev pub numeral : Mem → ℕ → ℕ → ℕ → ℕ
numeral m str base zero = 0
numeral m str base (suc n) = numeral m str base n * base + digit_value (m (str + n))

pub numeral-low_first :
    (m m' : Mem) (str base len n i : ℕ)
    → i + n ≡ len
    → ((j : ℕ) → j < len → m' (str + j) ≡ m (str + (len - 1 - j)))
    → numeral m' str base n ≡ low_first m str base i n
numeral-low_first m m' str base len zero i e turned = refl
numeral-low_first m m' str base len (suc n) i e turned =
    let here : len - 1 - n ≡ i = omega arith in
    rw
      (
        numeral-low_first m m' str base len n (i + 1) (omega arith) turned,
        turned n (omega arith),
        here,
      )
      (grind arith)
