-- ===== src/Heap/Header.antt =====
-- The entry's header in memory: reading back what the setters wrote, and what they leave alone.
use rainbow_os.Prelude.{
  ℕ, ◌+◌, ◌^◌, ◌≤◌, ◌<◌, ◌≡◌, ◌∙◌, Bool, true, false, List, [], ◌∷◌, arith, ◌==◌,
}
use rainbow_os.Memory.{Mem, SameOutside, write8}
use rainbow_os.Memory.Words.{write8-SameOutside, write32-SameOutside, read32-write32, read32-eq}
use rainbow_os.Heap.{get_next, get_reserved, set_next, set_reserved, init, get_size}
use rainbow_os.Heap.Blocks.{Block, next, Chain}

pub get_next-set_next : (m : Mem) (e n : ℕ) → n < 2 ^ 32 → get_next (set_next m e n) e ≡ n
unfolding get_next set_next
get_next-set_next m e n h = read32-write32 m e n h

pub get_reserved-set_reserved :
    (m : Mem) (e : ℕ) (b : Bool) → get_reserved (set_reserved m e b) e ≡ b
unfolding get_reserved set_reserved write8
get_reserved-set_reserved m e true = ground arith
get_reserved-set_reserved m e false = ground arith

pub set_next-SameOutside : (m : Mem) (e n : ℕ) → SameOutside e 4 m (set_next m e n)
unfolding set_next
set_next-SameOutside m e n = write32-SameOutside m e n

pub set_reserved-SameOutside :
    (m : Mem) (e : ℕ) (b : Bool) → SameOutside (e + 4) 1 m (set_reserved m e b)
unfolding set_reserved
set_reserved-SameOutside m e b = write8-SameOutside m (e + 4) _

-- The two fields are read from the five bytes of the header alone.
pub get_next-eq :
    (m m' : Mem) (e : ℕ) → ((x : ℕ) → e ≤ x → x < e + 4 → m' x ≡ m x) → get_next m' e ≡ get_next m e
unfolding get_next
get_next-eq m m' e same = read32-eq m m' e same

pub get_reserved-eq :
    (m m' : Mem) (e : ℕ) → m' (e + 4) ≡ m (e + 4) → get_reserved m' e ≡ get_reserved m e
unfolding get_reserved
get_reserved-eq m m' e same = rw same

-- What init leaves: both fields set, and nothing written past the fifth byte.
pub init-fields :
    (m : Mem) (e n : ℕ)
    → n < 2 ^ 32
    → (get_next (init m e n) e ≡ n)
      × (get_reserved (init m e n) e ≡ (n == 0))
      × SameOutside e 5 m (init m e n)
unfolding init
init-fields m e n h = (
  get_next-set_next _ e n h,
  get_reserved-eq _ _ e (set_next-SameOutside _ e n (e + 4) (omega arith))
      ∙ get_reserved-set_reserved m e (n == 0),
  λ x o.
      set_next-SameOutside _ e n x (omega arith)
      ∙ set_reserved-SameOutside m e (n == 0) x (omega arith),
)

-- A chain stands on the bytes from its first header on.
pub Chain-frame :
    (m m' : Mem) (last e : ℕ) (bs : List Block)
    → ((x : ℕ) → e ≤ x → m' x ≡ m x)
    → Chain m last e bs
    → Chain m' last e bs
Chain-frame m m' last e [] same c = (
  c.0,
  c.1,
  get_next-eq m m' e (λ x h _. same x h) ∙ c.2,
  get_reserved-eq m m' e (same (e + 4) (omega arith)) ∙ c.3,
)
Chain-frame m m' last e (b ∷ bs) same c = (
  get_next-eq m m' e (λ x h _. same x h) ∙ c.0,
  get_reserved-eq m m' e (same (e + 4) (omega arith)) ∙ c.1,
  Chain-frame m m' last (next e b) bs (λ x h. same x (omega arith)) c.2,
)

-- The size that an entry of the chain computes is its block's.
pub get_size-next :
    (m : Mem) (e n : ℕ) → get_next m e ≡ e + 8 + n → e + 8 + n < 2 ^ 32 → get_size m e ≡ n
unfolding get_size
get_size-next m e n h lt = rw h (omega arith)
