-- ===== src/Memory/Words.antt =====
-- Reading back what was written, and what a write leaves alone.
use rainbow_os.Prelude.{◌⊎◌, ℕ, ◌+◌, ◌^◌, ◌≤◌, ◌<◌, ◌≡◌, arith}
use rainbow_os.Memory.{Mem, IsBytes, SameOutside, write8, read16, read32, write16, write32}

pub write8-SameOutside : (m : Mem) (a v : ℕ) → SameOutside a 1 m (write8 m a v)
unfolding write8
write8-SameOutside m a v x h = ground arith

pub write16-SameOutside : (m : Mem) (a v : ℕ) → SameOutside a 2 m (write16 m a v)
unfolding write16
write16-SameOutside m a v x h = ground arith

pub write32-SameOutside : (m : Mem) (a v : ℕ) → SameOutside a 4 m (write32 m a v)
unfolding write32
write32-SameOutside m a v x h = ground arith

pub read16-write16 : (m : Mem) (a v : ℕ) → v < 2 ^ 16 → read16 (write16 m a v) a ≡ v
unfolding read16 write16
read16-write16 m a v h = ground arith

pub read32-write32 : (m : Mem) (a v : ℕ) → v < 2 ^ 32 → read32 (write32 m a v) a ≡ v
unfolding read32 write32
read32-write32 m a v h = ground arith

-- Two memories with the same bytes at a place hold the same word there.
pub read16-eq :
    (m m' : Mem) (a : ℕ) → m' a ≡ m a → m' (a + 1) ≡ m (a + 1) → read16 m' a ≡ read16 m a
unfolding read16
read16-eq m m' a p q = omega arith

pub read32-eq :
    (m m' : Mem) (a : ℕ) → ((x : ℕ) → a ≤ x → x < a + 4 → m' x ≡ m x) → read32 m' a ≡ read32 m a
unfolding read32
read32-eq m m' a h = omega (
  arith,
  h a (omega arith) (omega arith),
  h (a + 1) (omega arith) (omega arith),
  h (a + 2) (omega arith) (omega arith),
  h (a + 3) (omega arith) (omega arith),
)

pub read32-lt : (m : Mem) (a : ℕ) → IsBytes m → read32 m a < 2 ^ 32
unfolding read32
read32-lt m a h = omega (arith, h a, h (a + 1), h (a + 2), h (a + 3))

pub write8-IsBytes : (m : Mem) (a v : ℕ) → IsBytes m → IsBytes (write8 m a v)
unfolding write8
write8-IsBytes m a v h x = ground (arith, h x)

pub write32-IsBytes : (m : Mem) (a v : ℕ) → IsBytes m → IsBytes (write32 m a v)
unfolding write32
write32-IsBytes m a v b =
    write8-IsBytes _ _ _ (write8-IsBytes _ _ _ (write8-IsBytes _ _ _ (write8-IsBytes m _ _ b)))

-- A word beside the one that is written.
pub read32-write32_apart :
    (m : Mem) (a b v : ℕ) → (b + 4 ≤ a) ⊎ (a + 4 ≤ b) → read32 (write32 m a v) b ≡ read32 m b
read32-write32_apart m a b v apart =
    read32-eq m (write32 m a v) b (λ x lo hi. write32-SameOutside m a v x (omega arith))
