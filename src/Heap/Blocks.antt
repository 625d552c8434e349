-- ===== src/Heap/Blocks.antt =====
-- The abstract heap: a list of blocks, each a header and the bytes behind it, and what allocation
-- and freeing mean on such lists.
use rainbow_os.Prelude.{
  ℕ, ◌+◌, ◌-◌, ◌^◌, ◌≤◌, ◌<◌, ◌≡◌, ◌⊎◌, Bool, true, false, ◌||◌, Option, none, some, List, [], ◌∷◌,
  arith, ltb, ◌==◌, if◌then◌else◌,
}
use rainbow_os.Memory.{Mem}
use rainbow_os.Heap.{get_next, get_reserved}

pub record Block : Type 0 where
  pub size : ℕ
  pub reserved : Bool

abbrev pub block : ℕ → Bool → Block
block n r = record { size = n; reserved = r }

-- The address of the block behind `b`, which begins at `e`.
abbrev pub next : ℕ → Block → ℕ
next e b = e + 8 + b.size

-- From `e` on the memory holds entries for the blocks, back to back, and then the entry at `last`
-- that closes the heap.
abbrev pub Chain : Mem → ℕ → ℕ → List Block → Type 0
Chain m last e [] =
    (e ≡ last) × (last + 8 ≤ 2 ^ 32) × (get_next m e ≡ 0) × (get_reserved m e ≡ true)
Chain m last e (b ∷ bs) =
    (get_next m e ≡ next e b) × (get_reserved m e ≡ b.reserved) × Chain m last (next e b) bs

-- `x` is an address in the bytes of a reserved block.
abbrev pub InReserved : List Block → ℕ → ℕ → Type 0
InReserved [] e x = ⊥
InReserved (b ∷ bs) e x =
    ((b.reserved ≡ true) × (e + 8 ≤ x) × (x < next e b)) ⊎ InReserved bs (next e b) x

-- The block that an allocation takes, cut to size. The rest becomes a block of its own.
abbrev pub take_block : ℕ → ℕ → List Block → List Block
take_block available size bs =
    if available == size
    then block size true ∷ bs
    else block size true ∷ block (available - size - 8) false ∷ bs

-- First fit.
abbrev pub alloc : List Block → ℕ → ℕ → ℕ × List Block
alloc [] e size = (0, [])
alloc (b ∷ bs) e size =
    if b.reserved || ltb b.size size
    then (let (p, bs') = alloc bs (next e b) size in (p, b ∷ bs'))
    else (e + 8, take_block b.size size bs)

-- Every free block that could serve the request fits it, or leaves room for a header behind it.
abbrev pub SplitsWell : List Block → ℕ → Type 0
SplitsWell [] size = Unit {0}
SplitsWell (b ∷ bs) size =
    ((b.reserved ≡ true) ⊎ ((b.size ≤ size) ⊎ (size + 8 ≤ b.size))) × SplitsWell bs size

-- A freed block of the given size takes in the free blocks behind it.
abbrev pub merge : ℕ → List Block → List Block
merge size [] = block size false ∷ []
merge size (b ∷ bs) = if b.reserved then block size false ∷ b ∷ bs else merge (size + 8 + b.size) bs

-- Frees the block whose bytes begin at `ptr`, if there is one.
abbrev pub release : List Block → ℕ → ℕ → Option (List Block)
release [] e ptr = none
release (b ∷ bs) e ptr =
    if e + 8 == ptr
    then some (merge b.size bs)
    else elim (release bs (next e b) ptr) [ none ↦ none | some bs' ↦ some (b ∷ bs') ]

pub Chain-le : (m : Mem) (last e : ℕ) (bs : List Block) → Chain m last e bs → e ≤ last
Chain-le m last e [] c = omega arith
Chain-le m last e (b ∷ bs) c = omega (arith, Chain-le m last (next e b) bs c.2)

pub Chain-lt : (m : Mem) (last e : ℕ) (bs : List Block) → Chain m last e bs → last + 8 ≤ 2 ^ 32
Chain-lt m last e [] c = c.1
Chain-lt m last e (b ∷ bs) c = Chain-lt m last (next e b) bs c.2
