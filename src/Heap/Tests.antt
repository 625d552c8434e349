-- ===== src/Heap/Tests.antt =====
-- A heap of two blocks, the first reserved, at 4096.
use rainbow_os.Prelude.{
  ℕ, ◌+◌, ◌-◌, ◌^◌, ◌≡◌, refl, inl, inr, true, false, ◌||◌, List, [], ◌∷◌, arith, ◌==◌,
  if◌then◌else◌, ok,
}
use rainbow_os.Memory.{Mem, read32}
use rainbow_os.Heap.{get_next, get_reserved, get_size, allocate, kalloc, kfree, reserve}
use rainbow_os.Heap.Blocks.{block, Block, Chain, InReserved, alloc, SplitsWell, release}
use rainbow_os.Heap.Allocate.{Allocates, allocate-Allocates}
use rainbow_os.Heap.Free.{Releases, kfree-Releases}
use rainbow_os.Heap.Safety.{Serves, kalloc-Serves}
use rainbow_os.Heap.Session.{allocating, freeing, session, Ends, session-Ends}
use rainbow_os.Heap.Split.{reserve_overlaps}

abbrev two_blocks : Mem
two_blocks x =
    if x == 4096 || x == 4097 || x == 4113
    then 16
    else if x == 4112
    then 0x38
    else if x == 4100 || x == 4156
    then 1
    else 0

abbrev blocks : List Block
blocks = block 8 true ∷ block 32 false ∷ []

two_blocks-Chain : Chain two_blocks 4152 4096 blocks
unfolding get_next get_reserved read32
two_blocks-Chain = (refl, refl, (refl, refl, (refl, omega arith, refl, refl)))

blocks-SplitsWell : SplitsWell blocks 16
blocks-SplitsWell = (inl refl, (inr (inr (omega arith)), tt))

session-Ends_example :
    Ends 4152 4096 (session 6 4096 (allocating 16 ∷ freeing 4104 ∷ allocating 8 ∷ []) two_blocks)
session-Ends_example =
    session-Ends (allocating 16 ∷ freeing 4104 ∷ allocating 8 ∷ []) blocks 6 4096 4152 two_blocks
      two_blocks-Chain (refl, (refl, tt)) (refl, (refl, tt)) (omega arith)

kalloc-Serves_example :
    (p : ℕ) × (bs' : List Block) × (m' : Mem) × (kalloc 3 4096 16 two_blocks ≡ ok (p, m'))
    × Chain m' 4152 4096 bs'
    × Serves blocks 4096 16 p bs'
    × ((x : ℕ) → InReserved blocks 4096 x → m' x ≡ two_blocks x)
kalloc-Serves_example =
    kalloc-Serves blocks 3 4096 16 4152 two_blocks two_blocks-Chain blocks-SplitsWell (omega arith)

kfree-Releases_example :
    Releases two_blocks 4152 4096 (release blocks 4096 4104) (kfree 3 4096 4104 two_blocks)
kfree-Releases_example =
    kfree-Releases blocks 3 4096 4104 4152 two_blocks two_blocks-Chain (omega arith)

allocate-Allocates_example :
    Allocates two_blocks 4152 4096 blocks (alloc blocks 4096 16) (allocate 3 4096 16 two_blocks)
allocate-Allocates_example =
    allocate-Allocates blocks 3 4096 16 4152 two_blocks two_blocks-Chain blocks-SplitsWell
      (omega arith)

two_blocks_next : get_next two_blocks 4112 ≡ 4112 + 8 + 28 + 4
unfolding get_next read32
two_blocks_next = refl

reserve_overlaps_example :
    let m' = reserve 4112 28 (28 + 4) two_blocks in
    (get_next m' 4112 ≡ 4148) × (get_reserved m' 4148 ≡ false) × (get_size m' 4148 ≡ 2 ^ 32 + 4 - 8)
reserve_overlaps_example =
    reserve_overlaps two_blocks 4112 28 4 two_blocks_next (omega arith) (omega arith) (omega arith)
