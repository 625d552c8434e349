-- ===== src/MemoryMap/Query.antt =====
-- queryUpperMemory on a BIOS that lists its regions and a heap from which nothing was freed.
use rainbow_os.Prelude.{
  ℕ, ◌+◌, ◌-◌, ◌*◌, ◌/◌, ◌%◌, ◌^◌, ◌≤◌, ◌<◌, ◌≡◌, refl, ◌∙◌, ◌⊎◌, inl, inr, List, [], ◌∷◌, ◌++◌,
  arith, length, length-append, ok,
}
use rainbow_os.Memory.{Mem, IsBytes, SameOutside, read32, write32}
use rainbow_os.Memory.Words.{write32-IsBytes, write32-SameOutside, read32-write32, read32-eq}
use rainbow_os.Heap.{kalloc}
use rainbow_os.Heap.Blocks.{Chain, InReserved}
use rainbow_os.Heap.Bump.{
  bump, free_at, free_at-Chain, kalloc-bump, Chain-bump, bump-kept, bump-InReserved,
  InReserved-bump,
}
use rainbow_os.MemoryMap.{Int15, query_loop, query_upper_memory}
use rainbow_os.MemoryMap.Collect.{Regions, ListsRegions, collected, query_loop-collected}

-- queryUpperMemory, when the allocations and the loop give what is said.
query_upper_memory_lem :
    (rounds fuel : ℕ) (int15 : Int15) (heap mmap size result : ℕ) (m m1 m2 m3 : Mem)
    → kalloc fuel heap 2800 m ≡ ok (mmap, m1)
    → query_loop rounds int15 mmap 0 0 m1 ≡ ok (size, m2)
    → kalloc fuel heap 8 m2 ≡ ok (result, m3)
    → query_upper_memory rounds fuel int15 heap m
      ≡ ok (result, write32 (write32 m3 result size) (result + 4) mmap)
unfolding query_upper_memory
query_upper_memory_lem rounds fuel int15 heap mmap size result m m1 m2 m3 a q a' =
    rw (a, q, a') refl

-- The struct of two words holds what it was filled with.
pub write32-pair :
    (p a b : ℕ) (m : Mem)
    → a < 2 ^ 32
    → b < 2 ^ 32
    → IsBytes m
    → let m' = write32 (write32 m p a) (p + 4) b in
      (read32 m' p ≡ a) × (read32 m' (p + 4) ≡ b) × SameOutside p 8 m m' × IsBytes m'
write32-pair p a b m ha hb bytes =
    let m1 = write32 m p a in
    let same = write32-SameOutside m1 (p + 4) b in
    (
      read32-eq m1 (write32 m1 (p + 4) b) p (λ x lo hi. same x (omega arith))
          ∙ read32-write32 m p a ha,
      read32-write32 m1 (p + 4) b hb,
      λ x o. same x (omega arith) ∙ write32-SameOutside m p a x (omega arith),
      write32-IsBytes m1 (p + 4) b (write32-IsBytes m p a bytes),
    )

module _ (regions : Regions) (count heap last room : ℕ) (ss : List ℕ) (m : Mem) where
  abbrev pub grown : List ℕ
  grown = ss ++ 2800 ∷ []

  -- The array of the entries and the struct of the result.
  abbrev pub mmap : ℕ
  mmap = free_at ss heap + 8

  abbrev pub struct : ℕ
  struct = free_at grown heap + 8

  -- What queryUpperMemory leaves: the number of regions and the array with their records.
  pub record Mapped (m' : Mem) : Type 0 where
    pub size : read32 m' struct ≡ count
    pub array : read32 m' (struct + 4) ≡ mmap
    pub entry : (k j : ℕ) → k < count → j < 20 → m' (mmap + 28 * k + j) ≡ regions k j
    pub heap_left : Chain m' last heap (bump (grown ++ 8 ∷ []) (room - 2800 - 8 - 8 - 8))
    pub kept : (x : ℕ) → InReserved (bump ss room) heap x → m' x ≡ m x
    pub bytes : IsBytes m'

  module _ (token : ℕ → ℕ) (int15 : Int15) (lists : ListsRegions regions token count int15)
      (records : (k j : ℕ) → regions k j < 2 ^ 8) (any : 0 < count) (most : count < 100) where
    module _ (m1 m2 : Mem) (c1 : Chain m1 last heap (bump grown (room - 2800 - 8)))
        (b1 : IsBytes m1) (held : (x : ℕ) → m2 x ≡ collected regions count mmap m1 x) where
      array_same : SameOutside mmap 2800 m1 m2
      array_same x o = ground (arith, held x)

      array-IsBytes : IsBytes m2
      array-IsBytes x = ground (arith, held x, b1 x, records ((x - mmap) / 28) ((x - mmap) % 28))

      array-Chain : Chain m2 last heap (bump grown (room - 2800 - 8))
      array-Chain =
          Chain-bump ss (room - 2800 - 8) last heap 2800 mmap 2800 m1 m2 array_same (omega arith)
            (omega arith) c1

      array_entry : (k j : ℕ) → k < count → j < 20 → m2 (mmap + 28 * k + j) ≡ regions k j
      array_entry k j h lt =
          let row : (mmap + 28 * k + j - mmap) / 28 ≡ k = omega arith in
          let column : (mmap + 28 * k + j - mmap) % 28 ≡ j = omega arith in
          let record_byte : regions ((mmap + 28 * k + j - mmap) / 28)
                ((mmap + 28 * k + j - mmap) % 28)
              ≡ regions k j =
            rw (row, column) refl in
          ground (arith, held (mmap + 28 * k + j), record_byte)

      struct-Mapped :
          (m3 : Mem)
          → Chain m last heap (bump ss room)
          → last + 8 ≤ 2 ^ 32
          → 2800 + 8 + (8 + 8) ≤ room
          → ((x : ℕ) → (x < heap) ⊎ InReserved (bump ss room) heap x → m1 x ≡ m x)
          → Chain m3 last heap (bump (grown ++ 8 ∷ []) (room - 2800 - 8 - 8 - 8))
          → IsBytes m3
          → ((x : ℕ) → (x < heap) ⊎ InReserved (bump grown (room - 2800 - 8)) heap x → m3 x ≡ m2 x)
          → Mapped (write32 (write32 m3 struct count) (struct + 4) mmap)
      struct-Mapped m3 c high fits k1 c3 b3 k3 =
          let rest = room - 2800 - 8 in
          let m4 = write32 (write32 m3 struct count) (struct + 4) mmap in
          let top = free_at-Chain ss room heap last m c in
          let top2 = free_at-Chain grown rest heap last m1 c1 in
          let (size, array, same, b4) =
            write32-pair struct count mmap m3 (omega arith) (omega arith) b3 in
          let before : (x : ℕ) → InReserved (bump grown rest) heap x → m4 x ≡ m2 x = λ x i.
            same x (inl (omega (arith, InReserved-bump grown rest heap x i))) ∙ k3 x (inr i) in
          record {
            size = size;
            array = array;
            entry = λ k j h lt.
                before (mmap + 28 * k + j) (
                  bump-InReserved ss rest heap 2800 (mmap + 28 * k + j) (omega arith) (omega arith))
                ∙ array_entry k j h lt;
            heap_left =
                Chain-bump grown (rest - 8 - 8) last heap 8 struct 8 m3 m4 same (omega arith)
                  (omega arith) c3;
            kept = λ x i.
                before x (bump-kept ss room rest heap 2800 x i)
                ∙ array_same x (inl (omega (arith, InReserved-bump ss room heap x i)))
                ∙ k1 x (inr i);
            bytes = b4;
          }

    -- On a BIOS that lists between 1 and 99 regions, in records of 20 bytes and with continuation
    -- values of its own, and a heap with room for the array of 100 entries and the struct,
    -- queryUpperMemory succeeds: the struct has the number of the
    -- regions and points to an array with their records in order, 28 bytes apart, and no byte that was
    -- reserved changed. As many rounds as there are regions, and two more walks than there are
    -- blocks, are enough.
    pub query_upper_memory-Mapped :
        (rounds fuel : ℕ)
        → count ≤ rounds
        → length ss + 2 < fuel
        → Chain m last heap (bump ss room)
        → IsBytes m
        → last + 8 ≤ 2 ^ 32
        → 2800 + 8 + (8 + 8) ≤ room
        → (m' : Mem) × (query_upper_memory rounds fuel int15 heap m ≡ ok (struct, m')) × Mapped m'
    query_upper_memory-Mapped rounds fuel enough walks c b high fits =
        let top = free_at-Chain ss room heap last m c in
        let (m1, e1, c1, b1, k1) =
          kalloc-bump ss room fuel heap 2800 last m c b (omega arith) (omega arith) in
        let (m2, e2, held) =
          query_loop-collected regions token count int15 lists mmap m1 most (omega arith) rounds any
            enough in
        let b2 = array-IsBytes m1 m2 c1 b1 held in
        let c2 = array-Chain m1 m2 c1 b1 held in
        let (m3, e3, c3, b3, k3) =
          kalloc-bump grown (room - 2800 - 8) fuel heap 8 last m2 c2 b2 (omega arith)
            (omega (arith, length-append ss (2800 ∷ []))) in
        (
          write32 (write32 m3 struct count) (struct + 4) mmap,
          query_upper_memory_lem rounds fuel int15 heap mmap count struct m m1 m2 m3 e1 e2 e3,
          struct-Mapped m1 m2 c1 b1 held m3 c high fits k1 c3 b3 k3,
        )
