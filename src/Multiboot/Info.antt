-- ===== src/Multiboot/Info.antt =====
-- buildMultibootInfo on a BIOS that lists its memory and a heap from which nothing was freed.
use rainbow_os.Prelude.{
  ℕ, ◌+◌, ◌-◌, ◌*◌, ◌^◌, ◌≤◌, ◌<◌, ◌≡◌, refl, sym, ap, subst, ◌∙◌, ◌≢◌, ◌⊎◌, inl, inr, true, false,
  List, [], ◌∷◌, ◌++◌, arith, ◌==◌, if◌then◌else◌, length, length-append, test_bit, ok,
}
use rainbow_os.Memory.{Mem, IsBytes, read32, write32}
use rainbow_os.Memory.Words.{
  write32-SameOutside, read32-write32, read32-eq, write32-IsBytes, read32-write32_apart,
}
use rainbow_os.Heap.{kalloc}
use rainbow_os.Heap.Blocks.{Chain, InReserved}
use rainbow_os.Heap.Bump.{
  bump, free_at, free_at-Chain, free_at-append, kalloc-bump, Chain-bump, bump-kept, bump-InReserved,
  InReserved-bump,
}
use rainbow_os.MemoryMap.{
  Int12, Int15, query_lower_memory, query_upper_memory, get_upper_memory_size,
}
use rainbow_os.MemoryMap.Total.{get_upper_memory_size_misplaced}
use rainbow_os.MemoryMap.Collect.{Regions, ListsRegions}
use rainbow_os.MemoryMap.Query.{Mapped, query_upper_memory-Mapped}
use rainbow_os.Multiboot.{
  info_size, flags, fill_memory, fill_device, unsupported, build_multiboot_info,
}
use rainbow_os.Multiboot.Table.{
  Describes, filled, filled-Describes, filled-SameOutside, fill_device-Describes,
}

-- The flags of a header whose bytes are the same in two memories.
flags-eq :
    (m m' : Mem) (header : ℕ)
    → ((x : ℕ) → header ≤ x → x < header + 12 → m' x ≡ m x)
    → flags m' header ≡ flags m header
unfolding flags
flags-eq m m' header same =
    read32-eq m m' (header + 4) (λ x lo hi. same x (omega arith) (omega arith))

-- fill_memory, when the BIOS and queryUpperMemory give what is said.
fill_memory_lem :
    (rounds fuel : ℕ) (int12 : Int12) (int15 : Int15) (heap header info lower upper : ℕ)
    (m m2 : Mem)
    → test_bit (flags m header) 0 ≡ true
    → int12 m ≡ (lower, m)
    → lower ≢ 0
    → query_upper_memory rounds fuel int15 heap (write32 m (info + 4) lower) ≡ ok (upper, m2)
    → fill_memory rounds fuel int12 int15 heap header info m ≡ ok (filled info upper m2)
unfolding fill_memory query_lower_memory
fill_memory_lem rounds fuel int12 int15 heap header info lower upper m m2 asked low some_memory q =
    let positive : (lower == 0) ≡ false = ground arith in rw (asked, low, positive, q) refl

-- buildMultibootInfo, when its parts give what is said.
build_multiboot_info_lem :
    (rounds fuel : ℕ) (int12 : Int12) (int15 : Int15) (heap header device info : ℕ) (m m1 m2 : Mem)
    → kalloc fuel heap info_size m ≡ ok (info, m1)
    → fill_memory rounds fuel int12 int15 heap header info (write32 m1 info 0) ≡ ok m2
    → unsupported (flags (fill_device header info device m2) header) ≡ false
    → build_multiboot_info rounds fuel int12 int15 heap header device m
      ≡ ok (info, fill_device header info device m2)
unfolding build_multiboot_info
build_multiboot_info_lem rounds fuel int12 int15 heap header device info m m1 m2 a f u =
    rw (a, f, u) refl

-- The BIOS: int 12h gives the size of the lower memory, int 15h the regions, of which the first has a
-- type from 1 to 255.
pub record Answers (regions : Regions) (token : ℕ → ℕ) (count lower : ℕ) (int12 : Int12)
    (int15 : Int15) : Type 0 where
  pub lists : ListsRegions regions token count int15
  pub records : (k j : ℕ) → regions k j < 2 ^ 8
  pub any : 0 < count
  pub typed : regions 0 16 ≢ 0
  pub most : count < 100
  pub gives : (q : Mem) → int12 q ≡ (lower, q)
  pub lower_any : lower ≢ 0
  pub lower_fits : lower < 2 ^ 32

module _ (regions : Regions) (token : ℕ → ℕ) (count lower : ℕ) (int12 : Int12) (int15 : Int15)
    (bios : Answers regions token count lower int12 int15) (heap last room header device : ℕ)
    (ss : List ℕ) (m : Mem) where
  -- The table, the array of the map and the struct of queryUpperMemory, in the order of the allocations.
  abbrev pub info : ℕ
  info = free_at ss heap + 8

  abbrev with_info : List ℕ
  with_info = ss ++ info_size ∷ []

  abbrev rest : ℕ
  rest = room - info_size - 8

  abbrev pub map_array : ℕ
  map_array = free_at with_info heap + 8

  abbrev upper : ℕ
  upper = free_at (with_info ++ 2800 ∷ []) heap + 8

  -- A heap with room for the three blocks, and a header in it with bit 0 of its flags set and
  -- no flag that is not supported.
  pub record Asks : Type 0 where
    pub chain : Chain m last heap (bump ss room)
    pub bytes : IsBytes m
    pub high : last + 8 ≤ 2 ^ 32
    pub fits : info_size + 8 + (2800 + 8 + (8 + 8)) ≤ room
    pub in_heap : (x : ℕ) → header ≤ x → x < header + 12 → InReserved (bump ss room) heap x
    pub memory : test_bit (flags m header) 0 ≡ true
    pub supported : unsupported (flags m header) ≡ false
    pub device_fits : device < 2 ^ 32

  -- What the kernel finds in the table.
  pub record Informs (m' : Mem) : Type 0 where
    pub words :
        Describes m' info
          (if test_bit (flags m header) 1 then 67 else 65)
          lower
          0
          (count * 24)
          map_array
    pub boot_device : test_bit (flags m header) 1 ≡ true → read32 m' (info + 12) ≡ device
    pub entry : (k j : ℕ) → k < count → j < 20 → m' (map_array + 28 * k + j) ≡ regions k j

  -- The memory with the flags cleared and the lower size stored.
  abbrev begun : Mem → Mem
  begun m1 = write32 (write32 m1 info 0) (info + 4) lower

  abbrev finished : Mem → Mem
  finished m2 = fill_device header info device (filled info upper m2)

  map_array_lem : map_array ≡ info + info_size + 8
  map_array_lem = omega (arith, free_at-append ss heap info_size)

  upper_lem : upper ≡ map_array + 2808
  upper_lem = omega (arith, free_at-append with_info heap 2800)

  module _ (asks : Asks) (m1 m2 : Mem)
      (kept : (x : ℕ) → (x < heap) ⊎ InReserved (bump ss room) heap x → m1 x ≡ m x)
      (mapped : Mapped regions count heap last rest with_info (begun m1) m2) where
    header_below : (x : ℕ) → header ≤ x → x < header + 12 → x < info
    header_below x lo hi = omega (arith, InReserved-bump ss room heap x (asks.in_heap x lo hi))

    begun_header : flags (write32 m1 info 0) header ≡ flags m header
    begun_header = flags-eq m (write32 m1 info 0) header (λ x lo hi.
        write32-SameOutside m1 info 0 x (inl (header_below x lo hi))
        ∙ kept x (inr (asks.in_heap x lo hi)))

    filled_header : flags (filled info upper m2) header ≡ flags m header
    filled_header = flags-eq m (filled info upper m2) header (λ x lo hi.
        let below = header_below x lo hi in
        filled-SameOutside m2 info upper x (inl below)
        ∙ mapped.kept x (bump-kept ss room rest heap info_size x (asks.in_heap x lo hi))
        ∙ write32-SameOutside (write32 m1 info 0) (info + 4) lower x (omega arith)
        ∙ write32-SameOutside m1 info 0 x (omega arith)
        ∙ kept x (inr (asks.in_heap x lo hi)))

    -- The words of the table before the map is asked for.
    begun_word : (b : ℕ) → info ≤ b → b + 4 ≤ info + info_size → read32 m2 b ≡ read32 (begun m1) b
    begun_word b lo hi = read32-eq (begun m1) m2 b (λ x l h.
        mapped.kept x (bump-InReserved ss rest heap info_size x (omega arith) (omega arith)))

    -- The type of the first region is the upper half of the length that getUpperMemorySize reads.
    upper_size : get_upper_memory_size m2 upper ≡ 0
    unfolding read32
    upper_size =
        let first : m2 (map_array + 28 * 0 + 16) ≡ regions 0 16 =
          mapped.entry 0 16 bios.any (omega arith) in
        let at : map_array + 28 * 0 + 16 ≡ read32 m2 (upper + 4) + 16 =
          omega (arith, mapped.array) in
        let low : m2 (read32 m2 (upper + 4) + 16) ≡ regions 0 16 = sym (ap m2 at) ∙ first in
        get_upper_memory_size_misplaced m2 upper _ _ _ mapped.bytes
          (omega (arith, mapped.size, bios.any)) (ground (arith, low, bios.typed))
          (refl, refl, refl)

    described :
        last ≤ 2 ^ 32
        → map_array < 2 ^ 32
        → Describes (filled info upper m2) info 65 lower 0 (count * 24) map_array
    described high fits =
        filled-Describes m2 info upper lower 0 count map_array
          (omega (arith, map_array_lem, upper_lem))
          (begun_word info (omega arith) (omega arith)
            ∙ read32-write32_apart (write32 m1 info 0) (info + 4) info lower (omega arith)
            ∙ read32-write32 m1 info 0 (omega arith))
          (begun_word (info + 4) (omega arith) (omega arith)
            ∙ read32-write32 (write32 m1 info 0) (info + 4) lower bios.lower_fits)
          mapped.size mapped.array upper_size (omega arith) bios.most fits

    finished_parts :
        map_array < 2 ^ 32
        → Informs (finished m2) × (unsupported (flags (finished m2) header) ≡ false)
    finished_parts fits =
        let m5 = filled info upper m2 in
        let (words, boot, same) =
          fill_device-Describes m5 header info device lower 0 (count * 24) map_array
            asks.device_fits (described (omega (arith, asks.high)) fits) in
        (
          record {
            words =
                subst
                  (λ (f : ℕ).
                    Describes (finished m2) info (if test_bit f 1 then 67 else 65) lower 0
                      (count * 24) map_array)
                  filled_header words;
            boot_device =
                subst (λ (f : ℕ). test_bit f 1 ≡ true → read32 (finished m2) (info + 12) ≡ device)
                  filled_header boot;
            entry = λ k j h lt.
                same (map_array + 28 * k + j) (omega (arith, map_array_lem))
                ∙ filled-SameOutside m2 info upper (map_array + 28 * k + j)
                    (omega (arith, map_array_lem))
                ∙ mapped.entry k j h lt;
          },
          subst (λ (f : ℕ). unsupported f ≡ false)
              (sym (
                flags-eq m5 (finished m2) header (λ x lo hi. same x (inl (header_below x lo hi)))
                ∙ filled_header))
              asks.supported,
        )

  -- For a header in a reserved block with bit 0 of its flags set, which buildMultibootInfo takes for the
  -- request of the memory, and no unsupported flag, buildMultibootInfo returns the table. Its flags say
  -- that the sizes, the map and, if bit 1 is set, the boot device are there. mem_lower is what int 12h
  -- gave, mem_upper is 0, as getUpperMemorySize misreads the records of the BIOS, mmap_addr is
  -- the array of the records of all regions, and mmap_length counts 24 bytes for each, but they are
  -- 28 bytes apart. The BIOS lists between 1 and 99 regions with continuation values of its own, and
  -- gives the first a type. As many rounds as there are regions, and three more walks than there are
  -- blocks, are enough.
  pub build_multiboot_info-Informs :
      (rounds fuel : ℕ)
      → count ≤ rounds
      → length ss + 3 < fuel
      → Asks
      → (m' : Mem) × (build_multiboot_info rounds fuel int12 int15 heap header device m
          ≡ ok (info, m'))
        × Informs m'
  build_multiboot_info-Informs rounds fuel enough walks asks =
      let (m1, e1, c1, b1, k1) =
        kalloc-bump ss room fuel heap info_size last m asks.chain asks.bytes
          (omega (arith, asks.fits)) (omega arith) in
      let top = free_at-Chain ss room heap last m asks.chain in
      let n0 = write32 m1 info 0 in
      let b = write32-IsBytes n0 (info + 4) lower (write32-IsBytes m1 info 0 b1) in
      let c0 =
        Chain-bump ss rest last heap info_size info 4 m1 n0 (write32-SameOutside m1 info 0)
          (omega arith) (omega arith) c1 in
      let c =
        Chain-bump ss rest last heap info_size (info + 4) 4 n0 (begun m1)
          (write32-SameOutside n0 (info + 4) lower) (omega arith) (omega arith) c0 in
      let (m2, e2, mapped) =
        query_upper_memory-Mapped regions count heap last rest with_info (begun m1) token int15
          bios.lists bios.records bios.any bios.most rounds fuel enough
          (omega (arith, length-append ss (info_size ∷ []))) c b asks.high
          (omega (arith, asks.fits)) in
      let (informs, supported) =
        finished_parts asks m1 m2 k1 mapped (omega (arith, map_array_lem, asks.fits, asks.high)) in
      let asked = ap (λ (f : ℕ). test_bit f 0) (begun_header asks m1 m2 k1 mapped) ∙ asks.memory in
      (
        finished m2,
        build_multiboot_info_lem rounds fuel int12 int15 heap header device info m m1
            (filled info upper m2) e1
            (fill_memory_lem rounds fuel int12 int15 heap header info lower upper n0 m2 asked
              (bios.gives n0) bios.lower_any e2)
            supported,
        informs,
      )
