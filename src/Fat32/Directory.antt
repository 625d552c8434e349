-- ===== src/Fat32/Directory.antt =====
-- fat32::readDir on a disk, on a heap from which nothing was freed.
use rainbow_os.Prelude.{
  ℕ, zero, suc, ◌+◌, ◌-◌, ◌*◌, ◌/◌, ◌%◌, ◌^◌, ◌≤◌, ◌<◌, ◌≡◌, refl, sym, subst, ◌∙◌, ◌≢◌, ◌⊎◌, inl,
  inr, true, false, List, [], ◌∷◌, ◌++◌, arith, ◌==◌, length, length-append, ok,
}
use rainbow_os.Memory.{Mem, IsBytes, SameOutside, read32, write32}
use rainbow_os.Memory.Words.{write32-SameOutside, read32-write32, read32-eq, write32-IsBytes}
use rainbow_os.Heap.{kalloc}
use rainbow_os.Heap.Blocks.{Chain, InReserved}
use rainbow_os.Heap.Safety.{InReserved-le}
use rainbow_os.Heap.Bump.{
  free_at-le, Chain-bump, bump-kept, bump, free_at, kalloc-bump, bump-InReserved, free_at-Chain,
  InReserved-bump,
}
use rainbow_os.Disk.{DiskRead}
use rainbow_os.Disk.Packet.{Sectors}
use rainbow_os.Disk.Chunk.{scratch}
use rainbow_os.Disk.Sectors.{SectorDisk}
use rainbow_os.Fat32.{Fat32, count_entries, cluster_lba, next_cluster, is_multicluster}
use rainbow_os.Fat32.Files.{fill3, num_entries, entries, read_dir}
use rainbow_os.Fat32.Clusters.{SameTables, cluster_lba-eq}
use rainbow_os.Fat32.Layout.Vbr
use rainbow_os.Fat32.Buffers.{loaded_byte, Buffered, kalloc-Buffered}

-- The struct of three words holds what it was filled with.
pub fill3-words :
    (p a b c : ℕ) (m : Mem)
    → a < 2 ^ 32
    → b < 2 ^ 32
    → c < 2 ^ 32
    → let m' = fill3 p a b c m in
      (read32 m' p ≡ a) × (read32 m' (p + 4) ≡ b) × (read32 m' (p + 8) ≡ c) × SameOutside p 12 m m'
unfolding fill3
fill3-words p a b c m ha hb hc =
    let m1 = write32 m p a in
    let m2 = write32 m1 (p + 4) b in
    let m3 = write32 m2 (p + 8) c in
    let s1 = write32-SameOutside m p a in
    let s2 = write32-SameOutside m1 (p + 4) b in
    let s3 = write32-SameOutside m2 (p + 8) c in
    (
      read32-eq m1 m3 p (λ x lo hi. s3 x (omega arith) ∙ s2 x (omega arith))
          ∙ read32-write32 m p a ha,
      read32-eq m2 m3 (p + 4) (λ x lo hi. s3 x (omega arith)) ∙ read32-write32 m1 (p + 4) b hb,
      read32-write32 m2 (p + 8) c hc,
      λ x o. s3 x (omega arith) ∙ s2 x (omega arith) ∙ s1 x (omega arith),
    )

fill3-IsBytes : (p a b c : ℕ) (m : Mem) → IsBytes m → IsBytes (fill3 p a b c m)
unfolding fill3
fill3-IsBytes p a b c m bytes =
    write32-IsBytes _ (p + 8) c (write32-IsBytes _ (p + 4) b (write32-IsBytes m p a bytes))

-- The count runs over the entries in use up to the first that is not.
count_entries_from :
    (k fuel dir i n : ℕ) (m : Mem)
    → i + k ≡ n
    → ((j : ℕ) → j < n → m (dir + 32 * j) ≢ 0)
    → m (dir + 32 * n) ≡ 0
    → k < fuel
    → count_entries fuel dir i m ≡ ok n
unfolding count_entries
count_entries_from k zero dir i n m e used stop h = absurd (omega arith)
count_entries_from zero (suc fuel) dir i n m e used stop h =
    let e' : i ≡ n = omega arith in rw (e', stop) refl
count_entries_from (suc k) (suc fuel) dir i n m e used stop h =
    let go : (m (dir + 32 * i) == 0) ≡ false = ground (arith, used i (omega arith)) in
    rw go (count_entries_from k fuel dir (i + 1) n m (omega arith) used stop (omega arith))

-- readDir, when the allocations, the read and the count give what is said.
read_dir_lem :
    (disk_read : DiskRead) (fuel heap : ℕ) (fs : Fat32) (c size lba spc dir n result : ℕ)
    (m m1 m2 m3 : Mem)
    → is_multicluster (next_cluster fs m c) ≡ false
    → Vbr.sectors_per_cluster m fs.vbr * Vbr.bytes_per_sector m fs.vbr ≡ size
    → kalloc fuel heap size m ≡ ok (dir, m1)
    → cluster_lba fs m1 c ≡ lba
    → Vbr.sectors_per_cluster m1 fs.vbr ≡ spc
    → disk_read lba dir spc m1 ≡ ok (true, m2)
    → count_entries fuel dir 0 m2 ≡ ok n
    → kalloc fuel heap 12 m2 ≡ ok (result, m3)
    → read_dir disk_read fuel heap fs c m ≡ ok (result, fill3 result 0 n dir m3)
unfolding read_dir
read_dir_lem disk_read fuel heap fs c size lba spc dir n result m m1 m2 m3 s z a l p r k a' =
    rw (s, z, a, l, p, r, k, a') refl

module _ (sector : Sectors) (disk_read : DiskRead) (fs : Fat32) (fuel heap last room c n : ℕ)
    (ss : List ℕ) (m : Mem) where
  -- The sectors of a cluster, the first of this one, and the bytes of the directory.
  abbrev pub cluster_sectors : ℕ
  cluster_sectors = Vbr.sectors_per_cluster m fs.vbr

  abbrev pub directory_byte : ℕ → ℕ
  directory_byte i = sector (cluster_lba fs m c + i / 512) (i % 512)

  -- A directory of one cluster with `n` entries in use, a boot record in the heap, and room for the
  -- cluster and for the result.
  pub record Directory : Type 0 where
    pub chain : Chain m last heap (bump ss room)
    pub bytes : IsBytes m
    pub low : 0x1010 ≤ heap
    pub high : last + 8 ≤ 0x70000
    pub boot_record : (x : ℕ) → fs.vbr ≤ x → x < fs.vbr + 512 → InReserved (bump ss room) heap x
    pub sector_bytes : Vbr.bytes_per_sector m fs.vbr ≡ 512
    pub single : is_multicluster (next_cluster fs m c) ≡ false
    pub fits : cluster_sectors * 512 + 8 + (12 + 8) ≤ room
    pub readable : cluster_sectors % 127 ≢ 0
    pub numbers : cluster_lba fs m c + cluster_sectors ≤ 2 ^ 32
    pub used : (i : ℕ) → i < n → directory_byte (32 * i) ≢ 0
    pub stop : directory_byte (32 * n) ≡ 0
    pub closed : 32 * n < cluster_sectors * 512
    pub counts : n < fuel
    pub walks : length ss + 2 < fuel

  abbrev pub directory_size : ℕ
  directory_size = cluster_sectors * 512

  abbrev pub directory_rest : ℕ
  directory_rest = room - directory_size - 8

  abbrev pub directory_blocks : List ℕ
  directory_blocks = ss ++ directory_size ∷ []

  -- The buffer of the directory and the struct of the result.
  abbrev pub directory_at : ℕ
  directory_at = free_at ss heap + 8

  abbrev pub listing_at : ℕ
  listing_at = free_at directory_blocks heap + 8

  abbrev size : ℕ
  size = directory_size

  abbrev rest : ℕ
  rest = directory_rest

  abbrev grown : List ℕ
  grown = directory_blocks

  abbrev dir : ℕ
  dir = directory_at

  abbrev struct : ℕ
  struct = listing_at

  -- The result at `result`: success, the number of entries, and the directory's bytes.
  pub record Listed (result : ℕ) (m' : Mem) : Type 0 where
    pub code : read32 m' result ≡ 0
    pub count : num_entries m' result ≡ n
    pub content :
        (i : ℕ) → i < cluster_sectors * 512 → m' (entries m' result + i) ≡ directory_byte i
    pub heap_left : Chain m' last heap (
        bump
          ((ss ++ cluster_sectors * 512 ∷ []) ++ 12 ∷ [])
          (room - cluster_sectors * 512 - 8 - 12 - 8))
    pub place : result ≡ listing_at
    pub buffer : entries m' result ≡ directory_at
    pub kept : (x : ℕ) → InReserved (bump ss room) heap x → m' x ≡ m x
    pub kept_below : (x : ℕ) → x < heap → scratch x ≡ false → m' x ≡ m x
    pub bytes : IsBytes m'

  abbrev Read : Mem → Mem → Type 0
  Read m1 m2 =
      Buffered sector disk_read fuel heap last (cluster_lba fs m c) cluster_sectors room ss m m1 m2

  module _ (given : Directory) (m1 m2 : Mem) (buf : Read m1 m2) where
    held : (i : ℕ) → i < size → m2 (dir + i) ≡ directory_byte i
    held i h = loaded_byte sector (cluster_lba fs m c) dir cluster_sectors i m1 m2 buf.loaded h

    counted : count_entries fuel dir 0 m2 ≡ ok n
    counted =
        count_entries_from n fuel dir 0 n m2 (omega arith)
          (λ j h z. given.used j h (sym (held (32 * j) (omega (arith, given.closed))) ∙ z))
          (held (32 * n) given.closed ∙ given.stop) given.counts

    -- Reserved bytes are not touched by the allocation and the read.
    buffer_kept : (x : ℕ) → InReserved (bump ss room) heap x → m2 x ≡ m x
    buffer_kept x i =
        let above = InReserved-bump ss room heap x i in
        let below = InReserved-le (bump ss room) heap x i in
        let top = free_at-Chain ss room heap last m given.chain in
        buf.loaded.1 x (ground arith) (ground (arith, given.low, given.high)) ∙ buf.kept x (inr i)

    same_tables : SameTables fs 0 m m1
    same_tables =
        (λ x lo hi. buf.kept x (inr (given.boot_record x lo hi)), λ x lo hi. absurd (omega arith))

    same_sectors : Vbr.sectors_per_cluster m1 fs.vbr ≡ cluster_sectors
    unfolding Vbr.sectors_per_cluster
    same_sectors = same_tables.0 (fs.vbr + 13) (omega arith) (omega arith)

    -- The filled struct, in the block that is allocated behind the buffer.
    struct-Listed :
        (m3 : Mem)
        → Chain m3 last heap (bump (grown ++ 12 ∷ []) (rest - 12 - 8))
        → IsBytes m3
        → ((x : ℕ) → (x < heap) ⊎ InReserved (bump grown rest) heap x → m3 x ≡ m2 x)
        → Listed struct (fill3 struct 0 n dir m3)
    unfolding num_entries entries
    struct-Listed m3 c3 b3 k3 =
        let top = free_at-Chain ss room heap last m given.chain in
        let top3 = free_at-Chain grown rest heap last m2 buf.heap_left in
        let (code, count, pointer, same) =
          fill3-words struct 0 n dir m3 (omega arith)
            (omega (arith, given.closed, given.high, given.fits)) (omega (arith, given.high)) in
        let m4 = fill3 struct 0 n dir m3 in
        let before : (x : ℕ) → InReserved (bump grown rest) heap x → m4 x ≡ m2 x =
          λ x i. same x (inl (omega (arith, InReserved-bump grown rest heap x i))) ∙ k3 x (inr i) in
        record {
          code = code;
          count = count;
          content = λ i h.
              subst (λ (q : ℕ). m4 (q + i) ≡ directory_byte i) (sym pointer)
                (before (dir + i)
                    (bump-InReserved ss rest heap size (dir + i) (omega arith) (omega arith))
                  ∙ held i h);
          heap_left =
              Chain-bump grown (rest - 12 - 8) last heap 12 struct 12 m3 m4 same (omega arith)
                (omega arith) c3;
          place = refl;
          buffer = pointer;
          kept_below = λ x low free.
              same x (inl (omega (arith, free_at-le grown heap)))
              ∙ k3 x (inl low)
              ∙ buf.loaded.1 x (ground (arith, free_at-le ss heap)) free
              ∙ buf.kept x (inl low);
          kept = λ x i. before x (bump-kept ss room rest heap size x i) ∙ buffer_kept x i;
          bytes = fill3-IsBytes struct 0 n dir m3 b3;
        }

  -- readDir succeeds on such a directory: the result has the code 0, the number of entries in use
  -- and a pointer to the bytes of the directory, the heap has the two new blocks and the rest, and
  -- no byte that was reserved changed.
  pub read_dir-Listed :
      SectorDisk sector disk_read
      → Directory
      → (result : ℕ) × (m' : Mem) × (read_dir disk_read fuel heap fs c m ≡ ok (result, m'))
        × Listed result m'
  read_dir-Listed d given =
      let (m1, m2, buf) =
        kalloc-Buffered sector disk_read fuel heap last (cluster_lba fs m c) cluster_sectors room ss
          m d given.low given.high given.chain given.bytes (omega (arith, given.fits))
          (omega (arith, given.walks)) given.readable given.numbers in
      let (m3, e3, c3, b3, k3) =
        kalloc-bump grown rest fuel heap 12 last m2 buf.heap_left buf.bytes
          (omega (arith, given.fits)) (omega (arith, given.walks, length-append ss (size ∷ []))) in
      (
        struct,
        fill3 struct 0 n dir m3,
        read_dir_lem disk_read fuel heap fs c size (cluster_lba fs m c) cluster_sectors dir n struct
            m m1 m2 m3 given.single (rw given.sector_bytes refl) buf.allocated
            (cluster_lba-eq fs 0 c m m1 (same_tables given m1 m2 buf))
            (same_sectors given m1 m2 buf) buf.read (counted given m1 m2 buf) e3,
        struct-Listed given m1 m2 buf m3 c3 b3 k3,
      )
