-- ===== src/Fat32/Contents.antt =====
-- What getRootFile does once it has found the entry of the file.
use rainbow_os.Prelude.{
  ℕ, ◌+◌, ◌*◌, ◌/◌, ◌^◌, ◌≤◌, ◌<◌, ◌≡◌, refl, sym, subst, ◌∙◌, ◌⊎◌, inr, false, List, [], ◌∷◌,
  arith, length, mul32, ok,
}
use rainbow_os.Memory.{Mem, IsBytes, inside, read32}
use rainbow_os.Memory.Words.{read32-eq, read32-lt}
use rainbow_os.Heap.{kalloc}
use rainbow_os.Heap.Blocks.{Chain, InReserved}
use rainbow_os.Heap.Safety.{InReserved-le}
use rainbow_os.Heap.Bump.{bump, free_at, free_at-le, free_at-Chain, kalloc-bump, InReserved-bump}
use rainbow_os.Disk.{DiskRead}
use rainbow_os.Disk.Packet.{Sectors}
use rainbow_os.Disk.Chunk.{scratch}
use rainbow_os.Disk.Sectors.{SectorDisk}
use rainbow_os.Fat32.{Fat32, next_cluster, cluster_lba}
use rainbow_os.Fat32.Layout.DirEntry
use rainbow_os.Fat32.Clusters.{ClusterChain, HoldsClusters, SameTables}
use rainbow_os.Fat32.Chain.{Separate, InTable, read_clusters-Reads}
use rainbow_os.Fat32.Directory.{fill3-words}
use rainbow_os.Fat32.Files.{fill3, read_clusters, load_file}

-- load_file, when the allocation and the loop give what is said.
load_file_lem :
    (disk_read : DiskRead) (fuel heap : ℕ) (fs : Fat32) (result entry cluster bytes size buffer : ℕ)
    (m m1 m2 : Mem)
    → DirEntry.high_cluster_number m entry * 2 ^ 16 + DirEntry.low_cluster_number m entry ≡ cluster
    → mul32 (DirEntry.size m entry / 512 + 1) 512 ≡ bytes
    → kalloc fuel heap bytes m ≡ ok (buffer, m1)
    → read_clusters disk_read fs fuel 0 cluster buffer m1 ≡ ok m2
    → DirEntry.size m2 entry ≡ size
    → load_file disk_read fuel heap fs result entry m ≡ ok (result, fill3 result 0 size buffer m2)
unfolding load_file
load_file_lem disk_read fuel heap fs result entry cluster bytes size buffer m m1 m2 c b a r s =
    rw (c, b, a, r, s) refl

-- The sectors stay where nothing is written.
HoldsClusters-eq :
    (sector : Sectors) (lba : ℕ → ℕ) (cs : List ℕ) (buffer : ℕ) (m m' : Mem)
    → ((x : ℕ) → buffer ≤ x → x < buffer + length cs * 512 → m' x ≡ m x)
    → HoldsClusters sector lba m buffer cs
    → HoldsClusters sector lba m' buffer cs
HoldsClusters-eq sector lba [] buffer m m' same h = tt
HoldsClusters-eq sector lba (d ∷ ds) buffer m m' same h = (
  λ k lt. same (buffer + k) (omega arith) (omega arith) ∙ h.0 k lt,
  HoldsClusters-eq sector lba ds (buffer + 512) m m' (λ x lo hi. same x (omega arith) (omega arith))
      h.1,
)

module _ (sector : Sectors) (disk_read : DiskRead) (fs : Fat32)
    (fuel heap last room result entry fat_bytes : ℕ) (ss cs : List ℕ) (m : Mem) where
  abbrev pub file_size : ℕ
  file_size = DirEntry.size m entry

  abbrev pub first_cluster : ℕ
  first_cluster =
      DirEntry.high_cluster_number m entry * 2 ^ 16 + DirEntry.low_cluster_number m entry

  abbrev pub file_sectors : ℕ
  file_sectors = file_size / 512 + 1

  -- An entry whose clusters `cs` are in the table, no more than the file has sectors; the entry, the
  -- boot record, the table and the struct of the result in blocks of the heap, and room for the file.
  pub record Entry : Type 0 where
    pub chain : Chain m last heap (bump ss room)
    pub bytes : IsBytes m
    pub low : 0x1010 ≤ heap
    pub high : last + 8 ≤ 0x70000
    pub boot_record : (x : ℕ) → fs.vbr ≤ x → x < fs.vbr + 512 → InReserved (bump ss room) heap x
    pub table :
        (x : ℕ) → fs.fat_ptr ≤ x → x < fs.fat_ptr + fat_bytes → InReserved (bump ss room) heap x
    pub entry_in : (x : ℕ) → entry ≤ x → x < entry + 32 → InReserved (bump ss room) heap x
    pub result_in : result + 12 ≤ free_at ss heap
    pub entry_off_result : (entry + 32 ≤ result) ⊎ (result + 12 ≤ entry)
    pub clusters : ClusterChain (next_cluster fs m) first_cluster cs
    pub in_table : InTable fat_bytes cs
    pub enough_sectors : length cs ≤ file_sectors
    pub fits : file_sectors * 512 + 8 ≤ room
    pub rounds : length cs < fuel
    pub walks : length ss + 1 < fuel

  -- The result: success, the size of the file, and a buffer with the sectors of its clusters.
  pub record Stored (m' : Mem) : Type 0 where
    pub code : read32 m' result ≡ 0
    pub size : read32 m' (result + 4) ≡ file_size
    pub content : HoldsClusters sector (cluster_lba fs m) m' (read32 m' (result + 8)) cs

  abbrev buffer : ℕ
  buffer = free_at ss heap + 8

  module _ (given : Entry) where
    reserved_below :
        (x : ℕ) → InReserved (bump ss room) heap x → (heap + 8 ≤ x) × (x < free_at ss heap)
    reserved_below x i = (InReserved-le (bump ss room) heap x i, InReserved-bump ss room heap x i)

    buffer-Separate : Separate fs fat_bytes buffer file_sectors
    buffer-Separate =
        let top = free_at-Chain ss room heap last m given.chain in
        let base = free_at-le ss heap in
        let f = given.fits in
        let l = given.low in
        let h = given.high in
        record {
          fits = omega arith;
          buffer_free = λ x i. ground arith;
          vbr_safe = λ x lo hi.
              let b = reserved_below x (given.boot_record x lo hi) in ground (arith, b.0, b.1);
          fat_safe =
              λ x lo hi. let b = reserved_below x (given.table x lo hi) in ground (arith, b.0, b.1);
        }

    entry_size :
        (m2 : Mem)
        → ((x : ℕ) → InReserved (bump ss room) heap x → m2 x ≡ m x)
        → DirEntry.size m2 entry ≡ file_size
    unfolding DirEntry.size
    entry_size m2 same =
        read32-eq m m2 (entry + 28)
          (λ x lo hi. same x (given.entry_in x (omega arith) (omega arith)))

    file_size-lt : file_size < 2 ^ 32
    unfolding DirEntry.size
    file_size-lt = read32-lt m (entry + 28) given.bytes

    -- Reserved bytes are outside the buffer and outside the scratch of the disk.
    kept_by_reading :
        (x : ℕ)
        → InReserved (bump ss room) heap x
        → (inside (buffer + 512 * 0) (length cs * 512) x ≡ false) × (scratch x ≡ false)
    kept_by_reading x i =
        let b = reserved_below x i in
        let top = free_at-Chain ss room heap last m given.chain in
        (ground (arith, b.1), ground (arith, b.0, b.1, given.low, given.high))

    -- The struct is filled once the sectors are in the buffer.
    filled-Stored :
        (m2 : Mem)
        → HoldsClusters sector (cluster_lba fs m) m2 buffer cs
        → Stored (fill3 result 0 file_size buffer m2)
    filled-Stored m2 holds =
        let top = free_at-Chain ss room heap last m given.chain in
        let m3 = fill3 result 0 file_size buffer m2 in
        let (code, size, pointer, same) =
          fill3-words result 0 file_size buffer m2 (omega arith) file_size-lt
            (omega (arith, given.high)) in
        record {
          code = code;
          size = size;
          content =
              subst (λ (q : ℕ). HoldsClusters sector (cluster_lba fs m) m3 q cs) (sym pointer)
                (HoldsClusters-eq sector (cluster_lba fs m) cs buffer m2 m3
                  (λ x lo hi. same x (inr (omega (arith, given.result_in)))) holds);
        }

    -- With the entry of a file in hand, getRootFile succeeds: the result has the code 0, the size of
    -- the file, and a pointer to a buffer in which the first sector of each cluster of the file
    -- stands, in order. Two walks more than there are blocks, and a round more than there are
    -- clusters, are enough.
    pub load_file-Stored :
        SectorDisk sector disk_read
        → (m' : Mem) × (load_file disk_read fuel heap fs result entry m ≡ ok (result, m'))
          × Stored m'
    load_file-Stored d =
        let size = file_sectors * 512 in
        let top = free_at-Chain ss room heap last m given.chain in
        let (m1, e1, c1, b1, k1) =
          kalloc-bump ss room fuel heap size last m given.chain given.bytes given.fits
            given.walks in
        let tables : SameTables fs fat_bytes m m1 = (
          λ x lo hi. k1 x (inr (given.boot_record x lo hi)),
          λ x lo hi. k1 x (inr (given.table x lo hi)),
        ) in
        let (m2, e2, holds, frame) =
          read_clusters-Reads sector disk_read d fs fat_bytes buffer file_sectors buffer-Separate m
            cs fuel 0 first_cluster m1 b1 tables given.clusters given.in_table
            (omega (arith, given.enough_sectors)) given.rounds in
        let start : buffer + 512 * 0 ≡ buffer = omega arith in
        let kept : (x : ℕ) → InReserved (bump ss room) heap x → m2 x ≡ m x = λ x i.
          let (off_buffer, off_scratch) = kept_by_reading x i in
          frame x off_buffer off_scratch ∙ k1 x (inr i) in
        let whole : mul32 file_sectors 512 ≡ size = omega (arith, given.fits, given.high) in
        (
          fill3 result 0 file_size buffer m2,
          load_file_lem disk_read fuel heap fs result entry first_cluster size file_size buffer m m1
              m2 refl whole e1 e2 (entry_size m2 kept),
          filled-Stored m2
              (subst (λ (q : ℕ). HoldsClusters sector (cluster_lba fs m) m2 q cs) start holds),
        )
