-- ===== src/Fat32/Root.antt =====
-- lib/fs/fat32.cpp: what getRootFile is given as a whole, on a disk and a heap.
use rainbow_os.Prelude.{
  ℕ, zero, suc, ◌+◌, ◌-◌, ◌*◌, ◌/◌, ◌%◌, ◌^◌, ◌≤◌, ◌<◌, ◌≡◌, refl, sym, ap, subst, ◌∙◌, ◌≢◌, ◌↔◌,
  ◌⊎◌, inl, inr, Bool, true, false, ◌&&◌, ◌||◌, not, Option, none, some, List, [], ◌∷◌, ◌++◌, arith,
  ltb, leb, ◌==◌, if◌then◌else◌, ltb→lt, lt→ltb, le→ltb, eq→==, Bool-cases, length, get_elem?,
  length-append, u8, u16, u32, u64, add32, sub32, mul32, shr, test_bit, Outcome, ok, panic,
  out_of_fuel, ◌>>=◌, >>=-eq-ok,
}
use rainbow_os.Memory.{
  Mem, IsBytes, inside, SameOutside, write8, read16, read32, read64, write16, write32,
}
use rainbow_os.Memory.Words.{
  write8-SameOutside, write16-SameOutside, write32-SameOutside, read16-write16, read32-write32,
  read16-eq, read32-eq, read32-lt, write8-IsBytes, write32-IsBytes, read32-write32_apart,
}
use rainbow_os.Heap.{kalloc}
use rainbow_os.Heap.Blocks.{Chain, InReserved}
use rainbow_os.Heap.Safety.{InReserved-le}
use rainbow_os.Heap.Bump.{
  bump, free_at, free_at-le, free_at-append, free_at-Chain, kalloc-bump, bump-kept, bump-InReserved,
  InReserved-bump,
}
use rainbow_os.Str.Terminated.{IsString}
use rainbow_os.Disk.{DiskRead}
use rainbow_os.Disk.Packet.{Sectors}
use rainbow_os.Disk.Chunk.{scratch}
use rainbow_os.Disk.Sectors.{SectorDisk}
use rainbow_os.Fat32.{Fat32, next_cluster, cluster_lba}
use rainbow_os.Fat32.Layout.Vbr
use rainbow_os.Fat32.Layout.DirEntry
use rainbow_os.Fat32.Clusters.{ClusterChain, HoldsClusters, SameTables, cluster_lba-eq}
use rainbow_os.Fat32.Chain.{InTable}
use rainbow_os.Fat32.Directory.{
  Directory, Listed, read_dir-Listed, directory_byte, directory_size, directory_rest,
  directory_blocks, directory_at, listing_at,
}
use rainbow_os.Fat32.Contents.{Entry, Stored}
use rainbow_os.Fat32.Files.{
  fill3, num_entries, entries, read_dir, load_file, find_file, get_root_file,
}
use rainbow_os.Fat32.Kinds.{Kind, name_length, name_char, IsKind, IsKind-eq, name_char-eq}
use rainbow_os.Fat32.Entries.{Bumped, InBlocks}
use rainbow_os.Fat32.Rounds.{entry_at, Searched, Matches}
use rainbow_os.Fat32.Kept.{ClusterChain-eq, HoldsClusters-lba}
use rainbow_os.Fat32.Found.{FirstMatch, find_file-Stored}
mod Loop
mod Reading
mod Tests

module _ (sector : Sectors) (disk_read : DiskRead) (fs : Fat32)
    (fuel heap last room n lfn_str file k fat_bytes i : ℕ) (kinds : ℕ → Kind) (ss cs : List ℕ)
    (m : Mem) where
  -- The root directory, where readDir puts it, and the entries there.
  abbrev pub root : ℕ
  root = Vbr.cluster_number_root m fs.vbr

  abbrev pub dir : ℕ
  dir =
      directory_at sector disk_read fs fuel heap last room (Vbr.cluster_number_root m fs.vbr) n ss m

  abbrev pub size : ℕ
  size =
      directory_size sector disk_read fs fuel heap last room (Vbr.cluster_number_root m fs.vbr) n ss
        m

  abbrev pub byte_of : ℕ → ℕ
  byte_of =
      directory_byte sector disk_read fs fuel heap last room (Vbr.cluster_number_root m fs.vbr) n ss
        m

  abbrev pub blocks1 : List ℕ
  blocks1 =
      directory_blocks sector disk_read fs fuel heap last room (Vbr.cluster_number_root m fs.vbr) n
        ss m

  abbrev pub room1 : ℕ
  room1 =
      directory_rest sector disk_read fs fuel heap last room (Vbr.cluster_number_root m fs.vbr) n ss
        m

  abbrev pub entry_of : ℕ → ℕ
  entry_of j = dir + 32 * j

  -- The memory with the bytes of the directory, as the disk has them, in their place.
  abbrev pub with_directory : Mem
  with_directory x = if inside dir size x then byte_of (x - dir) else m x

  abbrev pub NameMatches : ℕ → Type 0
  NameMatches j =
      (name_length (kinds j) ≡ k)
      × ((q : ℕ) → q < k → name_char with_directory lfn_str (entry_of j) (kinds j) q ≡ m (file + q))

  -- A string of the program: below the heap, and apart from the scratch of the disk.
  abbrev pub Literal : ℕ → ℕ → Type 0
  Literal str len =
      IsString m str len
      × (str + len < heap)
      × ((x : ℕ) → str ≤ x → x ≤ str + len → scratch x ≡ false)

  abbrev pub sectors_of : ℕ
  sectors_of = DirEntry.size with_directory (entry_of i) / 512 + 1

  -- A mounted volume with a root directory of entries of the given kinds, of which `i` is the first with
  -- the name of the file, the clusters `cs` of the file in the table, and room on the heap for the
  -- directory, two structs of results, the names and the file.
  pub record RootFile : Type 0 where
    pub directory :
        Directory sector disk_read fs fuel heap last room (Vbr.cluster_number_root m fs.vbr) n ss m
    pub kind : (j : ℕ) → j < n → IsKind with_directory (entry_of j) (kinds j)
    pub name : Literal file k
    pub lfn : Literal lfn_str 3
    pub index : i < n
    pub named : NameMatches i
    pub first : (t : ℕ) → t < i → ¬ NameMatches t
    pub table :
        (x : ℕ) → fs.fat_ptr ≤ x → x < fs.fat_ptr + fat_bytes → InReserved (bump ss room) heap x
    pub clusters :
        ClusterChain
          (next_cluster fs m)
          (DirEntry.high_cluster_number with_directory (entry_of i) * 2 ^ 16
            + DirEntry.low_cluster_number with_directory (entry_of i))
          cs
    pub in_table : InTable fat_bytes cs
    pub enough_sectors : length cs ≤ sectors_of
    pub room_left : size + 8 + (12 + 8) + (12 + 8) + (sectors_of * 512 + 8 + 21 * (i + 1)) ≤ room
    pub walks : length ss + i + 5 < fuel
    pub chain_rounds : length cs < fuel
    pub compares : 13 < fuel

  abbrev pub struct : ℕ
  struct =
      listing_at sector disk_read fs fuel heap last room (Vbr.cluster_number_root m fs.vbr) n ss m

  abbrev pub blocks2 : List ℕ
  blocks2 = blocks1 ++ 12 ∷ []

  abbrev pub blocks3 : List ℕ
  blocks3 = blocks2 ++ 12 ∷ []

  abbrev pub room2 : ℕ
  room2 = room1 - 12 - 8

  abbrev pub room3 : ℕ
  room3 = room2 - 12 - 8

  -- The struct of the result of getRootFile
  abbrev pub result : ℕ
  result = free_at blocks2 heap + 8

  -- The result: success, the size of the file, and a buffer with the sectors of its clusters.
  pub record FileRead (m' : Mem) : Type 0 where
    pub code : read32 m' result ≡ 0
    pub size : read32 m' (result + 4) ≡ DirEntry.size with_directory (entry_of i)
    pub content : HoldsClusters sector (cluster_lba fs m) m' (read32 m' (result + 8)) cs

  -- The memory before the loop.
  pub record Listing (m2 : Mem) : Type 0 where
    pub blocks : Bumped heap last blocks3 room3 m2
    pub code : read32 m2 struct ≡ 0
    pub count : num_entries m2 struct ≡ n
    pub buffer : entries m2 struct ≡ dir
    pub content : (x : ℕ) → dir ≤ x → x < dir + size → m2 x ≡ with_directory x
    pub kept : (x : ℕ) → InReserved (bump ss room) heap x → m2 x ≡ m x
    pub kept_below : (x : ℕ) → x < heap → scratch x ≡ false → m2 x ≡ m x
