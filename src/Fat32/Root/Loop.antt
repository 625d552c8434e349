-- ===== src/Fat32/Root/Loop.antt =====
-- lib/fs/fat32.cpp: the heap and the disk when getRootFile has read the directory, and what its loop
-- makes of them.
use rainbow_os.Prelude.{
  ℕ, ◌+◌, ◌*◌, ◌/◌, ◌^◌, ◌≤◌, ◌<◌, ◌≡◌, refl, sym, ap, subst, ◌∙◌, ◌↔◌, inl, inr, false, List, [],
  ◌∷◌, arith, length-append,
}
use rainbow_os.Memory.{Mem}
use rainbow_os.Memory.Words.{read16-eq, read32-eq}
use rainbow_os.Heap.Blocks.{InReserved}
use rainbow_os.Heap.Bump.{bump, free_at, free_at-le, free_at-append, bump-kept, bump-InReserved}
use rainbow_os.Str.Terminated.{IsString}
use rainbow_os.Disk.{DiskRead}
use rainbow_os.Disk.Packet.{Sectors}
use rainbow_os.Disk.Chunk.{scratch}
use rainbow_os.Fat32.{Fat32, next_cluster, cluster_lba}
use rainbow_os.Fat32.Layout.DirEntry
use rainbow_os.Fat32.Clusters.{ClusterChain, SameTables, cluster_lba-eq}
use rainbow_os.Fat32.Contents.{Entry, Stored}
use rainbow_os.Fat32.Files.{entries}
use rainbow_os.Fat32.Kinds.{Kind, name_length, name_char, IsKind, IsKind-eq, name_char-eq}
use rainbow_os.Fat32.Rounds.{Searched, Matches}
use rainbow_os.Fat32.Kept.{ClusterChain-eq, HoldsClusters-lba}
use rainbow_os.Fat32.Found.{FirstMatch}
use rainbow_os.Fat32.Root

module _ (sector : Sectors) (disk_read : DiskRead) (fs : Fat32)
    (fuel heap last room n lfn_str file k fat_bytes i : ℕ) (kinds : ℕ → Kind) (ss cs : List ℕ)
    (m : Mem) where
  abbrev dir : ℕ
  dir = Root.dir sector disk_read fs fuel heap last room n lfn_str file k fat_bytes i kinds ss cs m

  abbrev size : ℕ
  size =
      Root.size sector disk_read fs fuel heap last room n lfn_str file k fat_bytes i kinds ss cs m

  abbrev blocks1 : List ℕ
  blocks1 =
      Root.blocks1 sector disk_read fs fuel heap last room n lfn_str file k fat_bytes i kinds ss cs
        m

  abbrev room1 : ℕ
  room1 =
      Root.room1 sector disk_read fs fuel heap last room n lfn_str file k fat_bytes i kinds ss cs m

  abbrev entry_of : ℕ → ℕ
  entry_of =
      Root.entry_of sector disk_read fs fuel heap last room n lfn_str file k fat_bytes i kinds ss cs
        m

  abbrev with_directory : Mem
  with_directory =
      Root.with_directory sector disk_read fs fuel heap last room n lfn_str file k fat_bytes i kinds
        ss cs m

  abbrev NameMatches : ℕ → Type 0
  NameMatches =
      Root.NameMatches sector disk_read fs fuel heap last room n lfn_str file k fat_bytes i kinds ss
        cs m

  abbrev Literal : ℕ → ℕ → Type 0
  Literal =
      Root.Literal sector disk_read fs fuel heap last room n lfn_str file k fat_bytes i kinds ss cs
        m

  abbrev struct : ℕ
  struct =
      Root.struct sector disk_read fs fuel heap last room n lfn_str file k fat_bytes i kinds ss cs m

  abbrev blocks2 : List ℕ
  blocks2 =
      Root.blocks2 sector disk_read fs fuel heap last room n lfn_str file k fat_bytes i kinds ss cs
        m

  abbrev blocks3 : List ℕ
  blocks3 =
      Root.blocks3 sector disk_read fs fuel heap last room n lfn_str file k fat_bytes i kinds ss cs
        m

  abbrev room2 : ℕ
  room2 =
      Root.room2 sector disk_read fs fuel heap last room n lfn_str file k fat_bytes i kinds ss cs m

  abbrev room3 : ℕ
  room3 =
      Root.room3 sector disk_read fs fuel heap last room n lfn_str file k fat_bytes i kinds ss cs m

  abbrev result : ℕ
  result =
      Root.result sector disk_read fs fuel heap last room n lfn_str file k fat_bytes i kinds ss cs m

  abbrev RootFile : Type 0
  RootFile =
      Root.RootFile sector disk_read fs fuel heap last room n lfn_str file k fat_bytes i kinds ss cs
        m

  abbrev FileRead : Mem → Type 0
  FileRead =
      Root.FileRead sector disk_read fs fuel heap last room n lfn_str file k fat_bytes i kinds ss cs
        m

  abbrev Listing : Mem → Type 0
  Listing =
      Root.Listing sector disk_read fs fuel heap last room n lfn_str file k fat_bytes i kinds ss cs
        m

  module _ (given : RootFile) (m2 : Mem) (l : Listing m2) where
    in_directory : (x : ℕ) → dir ≤ x → x < dir + size → InReserved (bump blocks3 room3) heap x
    in_directory x lo hi =
        bump-kept blocks2 room2 room3 heap 12 x
          (bump-kept blocks1 room1 room2 heap 12 x (bump-InReserved ss room1 heap size x lo hi))

    still : (x : ℕ) → InReserved (bump ss room) heap x → InReserved (bump blocks3 room3) heap x
    still x own =
        bump-kept blocks2 room2 room3 heap 12 x
          (bump-kept blocks1 room1 room2 heap 12 x (bump-kept ss room room1 heap size x own))

    in_struct : (x : ℕ) → struct ≤ x → x < struct + 12 → InReserved (bump blocks3 room3) heap x
    in_struct x lo hi =
        bump-kept blocks2 room2 room3 heap 12 x (bump-InReserved blocks1 room2 heap 12 x lo hi)

    pub at : (j : ℕ) → entries m2 struct + 32 * j ≡ entry_of j
    at j = ap (λ (q : ℕ). q + 32 * j) l.buffer

    same_entry :
        (j : ℕ) → j < n → (x : ℕ) → entry_of j ≤ x → x < entry_of j + 32 → m2 x ≡ with_directory x
    same_entry j h x lo hi = l.content x (omega arith) (omega (arith, given.directory.closed))

    below : (x : ℕ) → x < heap → scratch x ≡ false → m2 x ≡ with_directory x
    below x low free = ground (arith, l.kept_below x low free, free_at-le ss heap)

    same_lfn : (x : ℕ) → lfn_str ≤ x → x ≤ lfn_str + 3 → m2 x ≡ with_directory x
    same_lfn x lo hi = below x (omega (arith, given.lfn.1)) (given.lfn.2 x lo hi)

    literal : (str len : ℕ) → Literal str len → IsString m2 str len
    literal str len s = record {
      chars = λ j h. ground (
        arith,
        l.kept_below (str + j) (omega (arith, s.1)) (s.2 (str + j) (omega arith) (omega arith)),
        s.0.chars j h,
      );
      closed =
          l.kept_below (str + len) s.1 (s.2 (str + len) (omega arith) (omega arith)) ∙ s.0.closed;
    }

    pub searched :
        Searched disk_read fuel heap last fs lfn_str struct file result k n room3 kinds blocks3 m2
    searched = record {
      blocks = l.blocks;
      high = omega (arith, given.directory.high);
      counted = l.count;
      directory_in = λ x lo hi. inr (in_struct x lo hi);
      entry_in = λ j h x lo hi.
          in_directory x (omega (arith, at j)) (omega (arith, at j, given.directory.closed));
      kind = λ j h.
          subst (λ (q : ℕ). IsKind m2 q (kinds j)) (sym (at j))
            (IsKind-eq with_directory m2 lfn_str (entry_of j) (same_entry j h) same_lfn (kinds j)
              (given.kind j h));
      file_string = literal file k given.name;
      file_in = λ x lo hi. inl (omega (arith, given.name.1));
      lfn_string = literal lfn_str 3 given.lfn;
      lfn_in = λ x lo hi. inl (omega (arith, given.lfn.1));
      compares = given.compares;
    }

    char_same :
        (j q : ℕ)
        → j < n
        → q < k
        → name_length (kinds j) ≡ k
        → (name_char m2 lfn_str (entries m2 struct + 32 * j) (kinds j) q
            ≡ name_char with_directory lfn_str (entry_of j) (kinds j) q)
          × (m2 (file + q) ≡ m (file + q))
    char_same j q h lt e = (
      ap (λ (a : ℕ). name_char m2 lfn_str a (kinds j) q) (at j)
          ∙ name_char-eq with_directory m2 lfn_str (entry_of j) (same_entry j h) same_lfn (kinds j)
              (given.kind j h) q (omega (arith, e)),
      l.kept_below (file + q) (omega (arith, given.name.1))
          (given.name.2 (file + q) (omega arith) (omega arith)),
    )

    Matches-NameMatches :
        (j : ℕ)
        → j < n
        → Matches disk_read fuel heap last fs lfn_str struct file result k n room3 kinds blocks3 m2
            j
          ↔ NameMatches j
    Matches-NameMatches j h = (
      λ p. (p.0, λ q lt. let c = char_same j q h lt p.0 in sym c.0 ∙ p.1 q lt ∙ c.1),
      λ p. (p.0, λ q lt. let c = char_same j q h lt p.0 in c.0 ∙ p.1 q lt ∙ sym c.1),
    )

    size_same : DirEntry.size m2 (entry_of i) ≡ DirEntry.size with_directory (entry_of i)
    unfolding DirEntry.size
    size_same =
        read32-eq with_directory m2 (entry_of i + 28)
          (λ x lo hi. same_entry i given.index x (omega arith) (omega arith))

    first_same :
        DirEntry.high_cluster_number m2 (entry_of i) * 2 ^ 16
          + DirEntry.low_cluster_number m2 (entry_of i)
        ≡ DirEntry.high_cluster_number with_directory (entry_of i) * 2 ^ 16
          + DirEntry.low_cluster_number with_directory (entry_of i)
    unfolding DirEntry.high_cluster_number DirEntry.low_cluster_number
    first_same =
        let same : (x : ℕ) → entry_of i ≤ x → x < entry_of i + 32 → m2 x ≡ with_directory x =
          same_entry i given.index in
        let high =
          read16-eq with_directory m2 (entry_of i + 20) (same _ (omega arith) (omega arith))
            (same _ (omega arith) (omega arith)) in
        let low =
          read16-eq with_directory m2 (entry_of i + 26) (same _ (omega arith) (omega arith))
            (same _ (omega arith) (omega arith)) in
        rw (high, low) refl

    tables : SameTables fs fat_bytes m m2
    tables = (
      λ x lo hi. l.kept x (given.directory.boot_record x lo hi),
      λ x lo hi. l.kept x (given.table x lo hi),
    )

    struct_behind : (dir + size ≤ struct) × (struct + 12 ≤ free_at blocks2 heap)
    struct_behind =
        (omega (arith, free_at-append ss heap size), omega (arith, free_at-append blocks1 heap 12))

    entry_there :
        Entry sector disk_read fs fuel heap last room3 result (entry_of i) fat_bytes blocks3 cs m2
    entry_there = record {
      chain = l.blocks.chain;
      bytes = l.blocks.bytes;
      low = given.directory.low;
      high = given.directory.high;
      boot_record = λ x lo hi. still x (given.directory.boot_record x lo hi);
      table = λ x lo hi. still x (given.table x lo hi);
      entry_in = λ x lo hi.
          in_directory x (omega arith) (omega (arith, given.directory.closed, given.index));
      result_in = omega (arith, free_at-append blocks2 heap 12);
      entry_off_result =
          inl
            (omega (arith, struct_behind.0, struct_behind.1, given.directory.closed, given.index));
      clusters =
          subst (λ (q : ℕ). ClusterChain (next_cluster fs m2) q cs) (sym first_same)
            (ClusterChain-eq fs fat_bytes _ cs m m2 tables given.in_table given.clusters);
      in_table = given.in_table;
      enough_sectors = omega (arith, given.enough_sectors, size_same);
      fits = omega (arith, given.room_left, size_same);
      rounds = given.chain_rounds;
      walks = omega (
        arith,
        given.walks,
        length-append ss (size ∷ []),
        length-append blocks1 (12 ∷ []),
        length-append blocks2 (12 ∷ []),
      );
    }

    pub first_match :
        FirstMatch disk_read fuel heap last fs lfn_str struct file result k n room3 kinds blocks3 m2
          sector fat_bytes i cs
    first_match = record {
      index = given.index;
      named = (Matches-NameMatches i given.index).1 given.named;
      first = λ q h p. given.first q h ((Matches-NameMatches q (omega (arith, given.index))).0 p);
      entry =
          subst
            (λ (q : ℕ).
              Entry sector disk_read fs fuel heap last room3 result q fat_bytes blocks3 cs m2)
            (sym (at i)) entry_there;
      fits =
          subst (λ (q : ℕ). (DirEntry.size m2 q / 512 + 1) * 512 + 8 + 21 * (i + 1) ≤ room3)
            (sym (at i)) (omega (arith, given.room_left, size_same));
      walks = omega (
        arith,
        given.walks,
        length-append ss (size ∷ []),
        length-append blocks1 (12 ∷ []),
        length-append blocks2 (12 ∷ []),
      );
      rounds = omega (arith, given.walks);
    }

    pub loop_FileRead :
        (m' : Mem)
        → Stored sector disk_read fs fuel heap last room3 result
            (entry_of i)
            fat_bytes
            blocks3
            cs
            m2
            m'
        → FileRead m'
    loop_FileRead m' s = record {
      code = s.code;
      size = s.size ∙ size_same;
      content =
          HoldsClusters-lba sector (cluster_lba fs m2) (cluster_lba fs m) m' _ cs
            (λ d. cluster_lba-eq fs fat_bytes d m m2 tables) s.content;
    }
