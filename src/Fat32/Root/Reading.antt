-- ===== src/Fat32/Root/Reading.antt =====
-- lib/fs/fat32.cpp: getRootFile reads a file.
use rainbow_os.Prelude.{
  ℕ, ◌+◌, ◌-◌, ◌≤◌, ◌<◌, ◌≡◌, refl, sym, ap, subst, ◌∙◌, inl, inr, List, [], ◌∷◌, arith,
  length-append, ok,
}
use rainbow_os.Memory.{Mem, read32}
use rainbow_os.Memory.Words.{read32-eq}
use rainbow_os.Heap.{kalloc}
use rainbow_os.Heap.Bump.{kalloc-bump, bump-kept, bump-InReserved}
use rainbow_os.Disk.{DiskRead}
use rainbow_os.Disk.Packet.{Sectors}
use rainbow_os.Disk.Sectors.{SectorDisk}
use rainbow_os.Fat32.{Fat32}
use rainbow_os.Fat32.Layout.Vbr
use rainbow_os.Fat32.Directory.{Listed, read_dir-Listed}
use rainbow_os.Fat32.Contents.{Stored}
use rainbow_os.Fat32.Files.{num_entries, entries, read_dir, find_file, get_root_file}
use rainbow_os.Fat32.Kinds.{Kind}
use rainbow_os.Fat32.Found.{find_file-Stored}
use rainbow_os.Fat32.Root
use rainbow_os.Fat32.Root.Loop.{searched, first_match, loop_FileRead, at}

-- getRootFile, when readDir and the allocation give what is said.
get_root_file_lem :
    (disk_read : DiskRead) (fuel heap : ℕ) (fs : Fat32) (lfn_str file dir result : ℕ)
    (m m1 m2 : Mem)
    → read_dir disk_read fuel heap fs (Vbr.cluster_number_root m fs.vbr) m ≡ ok (dir, m1)
    → kalloc fuel heap 12 m1 ≡ ok (result, m2)
    → read32 m2 dir ≡ 0
    → get_root_file disk_read fuel heap fs lfn_str file m
      ≡ find_file disk_read fuel heap fs fuel lfn_str 0 dir file result m2
unfolding get_root_file
get_root_file_lem disk_read fuel heap fs lfn_str file dir result m m1 m2 r a z = rw (r, a, z) refl

module _ (sector : Sectors) (disk_read : DiskRead) (fs : Fat32)
    (fuel heap last room n lfn_str file k fat_bytes i : ℕ) (kinds : ℕ → Kind) (ss cs : List ℕ)
    (m : Mem) where
  abbrev root : ℕ
  root =
      Root.root sector disk_read fs fuel heap last room n lfn_str file k fat_bytes i kinds ss cs m

  abbrev dir : ℕ
  dir = Root.dir sector disk_read fs fuel heap last room n lfn_str file k fat_bytes i kinds ss cs m

  abbrev size : ℕ
  size =
      Root.size sector disk_read fs fuel heap last room n lfn_str file k fat_bytes i kinds ss cs m

  abbrev byte_of : ℕ → ℕ
  byte_of =
      Root.byte_of sector disk_read fs fuel heap last room n lfn_str file k fat_bytes i kinds ss cs
        m

  abbrev blocks1 : List ℕ
  blocks1 =
      Root.blocks1 sector disk_read fs fuel heap last room n lfn_str file k fat_bytes i kinds ss cs
        m

  abbrev room1 : ℕ
  room1 =
      Root.room1 sector disk_read fs fuel heap last room n lfn_str file k fat_bytes i kinds ss cs m

  abbrev with_directory : Mem
  with_directory =
      Root.with_directory sector disk_read fs fuel heap last room n lfn_str file k fat_bytes i kinds
        ss cs m

  abbrev struct : ℕ
  struct =
      Root.struct sector disk_read fs fuel heap last room n lfn_str file k fat_bytes i kinds ss cs m

  abbrev blocks2 : List ℕ
  blocks2 =
      Root.blocks2 sector disk_read fs fuel heap last room n lfn_str file k fat_bytes i kinds ss cs
        m

  abbrev blocks3 : List ℕ
  blocks3 =
      Root.blocks3 sector disk_read fs fuel heap last room n lfn_str file k fat_bytes i kinds ss cs
        m

  abbrev room2 : ℕ
  room2 =
      Root.room2 sector disk_read fs fuel heap last room n lfn_str file k fat_bytes i kinds ss cs m

  abbrev room3 : ℕ
  room3 =
      Root.room3 sector disk_read fs fuel heap last room n lfn_str file k fat_bytes i kinds ss cs m

  abbrev result : ℕ
  result =
      Root.result sector disk_read fs fuel heap last room n lfn_str file k fat_bytes i kinds ss cs m

  abbrev RootFile : Type 0
  RootFile =
      Root.RootFile sector disk_read fs fuel heap last room n lfn_str file k fat_bytes i kinds ss cs
        m

  abbrev FileRead : Mem → Type 0
  FileRead =
      Root.FileRead sector disk_read fs fuel heap last room n lfn_str file k fat_bytes i kinds ss cs
        m

  abbrev Listing : Mem → Type 0
  Listing =
      Root.Listing sector disk_read fs fuel heap last room n lfn_str file k fat_bytes i kinds ss cs
        m

  module _ (given : RootFile) where
    in_place :
        (m1 : Mem)
        → Listed sector disk_read fs fuel heap last room
            (Vbr.cluster_number_root m fs.vbr)
            n
            ss
            m
            struct
            m1
        → (x : ℕ) → dir ≤ x
        → x < dir + size
        → m1 x ≡ with_directory x
    in_place m1 l x lo hi =
        let off : entries m1 struct + (x - dir) ≡ x = omega (arith, l.buffer) in
        let here : m1 x ≡ byte_of (x - dir) = sym (ap m1 off) ∙ l.content (x - dir) (omega arith) in
        ground (arith, here)

    listing :
        (m1 : Mem)
        → Listed sector disk_read fs fuel heap last room
            (Vbr.cluster_number_root m fs.vbr)
            n
            ss
            m
            struct
            m1
        → (m2 : Mem) × (kalloc fuel heap 12 m1 ≡ ok (result, m2)) × Listing m2
    unfolding num_entries entries
    listing m1 l =
        let (m2, e2, c2, b2, k2) =
          kalloc-bump blocks2 room2 fuel heap 12 last m1 l.heap_left l.bytes
            (omega (arith, given.room_left))
            (omega (
              arith,
              given.walks,
              length-append ss (size ∷ []),
              length-append blocks1 (12 ∷ []),
            )) in
        let reserved : (x : ℕ) → struct ≤ x → x < struct + 12 → m2 x ≡ m1 x =
          λ x lo hi. k2 x (inr (bump-InReserved blocks1 room2 heap 12 x lo hi)) in
        (
          m2,
          e2,
          record {
            blocks = record { chain = c2; bytes = b2 };
            code = read32-eq m1 m2 struct (λ x lo hi. reserved x lo (omega arith)) ∙ l.code;
            count =
                read32-eq m1 m2 (struct + 4) (λ x lo hi. reserved x (omega arith) (omega arith))
                ∙ l.count;
            buffer =
                read32-eq m1 m2 (struct + 8) (λ x lo hi. reserved x (omega arith) (omega arith))
                ∙ l.buffer;
            content = λ x lo hi.
                k2 x (
                  inr (
                    bump-kept blocks1 room1 room2 heap 12 x
                      (bump-InReserved ss room1 heap size x lo hi)))
                ∙ in_place m1 l x lo hi;
            kept = λ x own.
                k2 x (
                  inr (
                    bump-kept blocks1 room1 room2 heap 12 x
                      (bump-kept ss room room1 heap size x own)))
                ∙ l.kept x own;
            kept_below = λ x low free. k2 x (inl low) ∙ l.kept_below x low free;
          },
        )

  -- getRootFile reads a file of the root directory. On a mounted volume whose root directory is one
  -- cluster of entries of the given kinds, with the entry `i` the first with the name of the file, and
  -- with enough room on a heap from which nothing was freed, the result has the code 0, the size of
  -- the file and a pointer to a buffer in which the first sector of each cluster of the file stands,
  -- in order. The boot record and the table stand in blocks of the heap, and the names are strings
  -- below it and apart from the scratch of the disk.
  pub get_root_file-FileRead :
      SectorDisk sector disk_read
      → RootFile
      → (m' : Mem) × (get_root_file disk_read fuel heap fs lfn_str file m ≡ ok (result, m'))
        × FileRead m'
  get_root_file-FileRead disk given =
      let (p, m1, e1, found) =
        read_dir-Listed sector disk_read fs fuel heap last room root n ss m disk given.directory in
      let place : p ≡ struct = found.place in
      let listed =
        subst
          (λ (q : ℕ).
            Listed sector disk_read fs fuel heap last room (Vbr.cluster_number_root m fs.vbr) n ss m
              q m1)
          place found in
      let (m2, e2, l) = listing given m1 listed in
      let (m', e, s) =
        find_file-Stored disk_read fuel heap last fs lfn_str struct file result k n room3 kinds
          blocks3 m2 sector fat_bytes i cs
          (searched sector disk_read fs fuel heap last room n lfn_str file k fat_bytes i kinds ss cs
            m given m2 l)
          (first_match sector disk_read fs fuel heap last room n lfn_str file k fat_bytes i kinds ss
            cs m given m2 l)
          disk in
      (
        m',
        get_root_file_lem disk_read fuel heap fs lfn_str file struct result m m1 m2
              (e1 ∙ ap (λ (q : ℕ). ok (q, m1)) place) e2 l.code
            ∙ e,
        loop_FileRead sector disk_read fs fuel heap last room n lfn_str file k fat_bytes i kinds ss
            cs m given m2 l m'
            (subst
              (λ (q : ℕ).
                Stored sector disk_read fs fuel heap last room3 result q fat_bytes blocks3 cs m2 m')
              (at sector disk_read fs fuel heap last room n lfn_str file k fat_bytes i kinds ss cs m
                given m2 l i)
              s),
      )
