-- ===== src/Fat32/Found.antt =====
-- lib/fs/fat32.cpp: the loop of getRootFile, and the file that it reads.
use rainbow_os.Prelude.{ℕ, ◌+◌, ◌*◌, ◌/◌, ◌^◌, ◌≤◌, ◌<◌, ◌≡◌, ◌∙◌, List, arith, length, ok}
use rainbow_os.Memory.{Mem, read32}
use rainbow_os.Disk.{DiskRead}
use rainbow_os.Disk.Packet.{Sectors}
use rainbow_os.Disk.Sectors.{SectorDisk}
use rainbow_os.Fat32.{Fat32}
use rainbow_os.Fat32.Layout.DirEntry
use rainbow_os.Fat32.Contents.{Entry, Stored, load_file-Stored}
use rainbow_os.Fat32.Files.{fill3, find_file}
use rainbow_os.Fat32.Directory.{fill3-words}
use rainbow_os.Fat32.Kinds.{Kind}
use rainbow_os.Fat32.Rounds.{entry_at, Searched, Matches}
use rainbow_os.Fat32.Finding.{find_file-Hits, find_file-Misses}
use rainbow_os.Fat32.Kept.{Entry-Grown, Stored-Grown}
pub mod Machine
mod Tests

module _ (disk_read : DiskRead) (fuel heap last : ℕ) (fs : Fat32)
    (lfn_str directory file result k n room : ℕ) (kinds : ℕ → Kind) (ss : List ℕ) (m : Mem) where
  -- The entry `i` is the first with the name of the file, its clusters are `cs`, and there is room
  -- for the names up to it and for the file.
  pub record FirstMatch (sector : Sectors) (fat_bytes i : ℕ) (cs : List ℕ) : Type 0 where
    pub index : i < n
    pub named :
        Matches disk_read fuel heap last fs lfn_str directory file result k n room kinds ss m i
    pub first :
        (t : ℕ)
        → t < i
        → ¬ Matches disk_read fuel heap last fs lfn_str directory file result k n room kinds ss m t
    pub entry :
        Entry sector disk_read fs fuel heap last room result
          (entry_at disk_read fuel heap last fs lfn_str directory file result k n room kinds ss m i)
          fat_bytes
          ss
          cs
          m
    pub fits :
        (DirEntry.size m (
                  entry_at disk_read fuel heap last fs lfn_str directory file result k n room kinds
                    ss m i)
                / 512
              + 1)
            * 512
          + 8
          + 21 * (i + 1)
        ≤ room
    pub walks : length ss + i + 2 < fuel
    pub rounds : i < fuel

  -- The loop of getRootFile reads the file of the first entry with its name: the result has the code
  -- 0, the size of the file, and a pointer to a buffer in which the first sector of each cluster of
  -- the file stands, in order. The names of the entries before are put on the heap and compared, parts
  -- of long names count as "LFN", and the bytes of the directory, of the name and of the tables lie
  -- in blocks of the heap.
  pub find_file-Stored :
      (sector : Sectors) (fat_bytes i : ℕ) (cs : List ℕ)
      → Searched disk_read fuel heap last fs lfn_str directory file result k n room kinds ss m
      → FirstMatch sector fat_bytes i cs
      → SectorDisk sector disk_read
      → (m' : Mem) × (find_file disk_read fuel heap fs fuel lfn_str 0 directory file result m
          ≡ ok (result, m'))
        × Stored sector disk_read fs fuel heap last room result
            (entry_at disk_read fuel heap last fs lfn_str directory file result k n room kinds ss m
              i)
            fat_bytes
            ss
            cs
            m
            m'
  find_file-Stored sector fat_bytes i cs given found disk =
      let entry =
        entry_at disk_read fuel heap last fs lfn_str directory file result k n room kinds ss m i in
      let (ss', room', m1, e, g) =
        find_file-Hits disk_read fuel heap last fs lfn_str directory file result k n room kinds ss m
          given i fuel found.index found.named found.first (omega (arith, found.fits))
          (omega (arith, found.walks)) found.rounds in
      let entry1 =
        Entry-Grown sector disk_read fs fuel heap last (i + 1) room room' result entry fat_bytes ss
          ss' cs m m1 found.entry g found.fits (omega (arith, found.walks)) in
      let (m', e', s) =
        load_file-Stored sector disk_read fs fuel heap last room' result entry fat_bytes ss' cs m1
          entry1 disk in
      (
        m',
        e ∙ e',
        Stored-Grown sector disk_read fs fuel heap last (i + 1) room room' result entry fat_bytes ss
            ss' cs m m1 found.entry g m' s,
      )

  -- When no entry of the directory has the name of the file, the loop of getRootFile ends with the
  -- code 1 in the result, a size of 0 and no buffer. Room for a name of each entry, and a round more
  -- than there are entries, are enough.
  pub find_file-missing :
      Searched disk_read fuel heap last fs lfn_str directory file result k n room kinds ss m
      → ((t : ℕ)
          → t < n
          → ¬ Matches disk_read fuel heap last fs lfn_str directory file result k n room kinds ss m
              t)
      → 21 * n ≤ room
      → length ss + n < fuel
      → n < fuel
      → result + 12 ≤ 2 ^ 32
      → (m' : Mem) × (find_file disk_read fuel heap fs fuel lfn_str 0 directory file result m
          ≡ ok (result, m'))
        × (read32 m' result ≡ 1)
        × (read32 m' (result + 4) ≡ 0)
        × (read32 m' (result + 8) ≡ 0)
  find_file-missing given differ fits walks rounds high =
      let (ss', room', m1, e, g) =
        find_file-Misses disk_read fuel heap last fs lfn_str directory file result k n room kinds ss
          m given fuel differ fits walks rounds in
      let (code, size, pointer, same) =
        fill3-words result 1 0 0 m1 (omega arith) (omega arith) (omega arith) in
      (fill3 result 1 0 0 m1, e, code, size, pointer)
