-- ===== src/Fat32/Root/Tests.antt =====
-- getRootFile on a volume with a directory of two entries, the second of a file of two clusters.
use rainbow_os.Prelude.{
  ℕ, zero, suc, ◌+◌, ◌-◌, ◌*◌, ◌/◌, ◌%◌, ◌<◌, ◌≡◌, refl, ap, ◌∙◌, ◌≢◌, inl, inr, ◌&&◌, ◌||◌, List,
  [], ◌∷◌, arith, ltb, leb, ◌==◌, if◌then◌else◌, ok,
}
use rainbow_os.Memory.{Mem, inside, read16, read32}
use rainbow_os.Heap.{get_next, get_reserved}
use rainbow_os.Disk.{Int13, DiskRead, disk_read_func}
use rainbow_os.Disk.Packet.{packet_count, packet_buffer, packet_lba, Sectors, loaded}
use rainbow_os.Disk.Sectors.{SectorDisk, disk_read_func-SectorDisk}
use rainbow_os.Fat32.{is_cluster_end, is_multicluster, next_cluster, cluster_lba, first_data_sector}
use rainbow_os.Fat32.Layout.Vbr
use rainbow_os.Fat32.Layout.DirEntry
use rainbow_os.Fat32.Names.{file_char}
use rainbow_os.Fat32.Directory.{Directory}
use rainbow_os.Fat32.Files.{get_root_file}
use rainbow_os.Fat32.Kinds.{IsKind, name_length, name_char}
use rainbow_os.Fat32.Found.Machine.{volume, kinds, names, second_entry}
use rainbow_os.Fat32.Root.{with_directory, RootFile, FileRead}
use rainbow_os.Fat32.Root.Reading.{get_root_file-FileRead}

-- The sector of the directory, and what the other sectors hold.
abbrev directory_sector : ℕ → ℕ
directory_sector k =
    if k == 0
    then b'A'
    else if k == 11
    then 0xf
    else if leb 32 k && ltb k 64
    then second_entry (0x10418 + k)
    else 0

abbrev sectors : Sectors
sectors lba k = if lba == 67 then directory_sector k else lba % 256

abbrev bios : Int13
bios drive m = (0, loaded sectors (packet_lba m) (packet_buffer m) (packet_count m) m)

abbrev small_disk : DiskRead
small_disk = disk_read_func bios 128

small_disk-SectorDisk : SectorDisk sectors small_disk
small_disk-SectorDisk =
    disk_read_func-SectorDisk sectors 128 bios (λ lba k. ground arith) (λ m a b c. refl)
      (omega arith)

-- The strings "A.TXT" at 0x8000 and "LFN" at 0x8010, and on the heap a boot record of clusters of one
-- sector with the root in cluster 5, and a table where cluster 3 follows 2.
abbrev machine : Mem
machine x =
    if leb 0x8000 x && ltb x 0x8020
    then names (x - 0x7000)
    else if x == 0x10000
    then 8
    else if x == 0x10001 || x == 0x10014
    then 2
    else if x == 0x10208
    then 0x10
    else if x == 0x10209
    then 4
    else if x == 0x10411
    then 0x20
    else if x == 0x10034
    then 5
    else if x == 0x10218
    then 3
    else if leb 0x1021c x && leb x 0x1021e || leb 0x10224 x && leb x 0x10226
    then 0xff
    else if x == 0x1021f || x == 0x10227
    then 0xf
    else if x == 0x10002 || x == 0x10004 || x == 0x10015 || x == 0x1020a || x == 0x1020c
    then 1
    else if x == 0x10412 || x == 0x12004
    then 1
    else 0

abbrev block_sizes : List ℕ
block_sizes = 512 ∷ 512 ∷ []

used_entry :
    (i : ℕ) → i < 2 → sectors (cluster_lba volume machine 5 + 32 * i / 512) (32 * i % 512) ≢ 0
unfolding read32 read16 Vbr.sectors_per_cluster cluster_lba first_data_sector Vbr.reserved_sectors
    Vbr.number_of_fats Vbr.sectors_per_fat
used_entry zero h = omega arith
used_entry (suc zero) h = omega arith
used_entry (suc (suc i)) h = absurd (omega arith)

root-Directory : Directory sectors small_disk volume 14 0x10000 0x12000 7144 5 2 block_sizes machine
unfolding get_next get_reserved read32 read16 Vbr.bytes_per_sector Vbr.sectors_per_cluster
    is_multicluster next_cluster cluster_lba first_data_sector Vbr.reserved_sectors
    Vbr.number_of_fats Vbr.sectors_per_fat
root-Directory = record {
  chain = (refl, refl, (refl, refl, (refl, refl, (refl, omega arith, refl, refl))));
  bytes = λ x. ground arith;
  low = omega arith;
  high = omega arith;
  boot_record = λ x lo hi. inl (refl, lo, omega arith);
  sector_bytes = refl;
  single = refl;
  fits = omega arith;
  readable = omega arith;
  numbers = omega arith;
  used = used_entry;
  stop = refl;
  closed = omega arith;
  counts = omega arith;
  walks = omega arith;
}

abbrev view : Mem
view =
    with_directory sectors small_disk volume 14 0x10000 0x12000 7144 2 0x8010 0x8000 5 512 1 kinds
      block_sizes (2 ∷ 3 ∷ []) machine

placed :
    (bytes : ℕ → ℕ) (other j : ℕ)
    → j < 32
    → (if inside 0x10418 512 (0x10438 + j)
        then if 67 + (0x10438 + j - 0x10418) / 512 == 67
          then bytes ((0x10438 + j - 0x10418) % 512)
          else (67 + (0x10438 + j - 0x10418) / 512) % 256
        else other)
      ≡ bytes (32 + j)
placed bytes other j h =
    let at : (0x10438 + j - 0x10418) % 512 ≡ 32 + j = omega arith in ground (arith, ap bytes at)

second :
    (bytes : ℕ → ℕ) (j : ℕ)
    → j < 32
    → (if 32 + j == 0
        then b'A'
        else if 32 + j == 11
        then 0xf
        else if leb 32 (32 + j) && ltb (32 + j) 64
        then bytes (0x10418 + (32 + j))
        else 0)
      ≡ bytes (0x10438 + j)
second bytes j h =
    let at : 0x10418 + (32 + j) ≡ 0x10438 + j = omega arith in ground (arith, ap bytes at)

-- The second entry is the one of the directory's sector.
view_entry : (j : ℕ) → j < 32 → view (0x10438 + j) ≡ second_entry (0x10438 + j)
unfolding read32 read16 Vbr.cluster_number_root Vbr.sectors_per_cluster cluster_lba
    first_data_sector Vbr.reserved_sectors Vbr.number_of_fats Vbr.sectors_per_fat
view_entry j h = placed directory_sector (machine (0x10438 + j)) j h ∙ second second_entry j h

kinds-IsKind : (i : ℕ) → i < 2 → IsKind view (0x10418 + 32 * i) (kinds i)
unfolding DirEntry.attributes read32 read16 Vbr.cluster_number_root Vbr.sectors_per_cluster
    cluster_lba first_data_sector Vbr.reserved_sectors Vbr.number_of_fats Vbr.sectors_per_fat
kinds-IsKind zero h = refl
kinds-IsKind (suc zero) h = (
  omega arith,
  omega arith,
  record {
    most = omega arith;
    chars = λ j lt. ground (arith, view_entry j (omega arith));
    space = λ lt. refl;
  },
  λ j le. ground (arith, view_entry j (omega arith)),
)
kinds-IsKind (suc (suc i)) h = absurd (omega arith)

same_char : (j : ℕ) → j < 5 → file_char view 0x10438 1 j ≡ machine (0x8000 + j)
unfolding read32 read16 Vbr.cluster_number_root Vbr.sectors_per_cluster cluster_lba
    first_data_sector Vbr.reserved_sectors Vbr.number_of_fats Vbr.sectors_per_fat
same_char zero h = refl
same_char (suc zero) h = refl
same_char (suc (suc zero)) h = refl
same_char (suc (suc (suc zero))) h = refl
same_char (suc (suc (suc (suc zero)))) h = refl
same_char (suc (suc (suc (suc (suc j))))) h = absurd (omega arith)

first_entry :
    (i : ℕ)
    → i < 1
    → ¬ (
        (name_length (kinds i) ≡ 5)
        × ((q : ℕ)
            → q < 5
            → name_char view 0x8010 (0x10418 + 32 * i) (kinds i) q ≡ machine (0x8000 + q)))
first_entry zero h p = absurd (omega (arith, p.0))
first_entry (suc i) h p = absurd (omega arith)

root-RootFile :
    RootFile sectors small_disk volume 14 0x10000 0x12000 7144 2 0x8010 0x8000 5 512 1 kinds
      block_sizes
      (2 ∷ 3 ∷ [])
      machine
unfolding read32 read16 Vbr.cluster_number_root Vbr.sectors_per_cluster cluster_lba next_cluster
    is_cluster_end DirEntry.size DirEntry.high_cluster_number DirEntry.low_cluster_number
    DirEntry.attributes first_data_sector Vbr.reserved_sectors Vbr.number_of_fats
    Vbr.sectors_per_fat
root-RootFile = record {
  directory = root-Directory;
  kind = kinds-IsKind;
  name =
      (record { chars = λ j h. ground arith; closed = refl }, omega arith, λ x lo hi. ground arith);
  lfn =
      (record { chars = λ j h. ground arith; closed = refl }, omega arith, λ x lo hi. ground arith);
  index = omega arith;
  named = (refl, same_char);
  first = first_entry;
  table = λ x lo hi. inr (inl (refl, lo, omega arith));
  clusters = (refl, refl, (refl, refl, refl));
  in_table = (omega arith, (omega arith, tt));
  enough_sectors = omega arith;
  room_left = omega arith;
  walks = omega arith;
  chain_rounds = omega arith;
  compares = omega arith;
}

get_root_file-FileRead_example :
    (m' : Mem) × (get_root_file small_disk 14 0x10000 volume 0x8010 0x8000 machine
      ≡ ok (0x10634, m'))
    × FileRead sectors small_disk volume 14 0x10000 0x12000 7144 2 0x8010 0x8000 5 512 1 kinds
        block_sizes
        (2 ∷ 3 ∷ [])
        machine
        m'
unfolding Vbr.sectors_per_cluster
get_root_file-FileRead_example =
    get_root_file-FileRead sectors small_disk volume 14 0x10000 0x12000 7144 2 0x8010 0x8000 5 512 1
      kinds block_sizes (2 ∷ 3 ∷ []) machine small_disk-SectorDisk root-RootFile
