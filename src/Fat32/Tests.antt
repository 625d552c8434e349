-- ===== src/Fat32/Tests.antt =====
-- The ends of chains, a volume that is mounted, and a directory that is read.
use rainbow_os.Prelude.{
  ℕ, ◌%◌, ◌^◌, ◌≤◌, ◌<◌, ◌≡◌, refl, ◌↔◌, inl, true, false, ◌||◌, [], ◌∷◌, arith, ◌==◌,
  if◌then◌else◌, ok,
}
use rainbow_os.Memory.{Mem, read16, read32}
use rainbow_os.Disk.{Int13, disk_read_func}
use rainbow_os.Disk.Packet.{packet_count, packet_buffer, packet_lba, Sectors, loaded}
use rainbow_os.Disk.Sectors.{SectorDisk, disk_read_func-SectorDisk}
use rainbow_os.Fat32.{Fat32, is_cluster_end, is_multicluster, next_cluster}
use rainbow_os.Fat32.{subdirectory, write_name}
use rainbow_os.Fat32.Clusters.{is_cluster_end_iff, is_multicluster_misses}
use rainbow_os.Heap.{get_next, get_reserved}
use rainbow_os.Fat32
use rainbow_os.Fat32.Layout.Vbr
use rainbow_os.Fat32.{cluster_lba}
use rainbow_os.Fat32.Files.{read_dir}
use rainbow_os.Fat32.Mount.{Fits, Mounted, init-Mounted}
use rainbow_os.Fat32.Directory.{Directory, Listed, read_dir-Listed}

abbrev unmounted : Fat32
unmounted = record { fat_ptr = 0; vbr = 0; partition_lba = 0 }

is_cluster_end_iff_example : (is_cluster_end 0xFFFFFFF8 ≡ true) ↔ (0xFFFFFF8 ≤ 0xFFFFFFF8 % 2 ^ 28)
is_cluster_end_iff_example = is_cluster_end_iff 0xFFFFFFF8

is_multicluster_misses_example :
    (is_cluster_end 9 ≡ false) × ((is_multicluster 9 ≡ true) ↔ (9 % 16 < 8))
is_multicluster_misses_example = is_multicluster_misses 9 (omega arith)

-- A disk whose sectors all begin with an `A` and name one reserved sector and a table of one sector.
abbrev small_volume : Sectors
small_volume lba k = if k == 0 then b'A' else if k == 14 || k == 36 then 1 else 0

abbrev small_bios : Int13
small_bios drive m = (0, loaded small_volume (packet_lba m) (packet_buffer m) (packet_count m) m)

small_disk-SectorDisk : SectorDisk small_volume (disk_read_func small_bios 128)
small_disk-SectorDisk =
    disk_read_func-SectorDisk small_volume 128 small_bios (λ lba k. ground arith) (λ m a b c. refl)
      (omega arith)

-- A heap of one free block from 0x10000 to 0x12000.
abbrev fresh_heap : Mem
fresh_heap x = if x == 0x10001 then 0x20 else if x == 0x10002 || x == 0x12004 then 1 else 0

fresh_heap-Fits :
    Fits small_volume
      (disk_read_func small_bios 128)
      small_disk-SectorDisk
      0x10000
      8184
      64
      fresh_heap
unfolding get_next get_reserved read32 read16 Vbr.sectors_per_fat Vbr.reserved_sectors
fresh_heap-Fits = record {
  fresh = (refl, refl, (refl, omega arith, refl, refl));
  bytes = λ x. ground arith;
  low = omega arith;
  high = omega arith;
  fits = omega arith;
  readable = omega arith;
  numbers = omega arith;
}

init-Mounted_example :
    (fs' : Fat32) × (m' : Mem) × (Fat32.init
        (disk_read_func small_bios 128)
        4
        0x10000
        64
        unmounted
        fresh_heap
      ≡ ok (0, fs', m'))
    × Mounted small_volume
        (disk_read_func small_bios 128)
        small_disk-SectorDisk
        0x10000
        8184
        64
        fs'
        m'
init-Mounted_example =
    init-Mounted small_volume (disk_read_func small_bios 128) small_disk-SectorDisk 0x10000 8184 64
      4 unmounted fresh_heap fresh_heap-Fits (omega arith)

-- The heap behind a boot record of clusters of one sector, and an end of a chain in the table.
abbrev mounted : Fat32
mounted = record { fat_ptr = 0x30000; vbr = 0x10008; partition_lba = 64 }

abbrev mounted_heap : Mem
mounted_heap x =
    if x == 0x10000
    then 8
    else if x == 0x10001 || x == 0x10014
    then 2
    else if x == 0x10002 || x == 0x10004 || x == 0x10015 || x == 0x1020a || x == 0x12004
    then 1
    else if x == 0x10209
    then 0x20
    else if x == 0x30008
    then 0xff
    else 0

mounted_heap-Directory :
    Directory small_volume
      (disk_read_func small_bios 128)
      mounted
      9
      0x10000
      0x12000
      7664
      2
      1
      (512 ∷ [])
      mounted_heap
unfolding get_next get_reserved read32 read16 Vbr.bytes_per_sector Vbr.sectors_per_cluster
    is_multicluster next_cluster cluster_lba
mounted_heap-Directory = record {
  chain = (refl, refl, (refl, refl, (refl, omega arith, refl, refl)));
  bytes = λ x. ground arith;
  low = omega arith;
  high = omega arith;
  boot_record = λ x lo hi. inl (refl, lo, omega arith);
  sector_bytes = refl;
  single = refl;
  fits = omega arith;
  readable = omega arith;
  numbers = omega arith;
  used = λ i h. ground arith;
  stop = refl;
  closed = omega arith;
  counts = omega arith;
  walks = omega arith;
}

read_dir-Listed_example :
    (result : ℕ) × (m' : Mem) × (read_dir
        (disk_read_func small_bios 128)
        9
        0x10000
        mounted
        2
        mounted_heap
      ≡ ok (result, m'))
    × Listed small_volume
        (disk_read_func small_bios 128)
        mounted
        9
        0x10000
        0x12000
        7664
        2
        1
        (512 ∷ [])
        mounted_heap
        result
        m'
read_dir-Listed_example =
    read_dir-Listed small_volume (disk_read_func small_bios 128) mounted 9 0x10000 0x12000 7664 2 1
      (512 ∷ []) mounted_heap small_disk-SectorDisk mounted_heap-Directory
