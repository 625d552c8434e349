-- ===== src/Fat32/Found/Machine.antt =====
-- The memory and the disk of the tests: a volume with a file of two clusters.
use rainbow_os.Prelude.{
  ℕ, ◌%◌, refl, ◌&&◌, ◌||◌, List, [], ◌∷◌, arith, ltb, leb, ◌==◌, if◌then◌else◌,
}
use rainbow_os.Memory.{Mem}
use rainbow_os.Disk.{Int13, DiskRead, disk_read_func}
use rainbow_os.Disk.Packet.{packet_count, packet_buffer, packet_lba, Sectors, loaded}
use rainbow_os.Disk.Sectors.{SectorDisk, disk_read_func-SectorDisk}
use rainbow_os.Fat32.{Fat32}
use rainbow_os.Fat32.Kinds.{Kind, file, long_name}

abbrev pub volume : Fat32
volume = record { fat_ptr = 0x10210; vbr = 0x10008; partition_lba = 64 }

abbrev pub numbered : Sectors
numbered lba k = lba % 256

abbrev pub bios : Int13
bios drive m = (0, loaded numbered (packet_lba m) (packet_buffer m) (packet_count m) m)

abbrev pub disk : DiskRead
disk = disk_read_func bios 128

pub disk-SectorDisk : SectorDisk numbered disk
disk-SectorDisk =
    disk_read_func-SectorDisk numbered 128 bios (λ lba k. omega arith) (λ m a b c. refl)
      (omega arith)

-- The strings "A.TXT" at 0x1000 and "LFN" at 0x1010, and in blocks of the heap: a boot record of
-- clusters of one sector, a table where cluster 3 follows 2, the directory, with a part of a long
-- name and the entry of A.TXT, of 600 bytes from cluster 2 on, what readDir gave for it, and the
-- struct of the result.
abbrev pub names : Mem
names x =
    if x == 0x1000
    then b'A'
    else if x == 0x1001
    then b'.'
    else if x == 0x1002 || x == 0x1004
    then b'T'
    else if x == 0x1003
    then b'X'
    else if x == 0x1010
    then b'L'
    else if x == 0x1011
    then b'F'
    else if x == 0x1012
    then b'N'
    else 0

abbrev pub second_entry : Mem
second_entry x =
    if x == 0x10438
    then b'A'
    else if leb 0x10439 x && leb x 0x1043f
    then b' '
    else if x == 0x10440 || x == 0x10442
    then b'T'
    else if x == 0x10441
    then b'X'
    else if x == 0x10443
    then 0x20
    else if x == 0x10452 || x == 0x10455
    then 2
    else if x == 0x10454
    then 0x58
    else 0

abbrev pub headers : Mem
headers x =
    if x == 0x10000
    then 8
    else if x == 0x10001 || x == 0x10624
    then 2
    else if x == 0x10208
    then 0x10
    else if x == 0x10209 || x == 0x10629
    then 4
    else if x == 0x10410 || x == 0x10628
    then 0x18
    else if x == 0x10411 || x == 0x10619 || x == 0x1062d
    then 6
    else if x == 0x10618
    then 0x2c
    else if x == 0x1062c
    then 0x40
    else if x == 0x10641
    then 0x20
    else if x == 0x10218
    then 3
    else if leb 0x1021c x && leb x 0x1021e
    then 0xff
    else if x == 0x1021f || x == 0x10423
    then 0xf
    else if x == 0x10002 || x == 0x10004 || x == 0x10015 || x == 0x1020a || x == 0x1020c
    then 1
    else if x == 0x10412 || x == 0x10414 || x == 0x1061a || x == 0x1061c || x == 0x1062a
    then 1
    else if x == 0x1062e || x == 0x10630 || x == 0x10642 || x == 0x12004
    then 1
    else 0

abbrev pub machine : Mem
machine x =
    if ltb x 0x2000
    then names x
    else if leb 0x10438 x && ltb x 0x10458
    then second_entry x
    else headers x

abbrev pub kinds : ℕ → Kind
kinds i = if i == 0 then long_name else file 1

abbrev pub block_sizes : List ℕ
block_sizes = 512 ∷ 512 ∷ 512 ∷ 12 ∷ 12 ∷ []
