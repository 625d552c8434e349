-- ===== src/Fat32.antt =====
-- include/fs/fat32.hpp and lib/fs/fat32.cpp: the FAT32 driver. The structures of the disk are read
-- in the memory, at the offsets of the packed C++ structs (`Layout`). The function pointer
-- `_diskReadFunc` and the heap are parameters of the methods: `heap` is the static of the allocator,
-- and `fuel` bounds the rounds of each loop and of each walk along the heap.
pub mod Layout
pub mod Names
pub mod Clusters
pub mod Chain
pub mod Files
pub mod Listing
pub mod Buffers
pub mod Mount
pub mod Directory
pub mod Contents
pub mod Kinds
pub mod Entries
pub mod Rounds
pub mod Finding
pub mod Kept
pub mod Found
pub mod Root
mod Tests
use rainbow_os.Prelude.{
  ℕ, zero, suc, ◌+◌, ◌*◌, ◌/◌, ◌%◌, ◌^◌, Bool, ◌&&◌, not, ltb, leb, ◌==◌, if◌then◌else◌, add32,
  sub32, mul32, Outcome, ok, out_of_fuel, ◌>>=◌,
}
use rainbow_os.Memory.{Mem, write8, read32}
use rainbow_os.Heap.{kalloc}
use rainbow_os.Disk.{DiskRead}
use Layout.Vbr
use Layout.DirEntry

abbrev pub sector_size : ℕ
sector_size = 512

-- The private members of class fat32: `_FATptr`, `_vbr` and `_partitionLBA`.
pub record Fat32 : Type 0 where
  pub fat_ptr : ℕ
  pub vbr : ℕ
  pub partition_lba : ℕ

-- The masks `& clusterMask`, `& 0xFFFFFF0` and `& 0xF`.
abbrev pub cluster_mask : ℕ → ℕ
cluster_mask c = c % 2 ^ 28

-- isClusterEnd
unfoldable pub is_cluster_end : ℕ → Bool
is_cluster_end n = leb 0xFFFFFF8 (cluster_mask n) && leb (cluster_mask n) 0xFFFFFFF

-- `_FATptr[cluster] & clusterMask`
unfoldable pub next_cluster : Fat32 → Mem → ℕ → ℕ
next_cluster fs m cluster = cluster_mask (read32 m (fs.fat_ptr + 4 * cluster))

-- The test of readDir for a directory of several clusters.
unfoldable pub is_multicluster : ℕ → Bool
is_multicluster cluster = not (cluster / 2 ^ 4 * 2 ^ 4 == 0xFFFFFF0) && ltb (cluster % 2 ^ 4) 8

unfoldable pub first_data_sector : Fat32 → Mem → ℕ
first_data_sector fs m =
    add32 (Vbr.reserved_sectors m fs.vbr)
      (mul32 (Vbr.number_of_fats m fs.vbr) (Vbr.sectors_per_fat m fs.vbr))

-- The sector at which a cluster begins, on `size_t`.
unfoldable pub cluster_lba : Fat32 → Mem → ℕ → ℕ
cluster_lba fs m cluster =
    add32
      (add32 (mul32 (sub32 cluster 2) (Vbr.sectors_per_cluster m fs.vbr)) (first_data_sector fs m))
      fs.partition_lba

-- fat32::init: the return code, the object and the memory.
unfoldable pub init : DiskRead → ℕ → ℕ → ℕ → Fat32 → Mem → Outcome (ℕ × Fat32 × Mem)
init disk_read fuel heap partition_lba fs m = kalloc fuel heap Vbr.size_of m >>= λ (vbr, m1).
    let fs1 = record fs { vbr = vbr } in
    if vbr == 0
    then ok (99, fs1, m1)
    else (disk_read partition_lba vbr 1 m1 >>= λ (got_vbr, m2).
        let fat_sectors = Vbr.sectors_per_fat m2 vbr in
        if not got_vbr
        then ok (1, fs1, m2)
        else (kalloc fuel heap (mul32 fat_sectors sector_size / 4 * 4) m2 >>= λ (fat, m3).
            let fs2 = record fs1 { fat_ptr = fat } in
            if fat == 0
            then ok (99, fs2, m3)
            else (disk_read (add32 partition_lba (Vbr.reserved_sectors m3 vbr)) fat fat_sectors m3
                >>= λ (got_fat, m4).
                    if not got_fat
                    then ok (2, fs2, m4)
                    else ok (0, record fs2 { partition_lba = partition_lba }, m4))))

-- `for ( ; i < 8; i++) { ...; if(c == ' ') break; fileName[i] = c; }`, which ends with `i`; the
-- rounds left count up to 8
unfoldable pub copy_name : ℕ → ℕ → ℕ → ℕ → Mem → ℕ × Mem
copy_name zero i entry str m = (i, m)
copy_name (suc n) i entry str m =
    let c = DirEntry.file_name m entry i in
    let rest = copy_name n (i + 1) entry str (write8 m (str + i) c) in
    if c == b' ' then (i, m) else rest

-- `for (size_t j = 0; j < 3; j++,i++) fileName[i] = fileExtension[j];`
unfoldable pub copy_extension : ℕ → ℕ → ℕ → ℕ → ℕ → Mem → Mem
copy_extension zero j i entry str m = m
copy_extension (suc n) j i entry str m =
    copy_extension n (j + 1) (i + 1) entry str
      (write8 m (str + i) (DirEntry.file_extension m entry j))

abbrev pub subdirectory : ℕ
subdirectory = 0x10

abbrev pub lfn : ℕ
lfn = 0x0f

-- What nameFromEntry and getInternalDirectoryList write for an entry that is no LFN entry: the name,
-- a dot and the extension unless it is a subdirectory, and a NUL.
unfoldable pub write_name : ℕ → ℕ → Mem → Mem
write_name entry str m =
    let (i, m1) = copy_name 8 0 entry str m in
    let m2 = copy_extension 3 0 (i + 1) entry str (write8 m1 (str + i) b'.') in
    if not (DirEntry.attributes m1 entry == subdirectory)
    then write8 m2 (str + (i + 1 + 3)) 0
    else write8 m1 (str + i) 0

abbrev pub fat_name_size : ℕ
fat_name_size = 13

-- fat32::nameFromEntry: the pointer to the name. `lfn_str` is the static string "LFN".
unfoldable pub name_from_entry : ℕ → ℕ → ℕ → ℕ → Mem → Outcome (ℕ × Mem)
name_from_entry fuel heap lfn_str entry m =
    if DirEntry.attributes m entry == lfn
    then ok (lfn_str, m)
    else (kalloc fuel heap fat_name_size m >>= λ (file_name, m').
        ok (file_name, write_name entry file_name m'))

-- `while (*reinterpret_cast<uint8_t*>(dirPtr + numEntries) != 0) numEntries++;`
unfoldable pub count_entries : ℕ → ℕ → ℕ → Mem → Outcome ℕ
count_entries zero dir n m = out_of_fuel
count_entries (suc fuel) dir n m =
    let rest = count_entries fuel dir (n + 1) m in
    if m (dir + DirEntry.size_of * n) == 0 then ok n else rest
