-- ===== src/Fat32/Files.antt =====
-- lib/fs/fat32.cpp: readDir, getRootFile and getInternalDirectoryList. The structs that they return
-- are allocated, filled and read in the memory, as `returnCode`, the second and the third field at
-- the offsets 0, 4 and 8.
use rainbow_os.Prelude.{
  ℕ, zero, suc, ◌+◌, ◌*◌, ◌/◌, ◌^◌, not, ltb, ◌==◌, if◌then◌else◌, mul32, Outcome, ok, panic,
  out_of_fuel, ◌>>=◌,
}
use rainbow_os.Memory.{Mem, read32, write32}
use rainbow_os.Str.{strcmp}
use rainbow_os.Heap.{kalloc}
use rainbow_os.Disk.{DiskRead}
use rainbow_os.Fat32.Layout.Vbr
use rainbow_os.Fat32.Layout.DirEntry
use rainbow_os.Fat32.{
  Fat32, sector_size, is_cluster_end, next_cluster, is_multicluster, cluster_lba, name_from_entry,
  count_entries,
}

-- The stores that fill a struct of three words.
unfoldable pub fill3 : ℕ → ℕ → ℕ → ℕ → Mem → Mem
fill3 p a b c m = write32 (write32 (write32 m p a) (p + 4) b) (p + 8) c

-- The fields of readDirResult.
unfoldable pub num_entries : Mem → ℕ → ℕ
num_entries m dir = read32 m (dir + 4)

unfoldable pub entries : Mem → ℕ → ℕ
entries m dir = read32 m (dir + 8)

-- `while (! isClusterEnd(clusterNum))` of getRootFile
unfoldable pub read_clusters : DiskRead → Fat32 → ℕ → ℕ → ℕ → ℕ → Mem → Outcome Mem
read_clusters disk_read fs zero j cluster buffer m = out_of_fuel
read_clusters disk_read fs (suc fuel) j cluster buffer m =
    let round =
      disk_read (cluster_lba fs m cluster) (buffer + mul32 j sector_size) 1 m >>= λ (got, m').
      if not got
      then panic
      else read_clusters disk_read fs fuel (j + 1) (next_cluster fs m' cluster) buffer m' in
    if is_cluster_end cluster then ok m else round

module _ (disk_read : DiskRead) (fuel heap : ℕ) (fs : Fat32) where
  -- fat32::readDir: the pointer to the result
  unfoldable pub read_dir : ℕ → Mem → Outcome (ℕ × Mem)
  read_dir cluster_number m =
      if is_multicluster (next_cluster fs m cluster_number)
      then panic
      else (kalloc fuel heap (Vbr.sectors_per_cluster m fs.vbr * Vbr.bytes_per_sector m fs.vbr) m
          >>= λ (dir_ptr, m1).
              disk_read (cluster_lba fs m1 cluster_number) dir_ptr
                (Vbr.sectors_per_cluster m1 fs.vbr) m1
              >>= λ (got, m2).
                  if not got
                  then panic
                  else (count_entries fuel dir_ptr 0 m2 >>= λ n.
                      kalloc fuel heap 12 m2 >>= λ (result, m3).
                      ok (result, fill3 result 0 n dir_ptr m3)))

  -- getRootFile from the entry that matches on: the buffer, the clusters and the result struct
  unfoldable pub load_file : ℕ → ℕ → Mem → Outcome (ℕ × Mem)
  load_file result entry m =
      let cluster =
        DirEntry.high_cluster_number m entry * 2 ^ 16 + DirEntry.low_cluster_number m entry in
      let num_sectors = DirEntry.size m entry / sector_size + 1 in
      kalloc fuel heap (mul32 num_sectors sector_size) m >>= λ (buffer, m1).
      read_clusters disk_read fs fuel 0 cluster buffer m1 >>= λ m2.
      ok (result, fill3 result 0 (DirEntry.size m2 entry) buffer m2)

  -- `for (size_t i = 0; i < directory->numEntries; i++)` of getRootFile, and what follows it
  unfoldable pub find_file : ℕ → ℕ → ℕ → ℕ → ℕ → ℕ → Mem → Outcome (ℕ × Mem)
  find_file zero lfn_str i directory file result m = out_of_fuel
  find_file (suc rounds) lfn_str i directory file result m =
      let entry = entries m directory + DirEntry.size_of * i in
      let round = name_from_entry fuel heap lfn_str entry m >>= λ (name, m').
      strcmp fuel m' name file >>= λ r.
      if r == 0
      then load_file result entry m'
      else find_file rounds lfn_str (i + 1) directory file result m' in
      if ltb i (num_entries m directory) then round else ok (result, fill3 result 1 0 0 m)

  -- fat32::getRootFile: the pointer to the result
  unfoldable pub get_root_file : ℕ → ℕ → Mem → Outcome (ℕ × Mem)
  get_root_file lfn_str file m =
      read_dir (Vbr.cluster_number_root m fs.vbr) m >>= λ (directory, m1).
      kalloc fuel heap 12 m1 >>= λ (result, m2).
      if not (read32 m2 directory == 0)
      then panic
      else find_file fuel lfn_str 0 directory file result m2
