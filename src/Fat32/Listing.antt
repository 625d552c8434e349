-- ===== src/Fat32/Listing.antt =====
-- lib/fs/fat32.cpp: getInternalDirectoryList. The two arrays named `str` of its loop lie on the stack,
-- at `lfn_str` and `str`; the pointer to the former stays in the list behind its scope. The struct
-- fat32_internalDirList has four words.
use rainbow_os.Prelude.{
  ℕ, zero, suc, ◌+◌, ◌*◌, ltb, ◌==◌, if◌then◌else◌, add32, mul32, Outcome, ok, out_of_fuel, ◌>>=◌,
}
use rainbow_os.Memory.{Mem, write8, read32, write32}
use rainbow_os.Str.{strlen, strcpy}
use rainbow_os.Heap.{kalloc}
use rainbow_os.Disk.{DiskRead}
use rainbow_os.Fat32.Layout.Vbr
use rainbow_os.Fat32.Layout.DirEntry
use rainbow_os.Fat32.Files.{num_entries, entries, read_dir}
use rainbow_os.Fat32.{Fat32, lfn, write_name}

-- The size of fat32_internalDirList.
abbrev pub list_size : ℕ
list_size = 4 + 4 + 4 + 4

-- `char str[] = "LFN";`
unfoldable pub store_lfn : ℕ → Mem → Mem
store_lfn str m =
    write8 (write8 (write8 (write8 m str b'L') (str + 1) b'F') (str + 2) b'N') (str + 3) 0

module _ (fuel heap lfn_str str : ℕ) where
  -- One round: the name and the attributes of entry `i`, at `entry`. `attr` is read in the struct.
  unfoldable pub list_entry : ℕ → ℕ → ℕ → ℕ → Mem → Outcome Mem
  list_entry entry list result i m =
      let with_lfn = write32 (store_lfn lfn_str m) (list + 4 * i) lfn_str in
      let named = write_name entry str m in
      let other = strlen fuel named str >>= λ len.
      kalloc fuel heap (add32 len 1) named >>= λ (copy, m1).
      strcpy fuel copy str (write32 m1 (list + 4 * i) copy) >>= λ m2.
      ok (write32 m2 (read32 m2 (result + 12) + 4 * i) (DirEntry.attributes m2 entry)) in
      if DirEntry.attributes m entry == lfn
      then ok (write32 with_lfn (read32 with_lfn (result + 12) + 4 * i) lfn)
      else other

  -- `for (size_t i = 0; i < dirStruct->numEntries; i++)`
  unfoldable pub list_entries : ℕ → ℕ → ℕ → ℕ → ℕ → Mem → Outcome Mem
  list_entries zero directory list result i m = out_of_fuel
  list_entries (suc rounds) directory list result i m =
      let entry = entries m directory + DirEntry.size_of * i in
      let round = list_entry entry list result i m >>= λ m'.
      list_entries rounds directory list result (i + 1) m' in
      if ltb i (num_entries m directory) then round else ok m

  -- fat32::getInternalDirectoryList, which does not read its argument: the pointer to the result
  unfoldable pub get_internal_directory_list : DiskRead → Fat32 → Mem → Outcome (ℕ × Mem)
  get_internal_directory_list disk_read fs m =
      read_dir disk_read fuel heap fs (Vbr.cluster_number_root m fs.vbr) m >>= λ (directory, m1).
      kalloc fuel heap list_size m1 >>= λ (result, m2).
      kalloc fuel heap (mul32 4 (num_entries m2 directory)) m2 >>= λ (list, m3).
      kalloc fuel heap (mul32 4 (num_entries m3 directory)) m3 >>= λ (attr, m4).
      list_entries fuel directory list result 0 (write32 m4 (result + 12) attr) >>= λ m5.
      let m6 = write32 m5 (result + 8) list in
      let m7 = write32 m6 (result + 4) (num_entries m6 directory) in
      ok (result, write32 m7 result 0)
