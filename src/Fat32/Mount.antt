-- ===== src/Fat32/Mount.antt =====
-- fat32::init on a disk and a fresh heap.
use rainbow_os.Prelude.{
  inl, inr, ℕ, ◌+◌, ◌-◌, ◌*◌, ◌/◌, ◌%◌, ◌^◌, ◌≤◌, ◌<◌, ◌≡◌, refl, sym, ap, subst, ◌∙◌, ◌≢◌, true,
  false, [], ◌∷◌, arith, ◌==◌, add32, mul32, ok,
}
use rainbow_os.Memory.{Mem, IsBytes, read16, read32}
use rainbow_os.Heap.{kalloc}
use rainbow_os.Heap.Blocks.{block, Chain}
use rainbow_os.Heap.Bump.{bump}
use rainbow_os.Disk.{DiskRead}
use rainbow_os.Disk.Packet.{Sectors}
use rainbow_os.Disk.Sectors.{SectorDisk}
use rainbow_os.Fat32.{Fat32}
use rainbow_os.Fat32
use rainbow_os.Fat32.Layout.Vbr
use rainbow_os.Fat32.Buffers.{loaded_byte, Buffered, kalloc-Buffered}

-- The fields of a boot record at `vbr` are those of the sector that it is a copy of.
fields-eq :
    (sector : ℕ → ℕ) (vbr : ℕ) (m : Mem)
    → ((i : ℕ) → i < 512 → m (vbr + i) ≡ sector i)
    → (Vbr.sectors_per_fat m vbr ≡ Vbr.sectors_per_fat sector 0)
      × (Vbr.reserved_sectors m vbr ≡ Vbr.reserved_sectors sector 0)
unfolding Vbr.sectors_per_fat Vbr.reserved_sectors read32 read16
fields-eq sector vbr m same =
    let byte : (a k : ℕ) → a ≡ vbr + k → k < 512 → m a ≡ sector k =
      λ a k e h. subst (λ (q : ℕ). m q ≡ sector k) (sym e) (same k h) in
    let b14 = byte (vbr + 14) 14 refl (omega arith) in
    let b15 = byte (vbr + 14 + 1) 15 (omega arith) (omega arith) in
    let b36 = byte (vbr + 36) 36 refl (omega arith) in
    let b37 = byte (vbr + 36 + 1) 37 (omega arith) (omega arith) in
    let b38 = byte (vbr + 36 + 2) 38 (omega arith) (omega arith) in
    let b39 = byte (vbr + 36 + 3) 39 (omega arith) (omega arith) in
    (rw (b36, b37, b38, b39) refl, rw (b14, b15) refl)

-- init, when the two allocations give what is said and the two reads succeed.
init_lem :
    (disk_read : DiskRead) (fuel heap lba vbr fat spf reserved : ℕ) (fs : Fat32)
    (m m1 m2 m3 m4 : Mem)
    → kalloc fuel heap 512 m ≡ ok (vbr, m1)
    → vbr ≢ 0
    → disk_read lba vbr 1 m1 ≡ ok (true, m2)
    → Vbr.sectors_per_fat m2 vbr ≡ spf
    → kalloc fuel heap (mul32 spf 512 / 4 * 4) m2 ≡ ok (fat, m3)
    → fat ≢ 0
    → Vbr.reserved_sectors m3 vbr ≡ reserved
    → disk_read (add32 lba reserved) fat spf m3 ≡ ok (true, m4)
    → Fat32.init disk_read fuel heap lba fs m
      ≡ ok (0, record { fat_ptr = fat; vbr = vbr; partition_lba = lba }, m4)
unfolding Fat32.init
init_lem disk_read fuel heap lba vbr fat spf reserved fs m m1 m2 m3 m4 a nv r s a' nf t r' =
    let v : (vbr == 0) ≡ false = ground arith in
    let f : (fat == 0) ≡ false = ground arith in rw (a, v, r, s, a', f, t, r') refl

module _ (sector : Sectors) (disk_read : DiskRead) (d : SectorDisk sector disk_read)
    (heap room lba : ℕ) where
  -- The sectors of the table and of the reserved region, as the boot record says.
  abbrev pub fat_sectors : ℕ
  fat_sectors = Vbr.sectors_per_fat (sector lba) 0

  abbrev pub first_fat : ℕ
  first_fat = lba + Vbr.reserved_sectors (sector lba) 0

  -- A fresh heap between the packet and the low buffer, with room for the boot record and the table
  -- and a header behind each; a table of sectors that diskRead16 reads; and sector numbers that do not
  -- wrap.
  pub record Fits (m : Mem) : Type 0 where
    pub fresh : Chain m (heap + 8 + room) heap (block room false ∷ [])
    pub bytes : IsBytes m
    pub low : 0x1010 ≤ heap
    pub high : heap + 8 + room + 8 ≤ 0x70000
    pub fits : 520 + (fat_sectors * 512 + 8) ≤ room
    pub readable : fat_sectors % 127 ≢ 0
    pub numbers : first_fat + fat_sectors ≤ 2 ^ 32

  -- What init leaves: the object, the copies of the boot record and of the first table, and the heap.
  pub record Mounted (fs : Fat32) (m : Mem) : Type 0 where
    pub partition : fs.partition_lba ≡ lba
    pub boot_record : (i : ℕ) → i < 512 → m (fs.vbr + i) ≡ sector lba i
    pub table :
        (i : ℕ)
        → i < fat_sectors * 512
        → m (fs.fat_ptr + i) ≡ sector (first_fat + i / 512) (i % 512)
    pub heap_left :
        Chain m
          (heap + 8 + room)
          heap
          (bump (512 ∷ fat_sectors * 512 ∷ []) (room - 512 - 8 - fat_sectors * 512 - 8))
    pub bytes : IsBytes m

  -- The boot record is read into the first block.
  boot_record-Buffered :
      (fuel : ℕ) (m : Mem)
      → Fits m
      → 4 ≤ fuel
      → (m1 m2 : Mem) × Buffered sector disk_read fuel heap (heap + 8 + room) lba 1 room [] m m1 m2
        × ((i : ℕ) → i < 512 → m2 (heap + 8 + i) ≡ sector lba i)
  boot_record-Buffered fuel m f enough =
      let (m1, m2, r) =
        kalloc-Buffered sector disk_read fuel heap (heap + 8 + room) lba 1 room [] m d f.low f.high
          f.fresh f.bytes (omega (arith, f.fits)) (omega arith) (omega arith)
          (omega (arith, f.numbers, f.readable)) in
      (
        m1,
        m2,
        r,
        λ i h.
            let first : lba + i / 512 ≡ lba = omega arith in
            let rest : i % 512 ≡ i = omega arith in
            loaded_byte sector lba (heap + 8) 1 i m1 m2 r.loaded (omega arith)
            ∙ ap (λ (q : ℕ). sector q (i % 512)) first
            ∙ ap (λ (q : ℕ). sector lba q) rest,
      )

  -- On a disk and a fresh heap that fit, init returns 0; the object then points to a copy of the boot
  -- record and to one of the first file allocation table, and the heap has the two blocks and the
  -- rest. Four rounds are enough for the walks along the heap.
  pub init-Mounted :
      (fuel : ℕ) (fs : Fat32) (m : Mem)
      → Fits m
      → 4 ≤ fuel
      → (fs' : Fat32) × (m' : Mem) × (Fat32.init disk_read fuel heap lba fs m ≡ ok (0, fs', m'))
        × Mounted fs' m'
  init-Mounted fuel fs m f enough =
      let vbr = heap + 8 in
      let fat = heap + 8 + 512 + 8 in
      let spf = fat_sectors in
      let reserved = Vbr.reserved_sectors (sector lba) 0 in
      let (m1, m2, one, record2) = boot_record-Buffered fuel m f enough in
      let (m3, m4, two) =
        kalloc-Buffered sector disk_read fuel heap (heap + 8 + room) first_fat spf (room - 512 - 8)
          (512 ∷ []) m2 d f.low f.high one.heap_left one.bytes (omega (arith, f.fits)) (omega arith)
          f.readable f.numbers in
      let record3 : (i : ℕ) → i < 512 → m3 (vbr + i) ≡ sector lba i =
        λ i h. two.kept (vbr + i) (inr (inl (refl, omega arith, omega arith))) ∙ record2 i h in
      let bytes_of : mul32 spf 512 / 4 * 4 ≡ spf * 512 = omega (arith, f.fits, f.high) in
      let start : add32 lba reserved ≡ first_fat = omega (arith, f.numbers, f.readable) in
      (
        record { fat_ptr = fat; vbr = vbr; partition_lba = lba },
        m4,
        init_lem disk_read fuel heap lba vbr fat spf reserved fs m m1 m2 m3 m4 one.allocated
            (omega arith) one.read (fields-eq (sector lba) vbr m2 record2).0
            (rw bytes_of two.allocated) (omega arith) (fields-eq (sector lba) vbr m3 record3).1
            (rw start two.read),
        record {
          partition = refl;
          boot_record = λ i h.
              two.loaded.1 (vbr + i) (ground arith) (ground (arith, f.high, f.low)) ∙ record3 i h;
          table = λ i h. loaded_byte sector first_fat fat spf i m3 m4 two.loaded h;
          heap_left = two.heap_left;
          bytes = two.bytes;
        },
      )
