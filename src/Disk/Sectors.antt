-- ===== src/Disk/Sectors.antt =====
-- The whole of diskRead16.
use rainbow_os.Prelude.{
  u32, u16, ℕ, zero, suc, ◌+◌, ◌-◌, ◌*◌, ◌/◌, ◌%◌, ◌^◌, ◌≤◌, ◌<◌, ◌≡◌, refl, sym, ap, subst, ◌∙◌,
  ◌≢◌, true, false, arith, add32, ok, panic,
}
use rainbow_os.Memory.{Mem, IsBytes, inside}
use rainbow_os.Disk.{disk_read_func, DiskRead, fill_dap, Int13, read_chunk, read_loop, disk_read16}
use rainbow_os.Disk.Packet.{Sectors, IsDisk, ReadsPackets}
use rainbow_os.Disk.Chunk.{scratch, Loads, read_chunk-Loads, Loads-join}

-- The loop at its last round, and at one before it.
read_loop-zero :
    (int13 : Int13) (disk last lba buffer : ℕ) (m : Mem)
    → read_loop int13 zero lba buffer last disk m ≡ read_chunk int13 lba buffer last disk m
unfolding read_loop
read_loop-zero int13 disk last lba buffer m = refl

read_loop-suc :
    (int13 : Int13) (disk n last lba buffer : ℕ) (m m1 : Mem)
    → read_chunk int13 lba buffer 127 disk m ≡ ok m1
    → lba + 127 < 2 ^ 32
    → buffer + 65024 < 2 ^ 32
    → read_loop int13 (suc n) lba buffer last disk m
      ≡ read_loop int13 n (lba + 127) (buffer + 65024) last disk m1
unfolding read_loop
read_loop-suc int13 disk n last lba buffer m m1 e h k =
    let p : add32 lba 127 ≡ lba + 127 = omega arith in
    let q : add32 buffer 65024 ≡ buffer + 65024 = omega arith in
    rw e (
      ap (λ (l : ℕ). read_loop int13 n l (add32 buffer 65024) last disk m1) p
      ∙ ap (λ (c : ℕ). read_loop int13 n (lba + 127) c last disk m1) q)

module _ (sector : Sectors) (disk : ℕ) (int13 : Int13) (is : IsDisk sector)
    (reads : ReadsPackets sector disk int13) where
  read_loop-Loads :
      (n last lba buffer : ℕ) (m : Mem)
      → IsBytes m
      → 1 ≤ last
      → last ≤ 127
      → lba + 127 * n < 2 ^ 32
      → buffer + (127 * n + last) * 512 ≤ 2 ^ 32
      → ((x : ℕ) → inside buffer ((127 * n + last) * 512) x ≡ true → scratch x ≡ false)
      → (m' : Mem) × (read_loop int13 n lba buffer last disk m ≡ ok m')
        × Loads sector lba buffer (127 * n + last) m m'
        × IsBytes m'
  read_loop-Loads zero last lba buffer m b one most lim top apart =
      let (m', e, l, b') =
        read_chunk-Loads sector disk int13 is reads lba buffer last m b (omega arith) one most in
      let k : 127 * 0 + last ≡ last = omega arith in
      (
        m',
        read_loop-zero int13 disk last lba buffer m ∙ e,
        subst (λ c. Loads sector lba buffer c m m') (sym k) l,
        b',
      )
  read_loop-Loads (suc n) last lba buffer m b one most lim top apart =
      let (m1, e, l, b1) =
        read_chunk-Loads sector disk int13 is reads lba buffer 127 m b (omega arith) (omega arith)
          (omega arith) in
      let (m', e', l', b') =
        read_loop-Loads n last (lba + 127) (buffer + 65024) m1 b1 one most (omega arith)
          (omega arith) (λ x i. apart x (ground arith)) in
      let k : 127 * suc n + last ≡ 127 + (127 * n + last) = omega arith in
      (
        m',
        read_loop-suc int13 disk n last lba buffer m m1 e (omega arith) (omega arith) ∙ e',
        subst (λ c. Loads sector lba buffer c m m') (sym k)
            (Loads-join sector lba buffer (127 * n + last) m m1 m' (λ x i. apart x (ground arith)) l
              l'),
        b',
      )

  -- On a BIOS that reads what a packet of 1 to 127 sectors asks for, diskRead16 of a number of
  -- sectors that is no multiple of 127 succeeds and leaves exactly those sectors in the buffer;
  -- nothing else changes but the packet and the low buffer. The buffer must not touch those two,
  -- and neither it nor the sector numbers may wrap.
  pub disk_read16-Loads :
      (lba buffer sectors : ℕ) (m : Mem)
      → IsBytes m
      → sectors % 127 ≢ 0
      → lba + sectors ≤ 2 ^ 32
      → buffer + sectors * 512 ≤ 2 ^ 32
      → ((x : ℕ) → inside buffer (sectors * 512) x ≡ true → scratch x ≡ false)
      → (m' : Mem) × (disk_read16 int13 lba buffer sectors disk m ≡ ok (true, m'))
        × Loads sector lba buffer sectors m m'
        × IsBytes m'
  unfolding disk_read16
  disk_read16-Loads lba buffer sectors m b ne lim top apart =
      let n = sectors / 127 in
      let last = sectors - 127 * n in
      let k : 127 * n + last ≡ sectors = omega arith in
      let (m', e, l, b') =
        read_loop-Loads n last lba buffer m b (omega arith) (omega arith) (omega arith)
          (omega arith) (λ x i. apart x (ground arith)) in
      (m', rw e, subst (λ c. Loads sector lba buffer c m m') k l, b')

-- What the file system needs of a disk: it reads a number of sectors that is no multiple of 127
-- into a buffer away from the scratch, and keeps the memory one of bytes.
pub record SectorDisk (sector : Sectors) (disk_read : DiskRead) : Type 0 where
  pub bytes : IsDisk sector
  pub reads :
      (lba buffer n : ℕ) (m : Mem)
      → IsBytes m
      → n % 127 ≢ 0
      → lba + n ≤ 2 ^ 32
      → buffer + n * 512 ≤ 2 ^ 32
      → ((x : ℕ) → inside buffer (n * 512) x ≡ true → scratch x ≡ false)
      → (m' : Mem) × (disk_read lba buffer n m ≡ ok (true, m'))
        × Loads sector lba buffer n m m'
        × IsBytes m'

-- diskReadFunc on such a BIOS is a disk that the file system can use.
pub disk_read_func-SectorDisk :
    (sector : Sectors) (disk : ℕ) (int13 : Int13)
    → IsDisk sector
    → ReadsPackets sector disk int13
    → disk < 2 ^ 16
    → SectorDisk sector (disk_read_func int13 disk)
unfolding disk_read_func
disk_read_func-SectorDisk sector disk int13 is reads h = record {
  bytes = is;
  reads = λ lba buffer n m b ne lim top apart.
      let p : u32 lba ≡ lba = omega arith in
      let q : u16 disk ≡ disk = omega arith in
      rw (p, q) (disk_read16-Loads sector disk int13 is reads lba buffer n m b ne lim top apart);
}

read_chunk_error :
    (int13 : Int13) (disk lba buffer n : ℕ) (m : Mem)
    → ((p : Mem) → (int13 disk p).0 ≢ 0)
    → read_chunk int13 lba buffer n disk m ≡ panic
unfolding read_chunk
read_chunk_error int13 disk lba buffer n m bad = ground (arith, bad (fill_dap lba n m))

read_loop_error :
    (int13 : Int13) (disk n lba buffer last : ℕ) (m : Mem)
    → ((p : Mem) → (int13 disk p).0 ≢ 0)
    → read_loop int13 n lba buffer last disk m ≡ panic
unfolding read_loop
read_loop_error int13 disk zero lba buffer last m bad =
    read_chunk_error int13 disk lba buffer last m bad
read_loop_error int13 disk (suc n) lba buffer last m bad =
    rw (read_chunk_error int13 disk lba buffer 127 m bad)

-- When the BIOS reports an error for every packet, diskRead16 panics, whatever the sectors asked for.
pub disk_read16_error :
    (int13 : Int13) (disk lba buffer sectors : ℕ) (m : Mem)
    → ((p : Mem) → (int13 disk p).0 ≢ 0)
    → disk_read16 int13 lba buffer sectors disk m ≡ panic
unfolding disk_read16
disk_read16_error int13 disk lba buffer sectors m bad =
    rw (
      read_loop_error int13 disk (sectors / 127) lba buffer (sectors - 127 * (sectors / 127)) m bad)
