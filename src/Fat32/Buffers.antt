-- ===== src/Fat32/Buffers.antt =====
-- Memory from the heap into which the disk is read.
use rainbow_os.Prelude.{
  ℕ, ◌+◌, ◌-◌, ◌*◌, ◌/◌, ◌%◌, ◌^◌, ◌≤◌, ◌<◌, ◌≡◌, ap, ◌∙◌, ◌≢◌, ◌⊎◌, inl, inr, true, List, [], ◌∷◌,
  ◌++◌, arith, Bool-cases, length, ok,
}
use rainbow_os.Memory.{Mem, IsBytes, inside}
use rainbow_os.Heap.{kalloc}
use rainbow_os.Heap.Blocks.{Block, Chain, InReserved}
use rainbow_os.Heap.Bump.{free_at, kalloc-bump, bump, Chain-InReserved}
use rainbow_os.Disk.{DiskRead}
use rainbow_os.Disk.Packet.{Sectors}
use rainbow_os.Disk.Chunk.{Loads}
use rainbow_os.Disk.Sectors.{SectorDisk}
use rainbow_os.Heap.Bump.{free_at, free_at-le, free_at-Chain, bump-InReserved}

-- Byte `i` of the sectors that were loaded.
pub loaded_byte :
    (sector : Sectors) (lba buffer n i : ℕ) (m m' : Mem)
    → Loads sector lba buffer n m m'
    → i < n * 512
    → m' (buffer + i) ≡ sector (lba + i / 512) (i % 512)
loaded_byte sector lba buffer n i m m' l h =
    let off : buffer + i - buffer ≡ i = omega arith in
    l.0 (buffer + i) (ground arith) ∙ ap (λ (q : ℕ). sector (lba + q / 512) (q % 512)) off

-- A read into the bytes of a reserved block of a heap between the packet and the low buffer.
reads_into :
    (sector : Sectors) (disk_read : DiskRead) (heap last lba buffer n : ℕ) (bs : List Block)
    (m : Mem)
    → SectorDisk sector disk_read
    → 0x1010 ≤ heap
    → last + 8 ≤ 0x70000
    → Chain m last heap bs
    → IsBytes m
    → heap ≤ buffer
    → buffer + n * 512 ≤ last + 8
    → ((x : ℕ) → buffer ≤ x → x < buffer + n * 512 → InReserved bs heap x)
    → n % 127 ≢ 0
    → lba + n ≤ 2 ^ 32
    → (m' : Mem) × (disk_read lba buffer n m ≡ ok (true, m'))
      × Loads sector lba buffer n m m'
      × IsBytes m'
      × Chain m' last heap bs
reads_into sector disk_read heap last lba buffer n bs m d low high c b above below own ne lim =
    let (m', e, l, b') = d.reads lba buffer n m b ne lim (omega arith) (λ x i. ground arith) in
    (
      m',
      e,
      l,
      b',
      Chain-InReserved m m' last heap bs
          (λ x lo hi out. elim (Bool-cases (inside buffer (n * 512) x)) [
            | inl within ↦ absurd (out (own x (ground arith) (ground arith)))
            | inr outside ↦ l.1 x outside (ground arith)
          ])
          c,
    )

-- An allocation of `n` sectors on such a heap, while nothing was freed, and the read of `n` sectors into it.
pub record Buffered (sector : Sectors) (disk_read : DiskRead) (fuel heap last lba n room : ℕ)
    (ss : List ℕ) (m m1 m2 : Mem) : Type 0 where
  pub allocated : kalloc fuel heap (n * 512) m ≡ ok (free_at ss heap + 8, m1)
  pub kept : (x : ℕ) → (x < heap) ⊎ InReserved (bump ss room) heap x → m1 x ≡ m x
  pub read : disk_read lba (free_at ss heap + 8) n m1 ≡ ok (true, m2)
  pub loaded : Loads sector lba (free_at ss heap + 8) n m1 m2
  pub heap_left : Chain m2 last heap (bump (ss ++ n * 512 ∷ []) (room - n * 512 - 8))
  pub bytes : IsBytes m2

pub kalloc-Buffered :
    (sector : Sectors) (disk_read : DiskRead) (fuel heap last lba n room : ℕ) (ss : List ℕ)
    (m : Mem)
    → SectorDisk sector disk_read
    → 0x1010 ≤ heap
    → last + 8 ≤ 0x70000
    → Chain m last heap (bump ss room)
    → IsBytes m
    → n * 512 + 8 ≤ room
    → length ss + 1 < fuel
    → n % 127 ≢ 0
    → lba + n ≤ 2 ^ 32
    → (m1 m2 : Mem) × Buffered sector disk_read fuel heap last lba n room ss m m1 m2
kalloc-Buffered sector disk_read fuel heap last lba n room ss m d low high c b fits enough ne lim =
    let size = n * 512 in
    let p = free_at ss heap + 8 in
    let rest = room - size - 8 in
    let below = free_at-le ss heap in
    let top = free_at-Chain ss room heap last m c in
    let (m1, e1, c1, b1, k1) = kalloc-bump ss room fuel heap size last m c b fits enough in
    let (m2, e2, l2, b2, c2) =
      reads_into sector disk_read heap last lba p n (bump (ss ++ size ∷ []) rest) m1 d low high c1
        b1 (omega arith) (omega arith) (λ x lo hi. bump-InReserved ss rest heap size x lo hi) ne
        lim in
    (
      m1,
      m2,
      record { allocated = e1; kept = k1; read = e2; loaded = l2; heap_left = c2; bytes = b2 },
    )
