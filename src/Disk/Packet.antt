-- ===== src/Disk/Packet.antt =====
-- The disk address packet that _fillDAP leaves, and what the BIOS does with one.
use rainbow_os.Prelude.{ℕ, ◌+◌, ◌-◌, ◌*◌, ◌/◌, ◌%◌, ◌^◌, ◌≤◌, ◌<◌, ◌≡◌, arith, if◌then◌else◌}
use rainbow_os.Memory.{Mem, IsBytes, inside, SameOutside, write8, read16, read64, write16}
use rainbow_os.Memory.{write64}
use rainbow_os.Disk.{Int13, dap, read_buffer, fill_dap}

-- The packet's fields, as the BIOS reads them.
unfoldable pub packet_count : Mem → ℕ
packet_count m = read16 m (dap + 2)

unfoldable pub packet_buffer : Mem → ℕ
packet_buffer m = read16 m (dap + 6) * 16 + read16 m (dap + 4)

unfoldable pub packet_lba : Mem → ℕ
packet_lba m = read64 m (dap + 8)

-- The bytes of the disk, by sector and offset.
abbrev pub Sectors : Type 0
Sectors = ℕ → ℕ → ℕ

abbrev pub IsDisk : Sectors → Type 0
IsDisk sector = (lba k : ℕ) → sector lba k < 2 ^ 8

-- The memory with `n` sectors from `lba` on in the buffer.
abbrev pub loaded : Sectors → ℕ → ℕ → ℕ → Mem → Mem
loaded sector lba buffer n m x =
    if inside buffer (n * 512) x
    then sector (lba + (x - buffer) / 512) ((x - buffer) % 512)
    else m x

-- What int 13h, function 42h, does with a packet of size 16 that asks for 1 to 127 sectors of the
-- disk: it reads them into the packet's buffer, changes nothing else and reports no error.
abbrev pub ReadsPackets : Sectors → ℕ → Int13 → Type 0
ReadsPackets sector disk int13 =
    (m : Mem)
    → m dap ≡ 0x10
    → 1 ≤ packet_count m
    → packet_count m ≤ 127
    → int13 disk m ≡ (0, loaded sector (packet_lba m) (packet_buffer m) (packet_count m) m)

-- _fillDAP leaves a packet of size 16 with the count, the low buffer and the LBA, and writes only
-- the packet.
pub fill_dap_lem :
    (lba sectors : ℕ) (m : Mem)
    → lba < 2 ^ 32
    → sectors < 2 ^ 16
    → let m' = fill_dap lba sectors m in
      (m' dap ≡ 0x10)
      × (packet_count m' ≡ sectors)
      × (packet_buffer m' ≡ read_buffer)
      × (packet_lba m' ≡ lba)
      × SameOutside dap 16 m m'
unfolding fill_dap packet_count packet_buffer packet_lba write8 write16 write64 read16 read64
fill_dap_lem lba sectors m h k =
    (ground arith, ground arith, ground arith, ground arith, λ x o. ground arith)

pub fill_dap-IsBytes : (lba sectors : ℕ) (m : Mem) → IsBytes m → IsBytes (fill_dap lba sectors m)
unfolding fill_dap write8 write16 write64
fill_dap-IsBytes lba sectors m b x = ground (arith, b x)
