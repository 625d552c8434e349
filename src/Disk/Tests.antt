-- ===== src/Disk/Tests.antt =====
-- A disk whose bytes number its sectors.
use rainbow_os.Prelude.{◌%◌, ◌≡◌, refl, true, arith, ok}
use rainbow_os.Memory.{Mem, IsBytes}
use rainbow_os.Disk.{Int13, disk_read16}
use rainbow_os.Disk.Packet.{
  packet_count, packet_buffer, packet_lba, Sectors, IsDisk, loaded, ReadsPackets,
}
use rainbow_os.Disk.Chunk.{Loads}
use rainbow_os.Disk.Sectors.{disk_read16-Loads}

abbrev zeros : Mem
zeros x = 0

abbrev numbered : Sectors
numbered lba k = lba % 256

numbered-IsDisk : IsDisk numbered
numbered-IsDisk lba k = omega arith

abbrev bios : Int13
bios disk m = (0, loaded numbered (packet_lba m) (packet_buffer m) (packet_count m) m)

bios-ReadsPackets : ReadsPackets numbered 128 bios
bios-ReadsPackets m a b c = refl

disk_read16-Loads_example :
    (m' : Mem) × (disk_read16 bios 2048 0x20000 130 128 zeros ≡ ok (true, m'))
    × Loads numbered 2048 0x20000 130 zeros m'
    × IsBytes m'
disk_read16-Loads_example =
    disk_read16-Loads numbered 128 bios numbered-IsDisk bios-ReadsPackets 2048 0x20000 130 zeros
      (λ x. omega arith) (omega arith) (omega arith) (omega arith) (λ x i. ground arith)
