-- ===== src/Disk.antt =====
-- include/earlyLib/diskRead16.hpp and lib/earlyLib/diskRead16.cpp: reading sectors through the
-- BIOS, 127 at a time, by way of a buffer in low memory; and diskReadFunc of
-- bootloader/stage1main.cpp, which the file system calls.
-- The BIOS call of lib/earlyLib/asmCall_int13.S is a parameter: from the disk number and the
-- memory, in which it finds the disk address packet, it gives the error byte, 0 for none, and the
-- memory. `result` on the stack is not part of the memory.
pub mod Packet
pub mod Chunk
pub mod Sectors
mod Tests
use rainbow_os.Prelude.{
  ℕ, zero, suc, ◌+◌, ◌-◌, ◌*◌, ◌/◌, ◌%◌, ◌^◌, Bool, true, not, ◌==◌, if◌then◌else◌, u16, u32, add32,
  Outcome, ok, panic, ◌>>=◌,
}
use rainbow_os.Memory.{Mem, write8, write16, write32, write64}
use rainbow_os.Str.{memmove}

abbrev pub Int13 : Type 0
Int13 = ℕ → Mem → ℕ × Mem

-- What the file system asks of a disk: from the LBA, the buffer and the number of sectors, whether
-- the read worked, and the memory.
abbrev pub DiskRead : Type 0
DiskRead = ℕ → ℕ → ℕ → Mem → Outcome (Bool × Mem)

abbrev pub max_sectors : ℕ
max_sectors = 127

abbrev pub sector_size : ℕ
sector_size = 512

-- `dap`, `readBuffer`, `segment` and `offset`
abbrev pub dap : ℕ
dap = 0x1000

abbrev pub read_buffer : ℕ
read_buffer = 0x70000

abbrev pub offset : ℕ
offset = read_buffer % 16

abbrev pub segment : ℕ
segment = (read_buffer - offset) / 16

-- _fillDAP. `(segment << 16) | offset` is a sum, since the offset is below 16.
unfoldable pub fill_dap : ℕ → ℕ → Mem → Mem
fill_dap lba sectors m =
    let m1 = write8 m dap 0x10 in
    let m2 = write8 m1 (dap + 1) 0 in
    let m3 = write16 m2 (dap + 2) (u16 sectors) in
    let m4 = write32 m3 (dap + 4) (segment * 2 ^ 16 + offset) in write64 m4 (dap + 8) lba

-- One round of the loop of diskRead16.
unfoldable pub read_chunk : Int13 → ℕ → ℕ → ℕ → ℕ → Mem → Outcome Mem
read_chunk int13 lba buffer sectors disk m =
    let (result, m') = int13 disk (fill_dap lba sectors m) in
    if not (result == 0) then panic else ok (memmove buffer read_buffer (sectors * sector_size) m')

-- `for (size_t i = 0; i <= iterations; i++)`, with the rounds left before the last one, which reads the
-- `last` sectors that remain; all others read `max_sectors`.
unfoldable pub read_loop : Int13 → ℕ → ℕ → ℕ → ℕ → ℕ → Mem → Outcome Mem
read_loop int13 zero lba buffer last disk m = read_chunk int13 lba buffer last disk m
read_loop int13 (suc n) lba buffer last disk m =
    read_chunk int13 lba buffer max_sectors disk m
    >>= read_loop int13 n (add32 lba max_sectors) (add32 buffer (max_sectors * sector_size)) last
        disk

unfoldable pub disk_read16 : Int13 → ℕ → ℕ → ℕ → ℕ → Mem → Outcome (Bool × Mem)
disk_read16 int13 lba buffer sectors disk m =
    let iterations = sectors / max_sectors in
    read_loop int13 iterations lba buffer (sectors - max_sectors * iterations) disk m >>= λ m'.
    ok (true, m')

-- diskReadFunc, with the static `disk`. The 64-bit LBA is cut to 32 bits by the call.
unfoldable pub disk_read_func : Int13 → ℕ → DiskRead
disk_read_func int13 disk lba buffer sectors m =
    disk_read16 int13 (u32 lba) buffer sectors (u16 disk) m
