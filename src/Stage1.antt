-- ===== src/Stage1.antt =====
-- bootloader/stage1main.cpp: _stage1Main, up to the jump into the kernel, in a build without TRACEMAX.
-- The BIOS calls are parameters, and so are the addresses that the compiler chooses: the static
-- strings "KERNEL.BIN" and "LFN" and the array in which numbers are printed. `fuel` bounds each loop.
pub mod Begin
mod Tests
use rainbow_os.Prelude.{
  ℕ, ◌+◌, ◌*◌, ◌/◌, ◌%◌, ◌^◌, not, ◌==◌, if◌then◌else◌, u8, sub32, Outcome, ok, panic, ◌>>=◌,
}
use rainbow_os.Memory.{Mem, read32}
use rainbow_os.Terminal.{
  light_grey, blue, black, Terminal, framebuffer_terminal, set_cursor, vga_width,
}
use rainbow_os.OutStream.{OutStream, Console, text, num, hex, recolor, ◌<<◌}
use rainbow_os.Heap.{heap_initialize}
use rainbow_os.Partition.{get_partition_lba}
use rainbow_os.Disk.{Int13, disk_read_func, read_buffer}
use rainbow_os.Fat32.{Fat32}
use rainbow_os.Fat32.Files.{get_root_file}
use rainbow_os.MemoryMap.{Int12, Int15}
use rainbow_os.Multiboot.{multiboot_header_search, build_multiboot_info}
use rainbow_os.Elf.{elf_check_file, elf32_load}
use rainbow_os.OutStream
use rainbow_os.Fat32

-- The BIOS calls that the bootloader makes.
pub record Bios : Type 0 where
  pub int12 : Int12
  pub int13 : Int13
  pub int15 : Int15

-- The addresses that the compiler chooses, and the object of the file system before `init`.
pub record Statics : Type 0 where
  pub kernel_bin : ℕ
  pub lfn_str : ℕ
  pub stack : ℕ
  pub partition : Fat32

-- The arguments of `jumpKernel`.
pub record Jump : Type 0 where
  pub init_addr : ℕ
  pub mb_info : ℕ
  pub term_index : ℕ

-- `setCursor(cursor >> 8, cursor & 0xff00)`, whose parameters are of 8 bits
unfoldable pub start_terminal : ℕ → Terminal
start_terminal cursor =
    (set_cursor (u8 (cursor / 2 ^ 8)) (u8 (cursor / 2 ^ 8 % 2 ^ 8 * 2 ^ 8)) framebuffer_terminal).1

-- The terminal, the header and the heap: the static `heap` and the console
unfoldable pub stage1_begin : ℕ → ℕ → Mem → Outcome (ℕ × Console)
stage1_begin stop_stage1 cursor m =
    let out = hex (OutStream.init (start_terminal cursor)) in
    text "Welcome to RainbowOS 32-bit protected mode bootloader!\n"
      (recolor light_grey blue (out, m))
    >>= λ c.
        let (out', m') = recolor light_grey black c in
        let (heap, heap_end, m'') =
          heap_initialize stop_stage1 (sub32 read_buffer stop_stage1) m' in
        ok (heap, (out', m''))

-- Mounting the active partition, whose return code is not read, and reading the kernel's file: the
-- pointer to the result
unfoldable pub read_kernel : Bios → Statics → ℕ → ℕ → ℕ → Mem → Outcome (ℕ × Mem)
read_kernel bios statics fuel heap dx m = get_partition_lba m >>= λ lba.
    let disk_read = disk_read_func bios.int13 (u8 dx) in
    Fat32.init disk_read fuel heap lba statics.partition m >>= λ (code, fs, m1).
    get_root_file disk_read fuel heap fs statics.lfn_str statics.kernel_bin m1 >>= λ (file, m2).
    if read32 m2 file == 1 then panic else ok (file, m2)

-- Finding the multiboot header in the file and building the table for the kernel, which may be null
unfoldable pub prepare_kernel : Bios → Statics → ℕ → ℕ → ℕ → ℕ → Console → Outcome (ℕ × Console)
prepare_kernel bios statics fuel heap dx file (out, m) =
    multiboot_header_search fuel (read32 m (file + 8)) (read32 m (file + 4)) m >>= λ header.
    (text "mbHeader = " << num statics.stack header << text "\n") (out, m) >>= λ (out1, m1).
    if header == 0
    then panic
    else (build_multiboot_info fuel fuel bios.int12 bios.int15 heap header (u8 dx) m1
        >>= λ (info, m2). ok (info, (out1, m2)))

-- Loading the kernel's segments, and the jump
unfoldable pub start_kernel : Statics → ℕ → ℕ → ℕ → Console → Outcome (Jump × Console)
start_kernel statics fuel file mb_info c =
    let header = read32 c.1 (file + 8) in
    if not (elf_check_file c.1 header)
    then panic
    else (elf32_load fuel statics.stack header c >>= λ (end, d).
        if end == 0
        then panic
        else (text "Everything seems to be good, jumping to init\n" d >>= λ (out, m).
            let t = out.back_end in
            let index = t.row * vga_width + t.column in
            let addr = read32 m (header + 24) in
            ok (record { init_addr = addr; mb_info = mb_info; term_index = index }, (out, m))))

-- _stage1Main up to `jumpKernel`
unfoldable pub stage1_main : Bios → Statics → ℕ → ℕ → ℕ → ℕ → Mem → Outcome (Jump × Console)
stage1_main bios statics fuel dx stop_stage1 cursor m =
    stage1_begin stop_stage1 cursor m >>= λ (heap, (out, m1)).
    read_kernel bios statics fuel heap dx m1 >>= λ (file, m2).
    prepare_kernel bios statics fuel heap dx file (out, m2) >>= λ (info, c).
    start_kernel statics fuel file info c
