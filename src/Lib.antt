-- ===== src/Lib.antt =====
-- The verification library of RainbowOS, a 32-bit operating system with its own bootloader.
--
-- Stage 1 of the bootloader (bootloader/stage1main.cpp) sets up a terminal and a heap, finds the
-- active partition in the boot record, mounts its FAT32 volume, reads the kernel's file through the
-- BIOS, finds the Multiboot header in it and loads its ELF segments; the kernel (kernel/kmain.cpp) then
-- makes a heap of its own, looks up the ACPI tables, enables the local APIC, fills its interrupt
-- descriptors and masks the old interrupt controllers. The parts call each other directly and share one
-- flat memory, which is a function from addresses to bytes here (Memory): structures are read and
-- written in it at the offsets that the C++ structs give them, a pointer is an address, and
-- arithmetic on `size_t` and `uint32_t` wraps at 2 ^ 32.
--
-- Files and parts:
--   Str        lib/stdlibC/string.c
--   Xtoa       include/klib/cstdlib.hpp (xtoa)
--   Heap       include/earlyLib/memory.hpp, lib/earlyLib/memory.cpp. Heap/Blocks is the abstract heap, a
--              list of blocks; Heap/Session runs sequences of requests on it.
--   Terminal   include/devices/BIOSVideoIO.hpp, lib/io/BIOSVideoIO.cpp (framebuffer_terminal)
--   Disk       include/earlyLib/diskRead16.hpp, lib/earlyLib/diskRead16.cpp, diskReadFunc. The record
--              SectorDisk is what the file system asks of a disk.
--   Fat32      include/fs/fat32.hpp, lib/fs/fat32.cpp. Fat32/Layout holds the offsets of the on-disk
--              structures, Fat32/Files the reading of directories and files, Fat32/Root getRootFile on
--              a heap and a disk.
--   Partition  include/fs/mbr.hpp, getPartitionLBA
--   MemoryMap  include/earlyLib/memoryDetection16.hpp, lib/earlyLib/memoryDetection16.cpp
--   Acpi       include/kernelInternal/acpi.hpp, kernel/system/acpi.cpp, kernel/devices/acpiKernel.cpp
--   OutStream  include/klib/io.hpp (_outstream on the terminal)
--   Elf        include/sys/elf.h, elf_check_file, elf_check_prog_header, elf32_load
--   Multiboot  include/sys/multiboot.h, multibootHeaderSearch, buildMultibootInfo
--   Interrupts include/kernelInternal/system/interrupts.hpp, kernel/system/interrupts.cpp,
--              include/kernelInternal/devices/cpu/pic.hpp
--   Cpu        include/klib/cpuio.hpp, kernel/devices/cpu/cpuid.cpp, kernel/devices/cpu/msr.cpp
--   Apic       include/kernelInternal/devices/cpu/apic.hpp, kernel/devices/cpu/apic.cpp
--   Kernel     kernel/kmain.cpp, up to its last interrupt and the handler behind it
--   Stage1     _stage1Main of bootloader/stage1main.cpp, up to the jump into the kernel
-- Operations keep their names, in lower case with underscores. A static such as `heap` is a
-- parameter. An instruction that acts on the machine (a byte to a port, `wrmsr`, `lidt`, `sti`) is an
-- event, and a function that issues instructions gives the list of them, with the memory at which each
-- is issued where that matters (Cpu, Trace). The results on whole
-- functions compose those of the parts: Heap/Bump describes the heap while nothing is freed, which is
-- how the loader uses it, and OutStream/Screen what a chain of `<<` does to the console. `Prelude` holds
-- the machine words and `Outcome`, the result of fallible code.
--
-- Loops with a counter recur on the rounds left. Loops that follow data in the memory (strings, the
-- list of heap entries, chains of clusters, records of a table) run on fuel, one unit a round, and
-- end in `out_of_fuel` when it does not suffice; the results say how much is enough. The
-- recursive calls of the heap are bounded likewise.
--
-- Parameters: the BIOS calls that lib/earlyLib makes through real mode (int 12h, int 13h, int 15h), what
-- `cpuid` answers, the registers of the I/O APIC, and the addresses that the compiler and the linker choose.
-- `earlyPanic` prints and hangs; it is the outcome `panic`.
--
-- Not modelled: the assembly of the stages and of the interrupt stubs, the terminal on BIOS calls, and
-- the tracing output of debug builds. The text of a panic is not kept.
mod Prelude
pub mod Memory
pub mod Str
pub mod Xtoa
pub mod Heap
pub mod Terminal
pub mod Disk
pub mod Fat32
pub mod Partition
pub mod MemoryMap
pub mod OutStream
pub mod Elf
pub mod Multiboot
pub mod Cpu
pub mod Interrupts
pub mod Acpi
pub mod Apic
pub mod Kernel
pub mod Stage1
