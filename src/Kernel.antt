-- ===== src/Kernel.antt =====
-- kernel/kmain.cpp: the kernel's main function up to the interrupt that it raises last. The results of
-- `check_CPUID_available` and of the instruction `cpuid` are parameters, and so are the addresses of
-- what the linker and the compiler place: the end of the kernel, the table of the interrupt stubs, the
-- descriptor table, the string "APIC" and the array in which numbers are printed.
pub mod Begin
pub mod Vectors
mod Tests
use rainbow_os.Prelude.{
  ℕ, ◌*◌, ◌/◌, Bool, [], ◌∷◌, ◌++◌, ◌==◌, if◌then◌else◌, u8, sub32, Outcome, ok, panic, ◌>>=◌,
}
use rainbow_os.Memory.{Mem}
use rainbow_os.Cpu.{Trace, issued_at, breakpoint, Cpuid}
use rainbow_os.Heap.{heap_initialize}
use rainbow_os.Terminal.{light_grey, blue, black, framebuffer_terminal, set_cursor, vga_width}
use rainbow_os.OutStream.{OutStream, Console, text, num, hex, recolor, clear_stream, ◌<<◌}
use rainbow_os.Acpi.{acpi_header, get_type, acpi_madt, get_entry}
use rainbow_os.Apic.{io_apic, l_apic, enable}
use rainbow_os.Interrupts.{interrupt_descriptor_table, interrupt_handler}
use rainbow_os.OutStream
use rainbow_os.Interrupts

abbrev pub multiboot_custom_bootloader_magic : ℕ
multiboot_custom_bootloader_magic = 0x2BADB003

-- The addresses that the linker and the compiler choose.
pub record Image : Type 0 where
  pub end_symbol : ℕ
  pub stubs : ℕ
  pub idt_table : ℕ
  pub apic_string : ℕ
  pub stack : ℕ

-- What the processor answers: `check_CPUID_available` and `cpuid`.
pub record Processor : Type 0 where
  pub cpuid_available : Bool
  pub cpuid : Cpuid

-- The cursor behind the bootloader's, from the index of its cell, or a cleared screen.
unfoldable pub place_cursor : ℕ → ℕ → Console → Console
place_cursor multiboot_flag terminal_index (out, m) =
    let row = u8 (terminal_index / vga_width) in
    let column = u8 (sub32 terminal_index (row * vga_width)) in
    if multiboot_flag == multiboot_custom_bootloader_magic
    then (record out { back_end = (set_cursor row column out.back_end).1 }, m)
    else (out, clear_stream out m)

-- The terminal, the header and the heap, up to the test for `cpuid`.
unfoldable pub kmain_begin : Image → ℕ → ℕ → Mem → Outcome Console
kmain_begin image multiboot_flag terminal_index m =
    let out = hex (OutStream.init framebuffer_terminal) in
    let c = recolor light_grey blue (place_cursor multiboot_flag terminal_index (out, m)) in
    text "Entering RainbowOS 32-bit protected mode kernel.bin\n" c >>= λ d.
    (text "Creating a temporary heap at 0x"
        << num image.stack image.end_symbol
        << text " of size 4k\n")
      (recolor light_grey black d)
    >>= λ (out', m').
        let (heap, heap_end, m'') = heap_initialize image.end_symbol 4096 m' in ok (out', m'')

unfoldable pub kmain_acpi : Image → ℕ → Console → Outcome Console
kmain_acpi image fuel (out, m) = acpi_header m >>= λ header.
    (if get_type header == 1
      then text "We have a type 1 ACPI table\n" (out, m)
      else text "We have a type 2 ACPI table\n" (out, m))
    >>= λ c. acpi_madt fuel header image.apic_string c.1 >>= λ madt.
        get_entry fuel madt 1 c.1 >>= λ type1.
        (text "Found type 1 MADT @ " << num image.stack type1 << text "\n") c >>= λ d.
        io_apic fuel madt d.1 >>= λ apic. text "IO APIC is good\n" d

-- The local APIC and the interrupts, and the instructions, each with the memory at which it is
-- issued.
unfoldable pub kmain_interrupts : Image → Cpuid → Console → Outcome (Console × Trace)
kmain_interrupts image cpuid (out, m) = l_apic cpuid >>= λ local.
    let (msr, m1) = enable local m in
    (text "Enabled local APIC\n" << text "Attempting to enable interrupts\n") (out, m1)
    >>= λ (out2, m2).
        let (result, table, trace, m3) =
          Interrupts.init image.stubs (interrupt_descriptor_table image.idt_table) m2 in
        text "Are they enabled?...\n" (out2, m3) >>= λ c.
        ok (c, msr ++ trace ++ issued_at c.1 (breakpoint ∷ []))

-- kmain up to the instruction `int $0x34`
unfoldable pub kmain_start : Image → Processor → ℕ → ℕ → ℕ → Mem → Outcome (Console × Trace)
kmain_start image processor fuel multiboot_flag terminal_index m =
    kmain_begin image multiboot_flag terminal_index m >>= λ c.
    (if processor.cpuid_available then text "CPUID is supported\n" c else panic)
    >>= kmain_acpi image fuel
    >>= kmain_interrupts image processor.cpuid

-- `int $0x34`, which the stub of that vector passes to the handler, and the panic behind it
unfoldable pub kmain : Image → Processor → ℕ → ℕ → ℕ → Mem → Outcome Console
kmain image processor fuel multiboot_flag terminal_index m =
    kmain_start image processor fuel multiboot_flag terminal_index m >>= λ (c, trace).
    interrupt_handler image.stack 0x34 c >>= λ d. panic
