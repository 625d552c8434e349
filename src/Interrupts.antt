-- ===== src/Interrupts.antt =====
-- include/kernelInternal/system/interrupts.hpp, include/kernelInternal/devices/cpu/pic.hpp and
-- kernel/system/interrupts.cpp: the table of interrupt descriptors, the interrupt controllers that are
-- switched off, and the handler. `idt` is the address of the table and `stubs` that of
-- `_handler_stub_table`. A descriptor is 8 packed bytes: the low half of the address, the selector, a
-- reserved byte, the flags and the high half.
pub mod Gate
pub mod Table
pub mod Pic
pub mod Machine
mod Tests
use rainbow_os.Prelude.{
  ℕ, zero, suc, ◌+◌, ◌*◌, ◌/◌, ◌%◌, ◌^◌, u8, Bool, false, List, [], ◌∷◌, ◌++◌, Option, none, some,
  ◌==◌, if◌then◌else◌, panic, ◌>>=◌,
}
use rainbow_os.Memory.{Mem, write8, read32, write16}
use rainbow_os.Cpu.{Event, Trace, issued_at, load_idt, sti, cli, breakpoint, outb, iowait}
use rainbow_os.OutStream.{Writer, text, num, ◌<<◌}

abbrev pub code32_ksegment : ℕ
code32_ksegment = 0x08

-- A store to a bit-field of `width` bits from bit `low` of the byte at `a` on.
unfoldable pub set_bits : ℕ → ℕ → ℕ → ℕ → Mem → Mem
set_bits a low width v m =
    write8 m a
      (m a / 2 ^ (low + width) * 2 ^ (low + width) + v % 2 ^ width * 2 ^ low + m a % 2 ^ low)

-- The four stores to the flags: dpl, present, type and zero.
unfoldable pub set_flags : ℕ → ℕ → Mem → Mem
set_flags a dpl m = set_bits a 4 1 0 (set_bits a 0 4 0xe (set_bits a 7 1 1 (set_bits a 5 2 dpl m)))

unfoldable pub install_interrupt : ℕ → ℕ → ℕ → ℕ → Mem → Mem
install_interrupt idt vector handler dpl m =
    let entry = idt + 8 * u8 vector in
    let m1 = write16 m entry (handler % 2 ^ 16) in
    let m2 = write16 m1 (entry + 6) (handler / 2 ^ 16 % 2 ^ 16) in
    let m3 = write16 m2 (entry + 2) code32_ksegment in set_flags (entry + 5) dpl m3

-- `for (size_t i = 0; i < 256; i++)` of installAll, with the rounds left
unfoldable pub install_from : ℕ → ℕ → ℕ → ℕ → Mem → Mem
install_from zero i idt stubs m = m
install_from (suc n) i idt stubs m =
    install_from n (i + 1) idt stubs (install_interrupt idt i (read32 m (stubs + 4 * i)) 0 m)

unfoldable pub install_all : ℕ → ℕ → Mem → Mem
install_all idt stubs m = install_from 256 0 idt stubs m

-- loadIDT: the limit and the address that `lidt` takes
unfoldable pub load_table : ℕ → List Event
load_table idt = cli ∷ load_idt 0xFFF idt ∷ sti ∷ []

abbrev pub pic_command_master : ℕ
pic_command_master = 0x20

abbrev pub pic_data_master : ℕ
pic_data_master = 0x21

abbrev pub pic_command_slave : ℕ
pic_command_slave = 0xa0

abbrev pub pic_data_slave : ℕ
pic_data_slave = 0xa1

abbrev pub icw1_init : ℕ
icw1_init = 0x10

abbrev pub icw1_icw4 : ℕ
icw1_icw4 = 0x01

abbrev pub icw4_8086 : ℕ
icw4_8086 = 0x01

abbrev pub pic_mask_interrupts : ℕ
pic_mask_interrupts = 0xff

abbrev pub master_pic_vector_offset : ℕ
master_pic_vector_offset = 0xfe

abbrev pub slave_pic_vector_offset : ℕ
slave_pic_vector_offset = 0xfe

-- A command and the wait behind it. `ICW1_INIT | ICW1_ICW4` is a sum.
unfoldable pub disable_pic : List Event
unfolding outb iowait
disable_pic =
    outb pic_command_master (icw1_init + icw1_icw4)
    ++ iowait
    ++ outb pic_command_slave (icw1_init + icw1_icw4)
    ++ iowait
    ++ outb pic_data_master master_pic_vector_offset
    ++ iowait
    ++ outb pic_data_slave slave_pic_vector_offset
    ++ iowait
    ++ outb pic_data_master 4
    ++ iowait
    ++ outb pic_data_slave 2
    ++ iowait
    ++ outb pic_data_master icw4_8086
    ++ iowait
    ++ outb pic_data_slave icw4_8086
    ++ iowait
    ++ outb pic_data_master pic_mask_interrupts
    ++ outb pic_data_slave pic_mask_interrupts

-- The members `_IDT` and `initialized`, and the constructor.
pub record InterruptDescriptorTable : Type 0 where
  pub idt : ℕ
  pub initialized : Bool

unfoldable pub interrupt_descriptor_table : ℕ → InterruptDescriptorTable
interrupt_descriptor_table idt = record { idt = idt; initialized = false }

-- interruptDescriptorTable::init: the value returned, which is none where the end is reached without
-- a `return`, the object, the instructions, each with the memory at which it is issued, and the memory
unfoldable pub init :
    ℕ → InterruptDescriptorTable → Mem → Option Bool × InterruptDescriptorTable × Trace × Mem
unfolding disable_pic load_table install_all
init stubs table m =
    let installed = install_all table.idt stubs m in
    if table.initialized then (some false, table, [], m) else (
      none,
      table,
      issued_at m disable_pic ++ issued_at installed (breakpoint ∷ load_table table.idt),
      installed,
    )

-- interruptHandler on the vector of its frame. `earlyPanic` does not come back.
unfoldable pub interrupt_handler : ℕ → ℕ → Writer
interrupt_handler stack vector =
    if vector == 0xff then text "Warning: Spurious interrupt caught\n" else (λ c.
      (text " INFO: Interrupt called with vector 0x" << num stack vector << text "\n") c >>= λ d.
      panic)
