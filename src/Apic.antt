-- ===== src/Apic.antt =====
-- include/kernelInternal/devices/cpu/apic.hpp and kernel/devices/cpu/apic.cpp: the local APIC and the
-- I/O APIC. The registers of the I/O APIC are a device behind the two addresses through which the code
-- reaches it, so that a load may give another value than the last store left: the device is a
-- parameter, `Mmio`.
pub mod Local
pub mod Window
mod Tests
use rainbow_os.Prelude.{
  ℕ, ◌+◌, ◌*◌, ◌/◌, ◌%◌, ◌^◌, not, ◌==◌, if◌then◌else◌, add32, Outcome, ok, panic, ◌>>=◌,
}
use rainbow_os.Memory.{Mem, write8, read32}
use rainbow_os.Cpu.{Trace, issued_at, CpuidResult, Cpuid, check_apic, ia32_apic_base_msr, set_msr}
use rainbow_os.Acpi.{get_entry}

-- The member `_reg` of class l_apic: a pointer to a lapic_base_register.
abbrev pub LocalApic : Type 0
LocalApic = ℕ

-- The constructor of l_apic, which takes %eax of leaf 1 for the pointer.
unfoldable pub l_apic : Cpuid → Outcome LocalApic
l_apic cpuid = if not (check_apic cpuid) then panic else ok (CpuidResult.eax (cpuid 1))

-- `_reg->address << 12`: the field holds the bits from 12 on
unfoldable pub base_address : Mem → LocalApic → ℕ
base_address m reg = read32 m reg / 2 ^ 12 * 2 ^ 12

abbrev pub spurious_interrupt_vector : ℕ
spurious_interrupt_vector = 0x0F0

-- `lapicReg + SPURIOUS_INTERRUPT_VECTOR`, on a pointer to `uint32_t`
unfoldable pub spurious_register : Mem → LocalApic → ℕ
spurious_register m reg = add32 (base_address m reg) (4 * spurious_interrupt_vector)

-- `regPtr->enable_flag = 1; regPtr->sp_vector = 0xff;`: bit 0 of the second byte, and the first
unfoldable pub set_spurious : ℕ → Mem → Mem
set_spurious a m = write8 (write8 m (a + 1) (m (a + 1) / 2 * 2 + 1)) a 0xff

-- l_apic::enable: the instruction, which is issued before the stores, and the memory
unfoldable pub enable : LocalApic → Mem → Trace × Mem
enable reg m = (
  issued_at m (set_msr ia32_apic_base_msr (reg / 2 ^ 12 * 2 ^ 12) 0),
  set_spurious (spurious_register m reg) m,
)

-- enum ioapic_mm_register
pub data IoApicRegister : Type 0 where
  id version arbitration redirection : IoApicRegister

unfoldable pub register_code : IoApicRegister → ℕ
register_code id = 0x00
register_code version = 0x01
register_code arbitration = 0x02
register_code redirection = 0x03

-- A device with registers in the memory: volatile loads and stores of words.
pub record Mmio : Type 1 where
  pub Device : Type 0
  pub load : ℕ → Device → ℕ × Device
  pub store : ℕ → ℕ → Device → Device

-- The member `_ptr` of class io_apic: a pointer to a madt_entry_type1.
abbrev pub IoApic : Type 0
IoApic = ℕ

-- The constructor of io_apic.
unfoldable pub io_apic : ℕ → ℕ → Mem → Outcome IoApic
io_apic fuel madt m = get_entry fuel madt 1 m >>= λ entry. if entry == 0 then panic else ok entry

-- `_ptr->io_apic_address`
unfoldable pub io_apic_address : Mem → IoApic → ℕ
io_apic_address m entry = read32 m (entry + 4)

module _ (bus : Mmio) where
  -- io_apic::read
  unfoldable pub read : Mem → IoApic → IoApicRegister → bus.Device → ℕ × bus.Device
  read m apic reg d =
      let base = io_apic_address m apic in
      bus.load (base + 16) (bus.store base (register_code reg % 2 ^ 8) d)

  -- io_apic::write
  unfoldable pub write : Mem → IoApic → IoApicRegister → ℕ → bus.Device → bus.Device
  write m apic reg value d =
      let base = io_apic_address m apic in
      bus.store (base + 16) value (bus.store base (register_code reg % 2 ^ 8) d)
