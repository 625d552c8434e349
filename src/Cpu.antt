-- ===== src/Cpu.antt =====
-- The instructions that the kernel issues: include/klib/cpuio.hpp, kernel/devices/cpu/cpuid.cpp,
-- include/kernelInternal/devices/cpu/cpuid.hpp, kernel/devices/cpu/msr.cpp and
-- include/kernelInternal/devices/cpu/msr.hpp. An instruction that acts on the machine is an `Event`, and a
-- function that issues instructions gives the list of them in order. Where the order of instructions and
-- of stores to the memory matters, a `Trace` has with each instruction the memory at which it is issued. `Cpuid` is what the instruction
-- `cpuid` leaves in the four registers, by the leaf.
use rainbow_os.Prelude.{ℕ, Bool, List, [], ◌∷◌, test_bit}
use rainbow_os.Memory.{Mem}

pub data Event : Type 0 where
  -- `outb` of a byte to a port
  out_byte : ℕ → ℕ → Event
  -- `wrmsr` to a register of the low and the high half
  write_msr : ℕ → ℕ → ℕ → Event
  -- `lidt` of a limit and an address
  load_idt : ℕ → ℕ → Event
  -- `sti` and `cli`
  sti cli : Event
  -- `xchgw %bx, %bx`, the breakpoint of an emulator
  breakpoint : Event

abbrev pub Trace : Type 0
Trace = List (Event × Mem)

-- The instructions, issued one behind the other at a memory
abbrev pub issued_at : Mem → List Event → Trace
issued_at m [] = []
issued_at m (e ∷ es) = (e, m) ∷ issued_at m es

pub record CpuidResult : Type 0 where
  pub eax : ℕ
  pub ebx : ℕ
  pub ecx : ℕ
  pub edx : ℕ

abbrev pub Cpuid : Type 0
Cpuid = ℕ → CpuidResult

abbrev pub io_port : ℕ
io_port = 0x80

unfoldable pub outb : ℕ → ℕ → List Event
outb port byte = out_byte port byte ∷ []

unfoldable pub iowait : List Event
unfolding outb
iowait = outb io_port 0

-- The bits CPUID_FEAT_EDX_MSR and CPUID_FEAT_EDX_APIC
abbrev pub edx_msr : ℕ
edx_msr = 5

abbrev pub edx_apic : ℕ
edx_apic = 9

unfoldable pub check_msr : Cpuid → Bool
check_msr cpuid = test_bit (CpuidResult.edx (cpuid 1)) edx_msr

unfoldable pub check_apic : Cpuid → Bool
check_apic cpuid = test_bit (CpuidResult.edx (cpuid 1)) edx_apic

abbrev pub ia32_apic_base_msr : ℕ
ia32_apic_base_msr = 0x1b

unfoldable pub set_msr : ℕ → ℕ → ℕ → List Event
set_msr msr low high = write_msr msr low high ∷ []
