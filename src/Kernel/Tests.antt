-- ===== src/Kernel/Tests.antt =====
-- A kernel at 1 MiB, its tables behind it, and a processor with an APIC.
use rainbow_os.Prelude.{
  ℕ, ◌+◌, ◌*◌, ◌≤◌, ◌<◌, ◌≡◌, refl, ◌⊎◌, inl, inr, true, false, [], ◌∷◌, arith, ok,
}
use rainbow_os.Memory.{Mem, read32}
use rainbow_os.Cpu.{Trace, Cpuid, check_apic}
use rainbow_os.Apic.{spurious_register, base_address}
use rainbow_os.Terminal.{Terminal, framebuffer_terminal}
use rainbow_os.OutStream.{OutStream, Console, init}
use rainbow_os.OutStream.Screen.{Good}
use rainbow_os.Heap.Blocks.{block, Chain}
use rainbow_os.Interrupts.Table.{Gates}
use rainbow_os.Kernel.{
  Image, multiboot_custom_bootloader_magic, place_cursor, kmain_begin, kmain_interrupts,
}
use rainbow_os.Kernel.Begin.{place_cursor-OnScreen, kmain_begin-Chain}
use rainbow_os.Kernel.Vectors.{quiet_machine, kmain_interrupts-Guarded}
use rainbow_os.Interrupts.Pic.{ready, Pic}
use rainbow_os.Interrupts.Machine.{Guarded, run_trace}

abbrev zeros : Mem
zeros x = 0

abbrev image : Image
image = record {
  end_symbol = 0x110000;
  stubs = 0x108000;
  idt_table = 0x109000;
  apic_string = 0x10a000;
  stack = 0x90000;
}

abbrev cpuid : Cpuid
cpuid leaf = record { eax = 0; ebx = 0; ecx = 0; edx = 0x200 }

abbrev out : OutStream
out = init framebuffer_terminal

out-Good : Good 0xb8000 (out, zeros)
unfolding init framebuffer_terminal
out-Good = record {
  cursor = record { row_in = omega arith; column_in = omega arith };
  at_buffer = refl;
  base_low = omega arith;
  base_high = omega arith;
  bytes = λ x. omega arith;
}

abbrev handed_over : Terminal
handed_over = record { row = 3; column = 7; color = 7; full_line = false; buffer = 0xb8000 }

place_cursor-OnScreen_example :
    let (out', m') = place_cursor multiboot_custom_bootloader_magic (3 * 80 + 7) (out, zeros) in
    (out'.back_end.row ≡ 3) × (out'.back_end.column ≡ 7) × (m' ≡ zeros)
place_cursor-OnScreen_example =
    place_cursor-OnScreen handed_over out zeros
      (record { row_in = omega arith; column_in = omega arith })

kmain_begin-Chain_example :
    (c : Console) × (kmain_begin image multiboot_custom_bootloader_magic 247 zeros ≡ ok c)
    × Good 0xb8000 c
    × Chain c.1 0x110ff8 0x110000 (block 4080 false ∷ [])
    × ((x : ℕ)
        → (x < 0xb8000) ⊎ (0xb8000 + 4000 ≤ x)
        → (x < 0x90000) ⊎ (0x90000 + 33 ≤ x)
        → (x < 0x110000) ⊎ (0x110000 + 4096 ≤ x)
        → c.1 x ≡ zeros x)
kmain_begin-Chain_example =
    kmain_begin-Chain image zeros (λ x. omega arith) (omega arith) (inl (omega arith))
      multiboot_custom_bootloader_magic 247

has_apic : check_apic cpuid ≡ true
unfolding check_apic
has_apic = refl

quiet : (0x108000 + 1024 ≤ spurious_register zeros 0) ⊎ (spurious_register zeros 0 + 2 ≤ 0x108000)
unfolding spurious_register base_address read32
quiet = inr (omega arith)

-- The controllers as the BIOS leaves them, and the table of the bootloader.
abbrev bios_pic : ℕ → Pic
bios_pic base = record {
  phase = ready;
  level = false;
  base = base;
  cascade = 4;
  mode = 1;
  mask = 0;
}

kmain_interrupts-Guarded_example :
    let start = quiet_machine (bios_pic 8, bios_pic 0x70) 0x3ff 0 in
    (d : Console) × (trace : Trace) × (kmain_interrupts image cpuid (out, zeros) ≡ ok (d, trace))
    × Guarded 0x109000 0x108000 zeros start trace
    × ((run_trace trace start).enabled ≡ true)
    × Gates 0 256 0x109000 0x108000 zeros d.1
kmain_interrupts-Guarded_example =
    kmain_interrupts-Guarded image cpuid (out, zeros) (bios_pic 8, bios_pic 0x70) 0x3ff 0 out-Good
      has_apic (inl (omega arith)) (inr (omega arith)) (inr (omega arith)) quiet
