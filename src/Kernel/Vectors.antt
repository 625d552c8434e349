-- ===== src/Kernel/Vectors.antt =====
-- kmain from the local APIC on: the interrupts are let in.
use rainbow_os.Prelude.{
  ◌+◌, ◌*◌, ◌/◌, ◌^◌, subst, ◌∙◌, arith, ℕ, ◌≤◌, ◌≡◌, refl, ◌⊎◌, true, false, none, [], ◌∷◌, ◌++◌,
  ok,
}
use rainbow_os.Memory.{read32, Mem, SameOutside}
use rainbow_os.Memory.Words.{read32-eq}
use rainbow_os.Cpu.{
  Trace, issued_at, write_msr, load_idt, sti, cli, set_msr, breakpoint, Cpuid, CpuidResult,
  check_apic,
}
use rainbow_os.Apic.{l_apic, enable, spurious_register}
use rainbow_os.Apic.Local.{enable-SameOutside}
use rainbow_os.Interrupts.{load_table, interrupt_descriptor_table, disable_pic, install_all}
use rainbow_os.Memory.Words.{read32-eq}
use rainbow_os.Interrupts.Pic.{Pic, masked}
use rainbow_os.Interrupts.Machine.{Machine, run_trace, Guarded, Guarded-Quiet}
use rainbow_os.Interrupts.Gate.{Gate, Gate-SameOutside}
use rainbow_os.Interrupts.Table.{Gates, install_all-Gates, install_all-IsBytes}
use rainbow_os.OutStream.{Console}
use rainbow_os.OutStream.Screen.{Good, Good-memory, Shows, Displays-join, text-Displays}
use rainbow_os.Kernel.{Image, kmain_interrupts}
use rainbow_os.Interrupts

-- Showing text writes the screen alone.
Shows-SameOutside :
    (c c' : Console) → Shows 0xb8000 0xb8000 c c' → SameOutside 0xb8000 4000 c.1 c'.1
Shows-SameOutside c c' s x o = s.same x o (omega arith)

l_apic_lem :
    (cpuid : Cpuid) → check_apic cpuid ≡ true → l_apic cpuid ≡ ok (CpuidResult.eax (cpuid 1))
unfolding l_apic
l_apic_lem cpuid h = rw h refl

-- init on the object that the constructor makes.
init_lem :
    (stubs idt : ℕ) (m : Mem)
    → Interrupts.init stubs (interrupt_descriptor_table idt) m ≡ (
      none,
      interrupt_descriptor_table idt,
      issued_at m disable_pic ++ issued_at (install_all idt stubs m) (breakpoint ∷ load_table idt),
      install_all idt stubs m,
    )
unfolding Interrupts.init interrupt_descriptor_table
init_lem stubs idt m = refl

-- The instructions of init, with a memory before and one behind the installation, and what is issued
-- around them.
issued_around : ℕ → ℕ → Mem → Mem → Mem → Mem → Trace
issued_around idt low m m2 m3 m4 =
    issued_at m (write_msr 0x1b low 0 ∷ [])
    ++ (issued_at m2 disable_pic ++ issued_at m3 (breakpoint ∷ cli ∷ load_idt 0xFFF idt ∷ sti ∷ []))
    ++ issued_at m4 (breakpoint ∷ [])

-- A machine that takes no interrupts.
abbrev pub quiet_machine : Pic × Pic → ℕ → ℕ → Machine
quiet_machine pics limit base = record {
  pics = pics;
  idt_limit = limit;
  idt_base = base;
  enabled = false;
}

-- They let the interrupts in behind the masks, and the memory must have the gates from there on.
issued_around-Guarded :
    (idt stubs low limit base : ℕ) (pics : Pic × Pic) (m0 m m2 m3 m4 : Mem)
    → Gates 0 256 idt stubs m0 m3
    → Gates 0 256 idt stubs m0 m4
    → Guarded idt stubs m0 (quiet_machine pics limit base) (issued_around idt low m m2 m3 m4)
      × ((run_trace (issued_around idt low m m2 m3 m4) (quiet_machine pics limit base)).enabled
          ≡ true)
unfolding issued_around disable_pic
issued_around-Guarded idt stubs low limit base pics m0 m m2 m3 m4 g3 g4 =
    let start = quiet_machine pics limit base in
    let behind : Trace =
      issued_at m3 (breakpoint ∷ cli ∷ load_idt 0xFFF idt ∷ [])
      ++ (sti, m3) ∷ (breakpoint, m4) ∷ [] in
    let masked_machine = quiet_machine (masked 4, masked 2) limit base in
    (
      Guarded-Quiet (write_msr 0x1b low 0 ∷ []) idt stubs m0 m start
          (issued_at m2 disable_pic ++ behind) tt refl
          (Guarded-Quiet disable_pic idt stubs m0 m2 start behind tt refl (
            Guarded-Quiet (breakpoint ∷ cli ∷ load_idt 0xFFF idt ∷ []) idt stubs m0 m3
              masked_machine ((sti, m3) ∷ (breakpoint, m4) ∷ []) tt refl
              (
                λ on. record { controllers = refl; table = refl; limit = omega arith; gates = g3 },
                (
                  λ on. record {
                    controllers = refl;
                    table = refl;
                    limit = omega arith;
                    gates = g4;
                  },
                  tt,
                ),
              ))),
      refl,
    )

module _ (image : Image) (cpuid : Cpuid) (c : Console) (pics : Pic × Pic) (limit base : ℕ) where
  -- On a processor with an APIC that takes no interrupts, kmain lets them in: behind every instruction
  -- with which the processor takes interrupts, up to the breakpoint at the end, both interrupt
  -- controllers are initialised and masked, whatever state they were in, `lidt` has named the
  -- descriptor table, and the memory has the gates of all 256 vectors in it, each to the handler that
  -- the stub table named at the start. The processor takes interrupts in the end, and the memory that is
  -- left has the gates. The console is in order; the descriptors, the stub table and the screen lie
  -- apart, and the stub table away from the two bytes that enabling the local APIC writes.
  pub kmain_interrupts-Guarded :
      Good 0xb8000 c
      → check_apic cpuid ≡ true
      → (image.stubs + 1024 ≤ image.idt_table) ⊎ (image.idt_table + 2048 ≤ image.stubs)
      → (image.idt_table + 2048 ≤ 0xb8000) ⊎ (0xb8000 + 4000 ≤ image.idt_table)
      → (image.stubs + 1024 ≤ 0xb8000) ⊎ (0xb8000 + 4000 ≤ image.stubs)
      → (image.stubs + 1024 ≤ spurious_register c.1 (CpuidResult.eax (cpuid 1)))
        ⊎ (spurious_register c.1 (CpuidResult.eax (cpuid 1)) + 2 ≤ image.stubs)
      → let start = quiet_machine pics limit base in
        (d : Console) × (trace : Trace) × (kmain_interrupts image cpuid c ≡ ok (d, trace))
        × Guarded image.idt_table image.stubs c.1 start trace
        × ((run_trace trace start).enabled ≡ true)
        × Gates 0 256 image.idt_table image.stubs c.1 d.1
  unfolding kmain_interrupts enable set_msr load_table issued_around
  kmain_interrupts-Guarded g apic apart idt_off stubs_off quiet =
      let (out, m) = c in
      let idt = image.idt_table in
      let stubs = image.stubs in
      let local = CpuidResult.eax (cpuid 1) in
      let m1 = (enable local m).1 in
      let (poked, b1) = enable-SameOutside local m g.bytes in
      let ((out2, m2), e1, shown) =
        Displays-join 0xb8000 0xb8000 _ _ (text-Displays 0xb8000 0xb8000 "Enabled local APIC\n")
          (text-Displays 0xb8000 0xb8000 "Attempting to enable interrupts\n") (out, m1)
          (Good-memory 0xb8000 out m m1 g b1) in
      let m3 = install_all idt stubs m2 in
      let (gates, filled) = install_all-Gates idt stubs apart m2 shown.good.bytes in
      let b3 = install_all-IsBytes idt stubs apart m2 shown.good.bytes in
      let (d, e2, told) =
        text-Displays 0xb8000 0xb8000 "Are they enabled?...\n" (out2, m3)
          (Good-memory 0xb8000 out2 m2 m3 shown.good b3) in
      let placed : Gates 0 256 idt stubs m m3 = λ v lo hi.
        let same : read32 m2 (stubs + 4 * v) ≡ read32 m (stubs + 4 * v) =
          read32-eq m m2 (stubs + 4 * v) (λ x l h.
            Shows-SameOutside (out, m1) (out2, m2) shown x (omega arith) ∙ poked x (omega arith)) in
        subst (λ (h : ℕ). Gate m3 (idt + 8 * v) h) same (gates v lo hi) in
      let left : Gates 0 256 idt stubs m d.1 = λ v lo hi.
        Gate-SameOutside m3 d.1 0xb8000 4000 (idt + 8 * v) _ (Shows-SameOutside (out2, m3) d told)
          (omega arith) (placed v lo hi) in
      let low = local / 2 ^ 12 * 2 ^ 12 in
      let (guarded, on) =
        issued_around-Guarded idt stubs low limit base pics m m m2 m3 d.1 placed left in
      (
        d,
        issued_around idt low m m2 m3 d.1,
        rw (l_apic_lem cpuid apic, e1, init_lem stubs idt m2, e2) refl,
        guarded,
        on,
        left,
      )
