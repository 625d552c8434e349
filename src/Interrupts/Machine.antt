-- ===== src/Interrupts/Machine.antt =====
-- What the instructions that the kernel issues do to the machine, and when its interrupts are let in.
use rainbow_os.Prelude.{ℕ, ◌≤◌, ◌≡◌, ◌+◌, ◌*◌, refl, Bool, true, false, List, [], ◌∷◌, ◌++◌}
use rainbow_os.Memory.{Mem}
use rainbow_os.Cpu.{Event, out_byte, write_msr, load_idt, sti, cli, breakpoint, Trace, issued_at}
use rainbow_os.Interrupts.Pic.{Pic, masked, pic_event}
use rainbow_os.Interrupts.Table.{Gates}

-- The two interrupt controllers, the register of the descriptor table, and whether the processor takes
-- interrupts.
pub record Machine : Type 0 where
  pub pics : Pic × Pic
  pub idt_limit : ℕ
  pub idt_base : ℕ
  pub enabled : Bool

abbrev pub step : Event → Machine → Machine
step (out_byte port byte) s = record s { pics = pic_event (out_byte port byte) s.pics }
step (write_msr msr low high) s = s
step (load_idt limit base) s = record s { idt_limit = limit; idt_base = base }
step sti s = record s { enabled = true }
step cli s = record s { enabled = false }
step breakpoint s = s

abbrev pub run : List Event → Machine → Machine
run [] s = s
run (e ∷ es) s = run es (step e s)

abbrev pub run_trace : Trace → Machine → Machine
run_trace [] s = s
run_trace ((e, m) ∷ t) s = run_trace t (step e s)

-- Both controllers are masked, and the register names the table at `idt`, with all of its 256 gates in
-- the memory `m`, each to the handler that the stub table named in `m0`.
pub record Ready (idt stubs : ℕ) (m0 : Mem) (s : Machine) (m : Mem) : Type 0 where
  pub controllers : s.pics ≡ (masked 4, masked 2)
  pub table : s.idt_base ≡ idt
  pub limit : 256 * 8 ≤ s.idt_limit + 1
  pub gates : Gates 0 256 idt stubs m0 m

-- Behind every instruction with which the processor takes interrupts, the machine is ready for them.
abbrev pub Guarded : ℕ → ℕ → Mem → Machine → Trace → Type 0
Guarded idt stubs m0 s [] = Unit {0}
Guarded idt stubs m0 s ((e, m) ∷ t) =
    ((step e s).enabled ≡ true → Ready idt stubs m0 (step e s) m)
    × Guarded idt stubs m0 (step e s) t

-- There is no `sti` among the instructions.
abbrev pub Quiet : List Event → Type 0
Quiet [] = Unit {0}
Quiet (out_byte port byte ∷ es) = Quiet es
Quiet (write_msr msr low high ∷ es) = Quiet es
Quiet (load_idt limit base ∷ es) = Quiet es
Quiet (sti ∷ es) = ⊥
Quiet (cli ∷ es) = Quiet es
Quiet (breakpoint ∷ es) = Quiet es

-- Such instructions let no interrupts in.
pub Guarded-Quiet :
    (es : List Event) (idt stubs : ℕ) (m0 m : Mem) (s : Machine) (t : Trace)
    → Quiet es
    → s.enabled ≡ false
    → Guarded idt stubs m0 (run es s) t
    → Guarded idt stubs m0 s (issued_at m es ++ t)
Guarded-Quiet [] idt stubs m0 m s t q off g = g
Guarded-Quiet (out_byte port byte ∷ es) idt stubs m0 m s t q off g =
    (λ on. cc, Guarded-Quiet es idt stubs m0 m (step (out_byte port byte) s) t q off g)
Guarded-Quiet (write_msr msr low high ∷ es) idt stubs m0 m s t q off g =
    (λ on. cc, Guarded-Quiet es idt stubs m0 m s t q off g)
Guarded-Quiet (load_idt limit base ∷ es) idt stubs m0 m s t q off g =
    (λ on. cc, Guarded-Quiet es idt stubs m0 m (step (load_idt limit base) s) t q off g)
Guarded-Quiet (sti ∷ es) idt stubs m0 m s t q off g = absurd q
Guarded-Quiet (cli ∷ es) idt stubs m0 m s t q off g =
    (λ on. cc, Guarded-Quiet es idt stubs m0 m (step cli s) t q refl g)
Guarded-Quiet (breakpoint ∷ es) idt stubs m0 m s t q off g =
    (λ on. cc, Guarded-Quiet es idt stubs m0 m s t q off g)
