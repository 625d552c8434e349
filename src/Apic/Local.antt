-- ===== src/Apic/Local.antt =====
-- What l_apic::enable does to the machine.
use rainbow_os.Prelude.{subst, add32, ℕ, ◌+◌, ◌*◌, ◌/◌, ◌%◌, ◌^◌, ◌≤◌, ◌≡◌, refl, [], ◌∷◌, arith}
use rainbow_os.Memory.{Mem, IsBytes, SameOutside, write8, read32}
use rainbow_os.Memory.Words.{read32-eq, write8-IsBytes}
use rainbow_os.Cpu.{write_msr, set_msr}
use rainbow_os.Apic.{LocalApic, base_address, spurious_register, set_spurious, enable}

-- The offset of the spurious interrupt vector register in the page of the local APIC.
abbrev pub spurious_offset : ℕ
spurious_offset = 0xF0

set_spurious-SameOutside : (a : ℕ) (m : Mem) → SameOutside a 2 m (set_spurious a m)
unfolding set_spurious write8
set_spurious-SameOutside a m x o = ground arith

-- enable writes at most the two bytes at the address that it computes, and keeps a memory of bytes.
pub enable-SameOutside :
    (reg : LocalApic) (m : Mem)
    → IsBytes m
    → SameOutside (spurious_register m reg) 2 m (enable reg m).1 × IsBytes (enable reg m).1
unfolding enable set_spurious
enable-SameOutside reg m b = (
  unfold set_spurious in set_spurious-SameOutside (spurious_register m reg) m,
  write8-IsBytes _ _ _ (write8-IsBytes m _ _ b),
)

-- The two bytes of the register: the vector 0xff, and bit 0 of the byte behind it set, the rest kept.
set_spurious_word :
    (a : ℕ) (m : Mem)
    → IsBytes m
    → let m' = set_spurious a m in
      (m' a ≡ 0xff) × (m' (a + 1) % 2 ≡ 1) × (m' (a + 1) / 2 ≡ m (a + 1) / 2)
unfolding set_spurious write8
set_spurious_word a m b = (ground arith, ground (arith, b (a + 1)), ground (arith, b (a + 1)))

-- Whatever the pointer is, enable writes the base address register with the enable bit, bit 11, clear,
-- and that first. If the page of the APIC lies in the address space, it then leaves the register
-- that it means to set alone, and stores its vector 0xff and its enable flag 0x3C0 bytes behind the
-- page's start instead: nothing beside these two bytes changes, nor do the other bits of the second.
pub enable_misses :
    (reg : LocalApic) (m : Mem)
    → IsBytes m
    → base_address m reg + 2 ^ 12 ≤ 2 ^ 32
    → let (trace, m') = enable reg m in
      let a = base_address m reg + 0x3C0 in
      ((low : ℕ) × (trace ≡ (write_msr 0x1b low 0, m) ∷ []) × (low / 2 ^ 11 % 2 ≡ 0))
      × (read32 m' (base_address m reg + spurious_offset)
          ≡ read32 m (base_address m reg + spurious_offset))
      × ((m' a ≡ 0xff) × (m' (a + 1) % 2 ≡ 1) × (m' (a + 1) / 2 ≡ m (a + 1) / 2))
      × SameOutside a 2 m m'
unfolding enable set_msr spurious_register
enable_misses reg m b h =
    let m' = (enable reg m).1 in
    let at : add32 (base_address m reg) 0x3C0 ≡ base_address m reg + 0x3C0 = omega arith in
    let same : SameOutside (base_address m reg + 0x3C0) 2 m m' =
      subst (λ (a : ℕ). SameOutside a 2 m m') at
        (set_spurious-SameOutside (spurious_register m reg) m) in
    (
      (reg / 2 ^ 12 * 2 ^ 12, refl, omega arith),
      read32-eq m m' (base_address m reg + 0xF0) (λ x lo hi. same x (omega arith)),
      subst (λ (a : ℕ). (m' a ≡ 0xff) × (m' (a + 1) % 2 ≡ 1) × (m' (a + 1) / 2 ≡ m (a + 1) / 2)) at
          (set_spurious_word (spurious_register m reg) m b),
      same,
    )
