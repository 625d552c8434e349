-- ===== src/Apic/Tests.antt =====
-- A local APIC whose page is at 0x5000.
use rainbow_os.Prelude.{ℕ, ◌+◌, ◌/◌, ◌%◌, ◌^◌, ◌≤◌, ◌≡◌, [], ◌∷◌, arith, ◌==◌, if◌then◌else◌}
use rainbow_os.Memory.{Mem, SameOutside, read32}
use rainbow_os.Cpu.{write_msr}
use rainbow_os.Apic.{base_address, enable}
use rainbow_os.Apic.Local.{spurious_offset, enable_misses}

-- A page at 0x5000.
abbrev page : Mem
page x = if x == 1 then 0x50 else 0

page_fits : base_address page 0 + 2 ^ 12 ≤ 2 ^ 32
unfolding base_address read32
page_fits = omega arith

enable_misses_example :
    let (trace, m') = enable 0 page in
    let a = base_address page 0 + 0x3C0 in
    ((low : ℕ) × (trace ≡ (write_msr 0x1b low 0, page) ∷ []) × (low / 2 ^ 11 % 2 ≡ 0))
    × (read32 m' (base_address page 0 + spurious_offset)
        ≡ read32 page (base_address page 0 + spurious_offset))
    × ((m' a ≡ 0xff) × (m' (a + 1) % 2 ≡ 1) × (m' (a + 1) / 2 ≡ page (a + 1) / 2))
    × SameOutside a 2 page m'
enable_misses_example = enable_misses 0 page (λ x. ground arith) page_fits
