-- ===== src/Elf.antt =====
-- include/sys/elf.h, and elf_check_file, elf_check_prog_header and elf32_load of
-- bootloader/stage1main.cpp: checking the kernel's file and loading its segments. `out` is the
-- stream that elf32_load reports to, and `stack` the address of the array of its numbers.
pub mod Segment
pub mod Layout
pub mod Round
pub mod Loading
mod Tests
use rainbow_os.Prelude.{
  ℕ, zero, suc, ◌+◌, Bool, true, false, ◌&&◌, not, Option, none, some, ltb, ◌==◌, if◌then◌else◌,
  add32, sub32, mul32, Outcome, ok, out_of_fuel, ◌>>=◌,
}
use rainbow_os.Memory.{Mem, read16, read32}
use rainbow_os.Str.{memcpy, memset}
use rainbow_os.OutStream.{Console, Writer, text, num, ◌<<◌}

-- elf32_Ehdr: 16 bytes of identification, and the fields behind them
unfoldable pub e_ident : Mem → ℕ → ℕ → ℕ
e_ident m header i = m (header + i)

unfoldable pub e_type : Mem → ℕ → ℕ
e_type m header = read16 m (header + 16)

unfoldable pub e_machine : Mem → ℕ → ℕ
e_machine m header = read16 m (header + 18)

unfoldable pub e_phoff : Mem → ℕ → ℕ
e_phoff m header = read32 m (header + 28)

unfoldable pub e_phentsize : Mem → ℕ → ℕ
e_phentsize m header = read16 m (header + 42)

unfoldable pub e_phnum : Mem → ℕ → ℕ
e_phnum m header = read16 m (header + 44)

-- elf32_Phdr: eight words
unfoldable pub p_type : Mem → ℕ → ℕ
p_type m ph = read32 m ph

unfoldable pub p_offset : Mem → ℕ → ℕ
p_offset m ph = read32 m (ph + 4)

unfoldable pub p_paddr : Mem → ℕ → ℕ
p_paddr m ph = read32 m (ph + 12)

unfoldable pub p_filesz : Mem → ℕ → ℕ
p_filesz m ph = read32 m (ph + 16)

unfoldable pub p_memsz : Mem → ℕ → ℕ
p_memsz m ph = read32 m (ph + 20)

abbrev pub phdr_size : ℕ
phdr_size = 32

abbrev pub pt_load : ℕ
pt_load = 1

abbrev pub pt_dynamic : ℕ
pt_dynamic = 2

abbrev pub pt_interp : ℕ
pt_interp = 3

unfoldable pub elf_check_file : Mem → ℕ → Bool
elf_check_file m header =
    if header == 0
    then false
    else if not (e_ident m header 0 == 0x7f)
    then false
    else if not (e_ident m header 1 == b'E')
    then false
    else if not (e_ident m header 2 == b'L')
    then false
    else if not (e_ident m header 3 == b'F')
    then false
    else if not (e_ident m header 4 == 1)
    then false
    else if not (e_ident m header 5 == 1)
    then false
    else if not (e_machine m header == 3)
    then false
    else if not (e_ident m header 6 == 1)
    then false
    else if not (e_type m header == 2)
    then false
    else true

unfoldable pub elf_check_prog_header : Mem → ℕ → Bool
elf_check_prog_header m ph =
    if p_type m ph == pt_dynamic then false else if p_type m ph == pt_interp then false else true

-- The copying of one segment, and the filling of what its file part leaves.
unfoldable pub load_segment : ℕ → ℕ → ℕ → Mem → Mem
load_segment dest src ph m =
    let m' = memcpy dest src (p_filesz m ph) m in
    if ltb (p_filesz m' ph) (p_memsz m' ph)
    then memset (add32 dest (p_filesz m' ph)) 0 (sub32 (p_memsz m' ph) (p_filesz m' ph)) m'
    else m'

-- "Found segment at 0x" ph " of type " p_type "\n"
unfoldable pub report_segment : ℕ → ℕ → Writer
report_segment stack ph =
    text "Found segment at 0x"
    << num stack ph
    << text " of type "
    << (λ c. num stack (p_type c.1 ph) c)
    << text "\n"

-- "Loading it to 0x" dest "\n"
unfoldable pub report_loading : ℕ → ℕ → Writer
report_loading stack dest = text "Loading it to 0x" << num stack dest << text "\n"

-- "Loaded " i " segments total!\n"
unfoldable pub report_total : ℕ → ℕ → Writer
report_total stack i = text "Loaded " << num stack i << text " segments total!\n"

-- The tests that make a round `continue`.
unfoldable pub is_loaded : Mem → ℕ → Bool
is_loaded m ph = (p_type m ph == pt_load) && not (p_memsz m ph == 0)

-- The part of a round behind those tests: `dest` and `src` are read before the report.
unfoldable pub load_reported : ℕ → ℕ → ℕ → Writer
load_reported stack header ph (out, m) =
    let dest = p_paddr m ph in
    let src = add32 header (p_offset m ph) in
    report_loading stack dest (out, m) >>= λ (out1, m1). ok (out1, load_segment dest src ph m1)

-- `for (; ph < eph; ph += header->e_phentsize)`: the final `ph` and `i`, or none where the loop
-- returns 0.
unfoldable pub load_loop : ℕ → ℕ → ℕ → ℕ → ℕ → ℕ → Console → Outcome (Option (ℕ × ℕ) × Console)
load_loop zero stack header eph ph i c = out_of_fuel
load_loop (suc fuel) stack header eph ph i c =
    let on = λ (k : ℕ) (d : Console).
      load_loop fuel stack header eph (add32 ph (e_phentsize d.1 header)) k d in
    let round = report_segment stack ph c >>= λ d.
    let load = load_reported stack header ph d >>= on (add32 i 1) in
    if not (elf_check_prog_header d.1 ph)
    then ok (none, d)
    else if not (is_loaded d.1 ph)
    then on i d
    else load in
    if ltb ph eph then round else ok (some (ph, i), c)

-- elf32_load: the address behind the last segment, 0 for a header that is refused
unfoldable pub elf32_load : ℕ → ℕ → ℕ → Console → Outcome (ℕ × Console)
elf32_load fuel stack header c =
    let ph = add32 header (e_phoff c.1 header) in
    let eph = add32 ph (mul32 phdr_size (e_phnum c.1 header)) in
    load_loop fuel stack header eph ph 0 c >>= λ (end, d). elim end [
      | none ↦ ok (0, d)
      | some (last, i) ↦
          let back = sub32 last (e_phentsize d.1 header) in
          let final = add32 (p_paddr d.1 back) (p_memsz d.1 back) in
          report_total stack i d >>= λ d'. ok (final, d')
    ]
