-- ===== src/Elf/Tests.antt =====
-- A segment of 4 bytes in the file and 8 in memory.
use rainbow_os.Prelude.{
  ℕ, zero, suc, ◌<◌, ◌≡◌, refl, inl, inr, ◌||◌, arith, ◌==◌, if◌then◌else◌, ok,
}
use rainbow_os.Memory.{Mem, read16, read32}
use rainbow_os.Elf.{p_filesz, p_memsz}
use rainbow_os.Terminal.{framebuffer_terminal}
use rainbow_os.OutStream.{Console, init}
use rainbow_os.OutStream.Screen.{Good}
use rainbow_os.Elf.{
  e_phoff, e_phnum, e_phentsize, p_type, p_offset, p_paddr, is_loaded, elf_check_prog_header,
  elf32_load,
}
use rainbow_os.Elf.Layout.{Loadable, Loaded}
use rainbow_os.Elf.Loading.{elf32_load-Loaded}

-- The header at 64.
abbrev file : Mem
file x = if x == 80 then 4 else if x == 84 then 8 else if x == 101 then 7 else 0

-- A file of 88 bytes at 0x10000: the header, one program header for 0x20000, and 4 bytes.
abbrev kernel_file : Mem
kernel_file x =
    if x == 0x1001c
    then 52
    else if x == 0x1002a
    then 32
    else if x == 0x1002c || x == 0x10034
    then 1
    else if x == 0x10038
    then 84
    else if x == 0x10042
    then 2
    else if x == 0x10044
    then 4
    else if x == 0x10048
    then 8
    else if x == 0x10055
    then 7
    else 0

abbrev console : Console
console = (init framebuffer_terminal, kernel_file)

console-Good : Good 0xb8000 console
unfolding init framebuffer_terminal
console-Good = record {
  cursor = record { row_in = omega arith; column_in = omega arith };
  at_buffer = refl;
  base_low = omega arith;
  base_high = omega arith;
  bytes = λ x. ground arith;
}

only_first {ℓ} : (A : ℕ → Type ℓ) → A 0 → (i : ℕ) → i < 1 → A i
only_first A first zero h = first
only_first A first (suc i) h = absurd (omega arith)

kernel_file-Loadable : Loadable kernel_file 0x10000 88 1 4096
unfolding e_phoff e_phnum e_phentsize p_type p_offset p_paddr p_filesz p_memsz is_loaded
    elf_check_prog_header read32 read16
kernel_file-Loadable = record {
  entry_bytes = refl;
  count = refl;
  few = omega arith;
  header_in = omega arith;
  table_in = omega arith;
  file_fits = omega arith;
  accepted = only_first _ refl;
  part = only_first _ (λ t. omega arith);
  sizes = only_first _ (λ t. omega arith);
  fits = only_first _ (λ t. omega arith);
  off_file = only_first _ (λ t. inr (omega arith));
  off_screen = only_first _ (λ t. inl (omega arith));
  off_array = only_first _ (λ t. inr (omega arith));
  off_others = λ i j h k t u. absurd (omega arith);
  file_off_screen = inl (omega arith);
  file_off_array = inr (omega arith);
  array_off_screen = inl (omega arith);
}

elf32_load-Loaded_example :
    (c' : Console) × (elf32_load 2 4096 0x10000 console ≡ ok (0x20008, c'))
    × Loaded kernel_file 0x10000 88 1 4096 1 c'
unfolding e_phoff p_paddr p_memsz read32
elf32_load-Loaded_example =
    elf32_load-Loaded 2 0x10000 88 1 4096 console kernel_file-Loadable console-Good (omega arith)
      (omega arith)
