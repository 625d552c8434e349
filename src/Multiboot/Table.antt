-- ===== src/Multiboot/Table.antt =====
-- The stores of buildMultibootInfo to the table.
use rainbow_os.Prelude.{
  ℕ, ◌+◌, ◌*◌, ◌^◌, ◌≤◌, ◌<◌, ◌≡◌, refl, ap, ◌∙◌, ◌⊎◌, inl, inr, true, arith, if◌then◌else◌,
  Bool-cases, mul32, test_bit,
}
use rainbow_os.Memory.{Mem, SameOutside, read32, write32}
use rainbow_os.Memory.Words.{write32-SameOutside, read32-write32, read32-eq, read32-write32_apart}
use Prim.Native.Nat.{bit_or}
use rainbow_os.MemoryMap.{get_upper_memory_size}
use rainbow_os.Multiboot.{info_size, flags, set_flags, fill_device}

-- The words of the table at `info` that describe the memory, and the flags.
pub record Describes (m : Mem) (info f lower up len addr : ℕ) : Type 0 where
  pub flag_word : read32 m info ≡ f
  pub mem_lower : read32 m (info + 4) ≡ lower
  pub mem_upper : read32 m (info + 8) ≡ up
  pub mmap_length : read32 m (info + 44) ≡ len
  pub mmap_addr : read32 m (info + 48) ≡ addr

pub set_flags-SameOutside : (info bits : ℕ) (m : Mem) → SameOutside info 4 m (set_flags info bits m)
unfolding set_flags
set_flags-SameOutside info bits m = write32-SameOutside m info _

set_flags-Describes :
    (m : Mem) (info bits f g lower up len addr : ℕ)
    → bit_or f bits ≡ g
    → g < 2 ^ 32
    → Describes m info f lower up len addr
    → Describes (set_flags info bits m) info g lower up len addr
unfolding set_flags
set_flags-Describes m info bits f g lower up len addr e h d =
    let word : bit_or (read32 m info) bits ≡ g = ap (λ (k : ℕ). bit_or k bits) d.flag_word ∙ e in
    record {
      flag_word = read32-write32 m info _ (omega arith) ∙ word;
      mem_lower = read32-write32_apart m info (info + 4) _ (omega arith) ∙ d.mem_lower;
      mem_upper = read32-write32_apart m info (info + 8) _ (omega arith) ∙ d.mem_upper;
      mmap_length = read32-write32_apart m info (info + 44) _ (omega arith) ∙ d.mmap_length;
      mmap_addr = read32-write32_apart m info (info + 48) _ (omega arith) ∙ d.mmap_addr;
    }

-- The stores behind queryUpperMemory.
abbrev pub upper_stored : ℕ → ℕ → Mem → Mem
upper_stored info upper m =
    let m3 = write32 m (info + 8) (get_upper_memory_size m upper) in
    let m4 = write32 m3 (info + 44) (mul32 (read32 m3 upper) 24) in
    write32 m4 (info + 48) (read32 m4 (upper + 4))

abbrev pub filled : ℕ → ℕ → Mem → Mem
filled info upper m = set_flags info (2 ^ 6) (set_flags info 1 (upper_stored info upper m))

-- The struct that queryUpperMemory returned lies behind the table; it counts fewer than 100 entries.
pub filled-Describes :
    (m : Mem) (info upper lower up count mmap : ℕ)
    → info + info_size ≤ upper
    → read32 m info ≡ 0
    → read32 m (info + 4) ≡ lower
    → read32 m upper ≡ count
    → read32 m (upper + 4) ≡ mmap
    → get_upper_memory_size m upper ≡ up
    → up < 2 ^ 32
    → count < 100
    → mmap < 2 ^ 32
    → Describes (filled info upper m) info 65 lower up (count * 24) mmap
filled-Describes m info upper lower up count mmap behind zero_flags low size array total word few
      fits =
    let m3 = write32 m (info + 8) (get_upper_memory_size m upper) in
    let counted : mul32 (read32 m3 upper) 24 ≡ count * 24 =
      let e =
        read32-write32_apart m (info + 8) upper (get_upper_memory_size m upper) (omega arith) in
      omega arith in
    let m4 = write32 m3 (info + 44) (mul32 (read32 m3 upper) 24) in
    let pointer : read32 m4 (upper + 4) ≡ mmap =
      read32-write32_apart m3 (info + 44) (upper + 4) _ (omega arith)
      ∙ read32-write32_apart m (info + 8) (upper + 4) _ (omega arith)
      ∙ array in
    let m5 = upper_stored info upper m in
    let past : (b : ℕ) → b + 4 ≤ info + 8 → read32 m5 b ≡ read32 m b = λ b h.
      read32-write32_apart m4 (info + 48) b _ (omega arith)
      ∙ read32-write32_apart m3 (info + 44) b _ (omega arith)
      ∙ read32-write32_apart m (info + 8) b _ (omega arith) in
    let base : Describes m5 info 0 lower up (count * 24) mmap = record {
      flag_word = past info (omega arith) ∙ zero_flags;
      mem_lower = past (info + 4) (omega arith) ∙ low;
      mem_upper =
          read32-write32_apart m4 (info + 48) (info + 8) _ (omega arith)
          ∙ read32-write32_apart m3 (info + 44) (info + 8) _ (omega arith)
          ∙ read32-write32 m (info + 8) _ (omega (arith, total))
          ∙ total;
      mmap_length =
          read32-write32_apart m4 (info + 48) (info + 44) _ (omega arith)
          ∙ read32-write32 m3 (info + 44) _ (omega arith)
          ∙ counted;
      mmap_addr = read32-write32 m4 (info + 48) _ (omega arith) ∙ pointer;
    } in
    set_flags-Describes _ info (2 ^ 6) 1 65 lower up (count * 24) mmap refl (omega arith)
      (set_flags-Describes m5 info 1 0 1 lower up (count * 24) mmap refl (omega arith) base)

pub filled-SameOutside :
    (m : Mem) (info upper : ℕ) → SameOutside info info_size m (filled info upper m)
filled-SameOutside m info upper x o =
    set_flags-SameOutside info (2 ^ 6) _ x (omega arith)
    ∙ set_flags-SameOutside info 1 _ x (omega arith)
    ∙ write32-SameOutside _ (info + 48) _ x (omega arith)
    ∙ write32-SameOutside _ (info + 44) _ x (omega arith)
    ∙ write32-SameOutside m (info + 8) _ x (omega arith)

-- `if (header->flags & 2)`
pub fill_device-Describes :
    (m : Mem) (header info device lower up len addr : ℕ)
    → device < 2 ^ 32
    → Describes m info 65 lower up len addr
    → let m' = fill_device header info device m in
      Describes m' info (if test_bit (flags m header) 1 then 67 else 65) lower up len addr
      × (test_bit (flags m header) 1 ≡ true → read32 m' (info + 12) ≡ device)
      × SameOutside info info_size m m'
unfolding fill_device
fill_device-Describes m header info device lower up len addr h d =
    elim (Bool-cases (test_bit (flags m header) 1)) [
      | inl asked ↦
          let m1 = write32 m (info + 12) device in
          let beside : (b : ℕ) → (b + 4 ≤ info + 12) ⊎ (info + 16 ≤ b) → read32 m1 b ≡ read32 m b =
            λ b o. read32-write32_apart m (info + 12) b device (omega arith) in
          let stored : Describes m1 info 65 lower up len addr = record {
            flag_word = beside info (omega arith) ∙ d.flag_word;
            mem_lower = beside (info + 4) (omega arith) ∙ d.mem_lower;
            mem_upper = beside (info + 8) (omega arith) ∙ d.mem_upper;
            mmap_length = beside (info + 44) (omega arith) ∙ d.mmap_length;
            mmap_addr = beside (info + 48) (omega arith) ∙ d.mmap_addr;
          } in
          rw asked (
            set_flags-Describes m1 info 2 65 67 lower up len addr refl (omega arith) stored,
            λ _.
                read32-eq m1 (set_flags info 2 m1) (info + 12)
                  (λ x lo hi. set_flags-SameOutside info 2 m1 x (omega arith))
                ∙ read32-write32 m (info + 12) device h,
            λ x o.
                set_flags-SameOutside info 2 m1 x (omega arith)
                ∙ write32-SameOutside m (info + 12) device x (omega arith),
          )
      | inr not_asked ↦ rw not_asked (d, λ q. cc, λ x o. refl)
    ]
