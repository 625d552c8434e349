-- ===== src/Elf/Layout.antt =====
-- An ELF file in memory, and the places that its segments are loaded to.
use rainbow_os.Prelude.{
  ℕ, ◌+◌, ◌*◌, ◌^◌, ◌≤◌, ◌<◌, ◌≡◌, ◌∙◌, ◌⊎◌, Bool, true, arith, ltb, if◌then◌else◌,
}
use rainbow_os.Memory.{Mem, read32}
use rainbow_os.Memory.Words.{read32-eq}
use rainbow_os.OutStream.{Console}
use rainbow_os.OutStream.Screen.{Good, Shows}
use rainbow_os.Elf.{
  e_phoff, e_phnum, e_phentsize, p_offset, p_paddr, p_filesz, p_memsz, is_loaded,
  elf_check_prog_header,
}

-- The `w` bytes from `a` on lie apart from the `v` bytes from `b` on.
abbrev pub Apart : ℕ → ℕ → ℕ → ℕ → Type 0
Apart a w b v = (a + w ≤ b) ⊎ (b + v ≤ a)

module _ (m : Mem) (header : ℕ) where
  -- Program header `i`, and what it says.
  abbrev pub ph : ℕ → ℕ
  ph i = header + e_phoff m header + 32 * i

  abbrev pub loads : ℕ → Bool
  loads i = is_loaded m (ph i)

  abbrev pub dest : ℕ → ℕ
  dest i = p_paddr m (ph i)

  abbrev pub src : ℕ → ℕ
  src i = header + p_offset m (ph i)

  abbrev pub filesz : ℕ → ℕ
  filesz i = p_filesz m (ph i)

  abbrev pub memsz : ℕ → ℕ
  memsz i = p_memsz m (ph i)

  -- The bytes of segment `k`: its part of the file, and zeros behind it.
  abbrev pub segment_byte : ℕ → ℕ → ℕ
  segment_byte k j = if ltb j (filesz k) then m (src k + j) else 0

module _ (m : Mem) (header size n stack : ℕ) where
  -- A file of `size` bytes at `header` with `n` program headers of 32 bytes, none of which is refused.
  -- The parts of the segments lie in the file; the segments, the file, the screen and the array in which
  -- numbers are printed lie apart, and inside the address space.
  pub record Loadable : Type 0 where
    pub entry_bytes : e_phentsize m header ≡ 32
    pub count : e_phnum m header ≡ n
    pub few : n < 2 ^ 16
    pub header_in : 52 ≤ size
    pub table_in : e_phoff m header + 32 * n ≤ size
    pub file_fits : header + size < 2 ^ 32
    pub accepted : (i : ℕ) → i < n → elf_check_prog_header m (ph m header i) ≡ true
    pub part :
        (i : ℕ)
        → i < n
        → loads m header i ≡ true
        → p_offset m (ph m header i) + filesz m header i ≤ size
    pub sizes : (i : ℕ) → i < n → loads m header i ≡ true → filesz m header i ≤ memsz m header i
    pub fits :
        (i : ℕ) → i < n → loads m header i ≡ true → dest m header i + memsz m header i < 2 ^ 32
    pub off_file :
        (i : ℕ)
        → i < n
        → loads m header i ≡ true
        → Apart (dest m header i) (memsz m header i) header size
    pub off_screen :
        (i : ℕ)
        → i < n
        → loads m header i ≡ true
        → Apart (dest m header i) (memsz m header i) 0xb8000 4000
    pub off_array :
        (i : ℕ)
        → i < n
        → loads m header i ≡ true
        → Apart (dest m header i) (memsz m header i) stack 33
    pub off_others :
        (i j : ℕ)
        → i < j
        → j < n
        → loads m header i ≡ true
        → loads m header j ≡ true
        → Apart (dest m header i) (memsz m header i) (dest m header j) (memsz m header j)
    pub file_off_screen : Apart header size 0xb8000 4000
    pub file_off_array : Apart header size stack 33
    pub array_off_screen : Apart stack 33 0xb8000 4000

  -- The console is good, the file as it was, and the segments before `i` are in their places.
  pub record Loaded (i : ℕ) (c : Console) : Type 0 where
    pub good : Good 0xb8000 c
    pub file_kept : (x : ℕ) → header ≤ x → x < header + size → c.1 x ≡ m x
    pub segments :
        (k : ℕ)
        → k < i
        → loads m header k ≡ true
        → (j : ℕ) → j < memsz m header k
        → c.1 (dest m header k + j) ≡ segment_byte m header k j

  -- Printing leaves the segments.
  pub Loaded-Shows :
      Loadable
      → (i : ℕ) → i ≤ n
      → (c c' : Console) → Loaded i c
      → Shows 0xb8000 stack c c'
      → Loaded i c'
  Loaded-Shows l i le c c' s shown = record {
    good = shown.good;
    file_kept = λ x lo hi.
        shown.same x (omega (arith, l.file_off_screen)) (omega (arith, l.file_off_array))
        ∙ s.file_kept x lo hi;
    segments = λ k h t j lt.
        shown.same (dest m header k + j) (omega (arith, l.off_screen k (omega arith) t))
          (omega (arith, l.off_array k (omega arith) t))
        ∙ s.segments k h t j lt;
  }

  -- A word of a program header, in a memory with the file.
  pub word-file :
      Loadable
      → (i o : ℕ) (m' : Mem) → ((x : ℕ) → header ≤ x → x < header + size → m' x ≡ m x)
      → i < n
      → o ≤ 28
      → read32 m' (ph m header i + o) ≡ read32 m (ph m header i + o)
  word-file l i o m' same h le =
      read32-eq m m' (ph m header i + o)
        (λ x lo hi. same x (omega arith) (omega (arith, l.table_in)))
