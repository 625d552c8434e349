-- ===== src/Elf/Loading.antt =====
-- elf32_load on a file whose segments have their places: all of them are loaded.
use rainbow_os.Prelude.{
  ℕ, zero, suc, ◌+◌, ◌-◌, ◌≤◌, ◌<◌, ◌≡◌, refl, sym, ap, subst, ◌∙◌, inl, inr, true, false, some,
  arith, lt→ltb, le→ltb, Bool-cases, add32, sub32, mul32, ok,
}
use rainbow_os.Memory.{Mem, read32}
use rainbow_os.Memory.Words.{read16-eq}
use native.Mathlib.Decide.{dec_lt}
use rainbow_os.OutStream.{Console}
use rainbow_os.OutStream.Screen.{Good}
use rainbow_os.Elf.{
  e_phoff, e_phnum, e_phentsize, p_type, p_paddr, p_memsz, is_loaded, elf_check_prog_header,
  load_reported, load_loop, elf32_load, report_segment, report_total,
}
use rainbow_os.Elf.Layout.{ph, loads, dest, memsz, Loadable, Loaded, Loaded-Shows, word-file}
use rainbow_os.Elf.Round.{report_segment-Displays, report_total-Displays, load_reported-Loaded}

-- The rounds of the loop.
load_loop_end :
    (fuel stack header eph p i : ℕ) (c : Console)
    → eph ≤ p
    → load_loop (suc fuel) stack header eph p i c ≡ ok (some (p, i), c)
unfolding load_loop
load_loop_end fuel stack header eph p i c h = rw (le→ltb p eph h) refl

load_loop_skip :
    (fuel stack header eph p i : ℕ) (c d : Console)
    → p < eph
    → report_segment stack p c ≡ ok d
    → elf_check_prog_header d.1 p ≡ true
    → is_loaded d.1 p ≡ false
    → load_loop (suc fuel) stack header eph p i c
      ≡ load_loop fuel stack header eph (add32 p (e_phentsize d.1 header)) i d
unfolding load_loop
load_loop_skip fuel stack header eph p i c d h e a k = rw (lt→ltb p eph h, e, a, k) refl

load_loop_load :
    (fuel stack header eph p i : ℕ) (c d d' : Console)
    → p < eph
    → report_segment stack p c ≡ ok d
    → elf_check_prog_header d.1 p ≡ true
    → is_loaded d.1 p ≡ true
    → load_reported stack header p d ≡ ok d'
    → load_loop (suc fuel) stack header eph p i c
      ≡ load_loop fuel stack header eph (add32 p (e_phentsize d'.1 header)) (add32 i 1) d'
unfolding load_loop
load_loop_load fuel stack header eph p i c d d' h e a k r = rw (lt→ltb p eph h, e, a, k, r) refl

module _ (m : Mem) (header size n stack : ℕ) (l : Loadable m header size n stack) where
  -- The tests of a round, in a memory with the file.
  tests-eq :
      (i : ℕ) (c : Console)
      → i < n
      → Loaded m header size n stack i c
      → (elf_check_prog_header c.1 (ph m header i) ≡ elf_check_prog_header m (ph m header i))
        × (is_loaded c.1 (ph m header i) ≡ loads m header i)
  unfolding elf_check_prog_header is_loaded p_type p_memsz
  tests-eq i c h s =
      let start : ph m header i + 0 ≡ ph m header i = omega arith in
      let type : read32 c.1 (ph m header i) ≡ read32 m (ph m header i) =
        subst (λ (q : ℕ). read32 c.1 q ≡ read32 m q) start
          (word-file m header size n stack l i 0 c.1 s.file_kept h (omega arith)) in
      let size_word = word-file m header size n stack l i 20 c.1 s.file_kept h (omega arith) in
      (rw type refl, rw (type, size_word) refl)

  -- The size of a program header, in a memory with the file.
  entry_word :
      (m' : Mem)
      → ((x : ℕ) → header ≤ x → x < header + size → m' x ≡ m x)
      → e_phentsize m' header ≡ 32
  unfolding e_phentsize
  entry_word m' same =
      read16-eq m m' (header + 42) (same (header + 42) (omega arith) (omega (arith, l.header_in)))
        (same (header + 42 + 1) (omega arith) (omega (arith, l.header_in)))
      ∙ l.entry_bytes

  -- The step to the next program header.
  next_header :
      (i : ℕ) (c : Console)
      → i < n
      → ((x : ℕ) → header ≤ x → x < header + size → c.1 x ≡ m x)
      → add32 (ph m header i) (e_phentsize c.1 header) ≡ ph m header (i + 1)
  next_header i c h same = rw (entry_word c.1 same) (omega (arith, l.table_in, l.file_fits))

  -- A segment that is not loaded has nothing to be in its place.
  skipped-Loaded :
      (i : ℕ) (c : Console)
      → loads m header i ≡ false
      → Loaded m header size n stack i c
      → Loaded m header size n stack (i + 1) c
  skipped-Loaded i c t s = record {
    good = s.good;
    file_kept = s.file_kept;
    segments = λ k h u j lt. elim (dec_lt k i) [
      | yes before ↦ s.segments k before u j lt
      | no now ↦
          let e : i ≡ k = omega arith in
          absurd (subst (λ (q : ℕ). loads m header q ≡ true → ⊥) e (λ w. cc) u)
    ];
  }

  -- From header `i` on, with `k` to go.
  load_loop-Loaded :
      (k fuel i loaded : ℕ) (c : Console)
      → i + k ≡ n
      → k < fuel
      → loaded ≤ i
      → Loaded m header size n stack i c
      → (total : ℕ) × (c' : Console) × (load_loop fuel stack header
            (ph m header n)
            (ph m header i)
            loaded
            c
          ≡ ok (some (ph m header n, total), c'))
        × (total ≤ n)
        × Loaded m header size n stack n c'
  load_loop-Loaded k zero i loaded c e lt le s = absurd (omega arith)
  load_loop-Loaded zero (suc fuel) i loaded c e lt le s =
      let e' : i ≡ n = omega arith in
      (
        loaded,
        c,
        subst
            (λ (q : ℕ).
              load_loop (suc fuel) stack header (ph m header n) (ph m header q) loaded c
              ≡ ok (some (ph m header n, loaded), c))
            (sym e')
            (load_loop_end fuel stack header (ph m header n) (ph m header n) loaded c
              (omega arith)),
        omega arith,
        subst (λ (q : ℕ). Loaded m header size n stack q c) e' s,
      )
  load_loop-Loaded (suc k) (suc fuel) i loaded c e lt le s =
      let h : i < n = omega arith in
      let (d, e1, shown) =
        report_segment-Displays stack (ph m header i) l.array_off_screen
          (omega (arith, l.table_in, l.file_fits)) c s.good in
      let s' = Loaded-Shows m header size n stack l i (omega arith) c d s shown in
      let (check, test) = tests-eq i d h s' in
      let accepted = check ∙ l.accepted i h in
      let less : ph m header i < ph m header n = omega arith in
      elim (Bool-cases (loads m header i)) [
        | inl load ↦
            let (d', e2, s2) = load_reported-Loaded m header size n stack l i d h load s' in
            let (total, c', e3, le', s3) =
              load_loop-Loaded k fuel (i + 1) (loaded + 1) d' (omega arith) (omega arith)
                (omega arith) s2 in
            let one : add32 loaded 1 ≡ loaded + 1 = omega (arith, l.few) in
            (
              total,
              c',
              load_loop_load fuel stack header (ph m header n) (ph m header i) loaded c d d' less e1
                    accepted (test ∙ load) e2
                  ∙ rw (next_header i d' h s2.file_kept, one) e3,
              le',
              s3,
            )
        | inr skip ↦
            let (total, c', e3, le', s3) =
              load_loop-Loaded k fuel (i + 1) loaded d (omega arith) (omega arith) (omega arith)
                (skipped-Loaded i d skip s') in
            (
              total,
              c',
              load_loop_skip fuel stack header (ph m header n) (ph m header i) loaded c d less e1
                    accepted (test ∙ skip)
                  ∙ rw (next_header i d h s'.file_kept) e3,
              le',
              s3,
            )
      ]

-- elf32_load, from how its loop ends and the report.
elf32_load_lem :
    (fuel stack header first eph end back total : ℕ) (c d d' : Console)
    → add32 header (e_phoff c.1 header) ≡ first
    → add32 first (mul32 32 (e_phnum c.1 header)) ≡ eph
    → load_loop fuel stack header eph first 0 c ≡ ok (some (end, total), d)
    → sub32 end (e_phentsize d.1 header) ≡ back
    → report_total stack total d ≡ ok d'
    → elf32_load fuel stack header c ≡ ok (add32 (p_paddr d.1 back) (p_memsz d.1 back), d')
unfolding elf32_load
elf32_load_lem fuel stack header first eph end back total c d d' a b e f g = rw (a, b, e, f, g) refl

module _ (fuel header size n stack : ℕ) (c : Console) (l : Loadable c.1 header size n stack) where
  -- The words of the last header, in a memory with the file.
  last_words :
      (k : ℕ) (m' : Mem)
      → ((x : ℕ) → header ≤ x → x < header + size → m' x ≡ c.1 x)
      → k < n
      → add32 (p_paddr m' (ph c.1 header k)) (p_memsz m' (ph c.1 header k))
        ≡ add32 (dest c.1 header k) (memsz c.1 header k)
  unfolding p_paddr p_memsz
  last_words k m' same h =
      rw
        (
          word-file c.1 header size n stack l k 12 m' same h (omega arith),
          word-file c.1 header size n stack l k 20 m' same h (omega arith),
        )
        refl

  -- elf32_load of a file with at least one program header ends, with the file as it was and each
  -- loadable segment in its place, its part of the file followed by zeros; it returns the address
  -- behind the segment of the last program header, cut to 32 bits. The console is in order; the
  -- segments, the file, the screen and the array of the numbers lie apart, and no header is refused.
  -- One round more than there are program headers is enough.
  pub elf32_load-Loaded :
      Good 0xb8000 c
      → 1 ≤ n
      → n < fuel
      → (c' : Console) × (elf32_load fuel stack header c
          ≡ ok (add32 (dest c.1 header (n - 1)) (memsz c.1 header (n - 1)), c'))
        × Loaded c.1 header size n stack n c'
  elf32_load-Loaded g one enough =
      let m = c.1 in
      let start : Loaded m header size n stack 0 c = record {
        good = g;
        file_kept = λ x lo hi. refl;
        segments = λ k h t j lt. absurd (omega arith);
      } in
      let (total, d, e, le, s) =
        load_loop-Loaded m header size n stack l n fuel 0 0 c (omega arith) enough (omega arith)
          start in
      let first : add32 header (e_phoff m header) ≡ ph m header 0 =
        omega (arith, l.table_in, l.file_fits) in
      let end : add32 (ph m header 0) (mul32 32 (e_phnum m header)) ≡ ph m header n =
        rw l.count (omega (arith, l.table_in, l.file_fits, l.few)) in
      let back : sub32 (ph m header n) (e_phentsize d.1 header) ≡ ph m header (n - 1) =
        rw (entry_word m header size n stack l d.1 s.file_kept)
          (omega (arith, l.table_in, l.file_fits)) in
      let (d', e', shown) =
        report_total-Displays stack total l.array_off_screen (omega (arith, l.few)) d s.good in
      (
        d',
        elf32_load_lem fuel stack header (ph m header 0) (ph m header n) (ph m header n)
              (ph m header (n - 1)) total c d d' first end e back e'
            ∙ ap (λ (a : ℕ). ok (a, d')) (last_words (n - 1) d.1 s.file_kept (omega arith)),
        Loaded-Shows m header size n stack l n (omega arith) d d' s shown,
      )
