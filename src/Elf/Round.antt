-- ===== src/Elf/Round.antt =====
-- One round of the loop of elf32_load.
use rainbow_os.Prelude.{
  ℕ, ◌+◌, ◌-◌, ◌^◌, ◌≤◌, ◌<◌, ◌≡◌, refl, ap, subst, ◌∙◌, ◌⊎◌, true, arith, add32, ok,
}
use rainbow_os.Memory.{Mem, read32}
use rainbow_os.Memory.Words.{read32-lt}
use native.Mathlib.Decide.{dec_lt}
use rainbow_os.OutStream.{Console}
use rainbow_os.OutStream.Screen.{Good-memory, Displays, Displays-join, text-Displays}
use rainbow_os.OutStream.Number.{num-Displays}
use rainbow_os.Elf.{
  p_type, p_offset, p_paddr, p_filesz, p_memsz, load_segment, load_reported, report_segment,
  report_loading, report_total,
}
use rainbow_os.Elf.Segment.{image, load_segment-eq-image}
use rainbow_os.Elf.Layout.{
  ph, loads, dest, src, filesz, memsz, Loadable, segment_byte, Loaded, Loaded-Shows, word-file,
}

pub report_segment-Displays :
    (stack p : ℕ)
    → (stack + 33 ≤ 0xb8000) ⊎ (0xb8000 + 4000 ≤ stack)
    → p < 2 ^ 32
    → Displays 0xb8000 stack (report_segment stack p)
unfolding report_segment p_type
report_segment-Displays stack p apart h =
    Displays-join 0xb8000 stack _ _
      (Displays-join 0xb8000 stack _ _
        (Displays-join 0xb8000 stack _ _
          (Displays-join 0xb8000 stack _ _ (text-Displays 0xb8000 stack _)
            (num-Displays 0xb8000 stack apart p h))
          (text-Displays 0xb8000 stack _))
        (λ c g. num-Displays 0xb8000 stack apart (read32 c.1 p) (read32-lt c.1 p g.bytes) c g))
      (text-Displays 0xb8000 stack _)

report_loading-Displays :
    (stack p : ℕ)
    → (stack + 33 ≤ 0xb8000) ⊎ (0xb8000 + 4000 ≤ stack)
    → p < 2 ^ 32
    → Displays 0xb8000 stack (report_loading stack p)
unfolding report_loading
report_loading-Displays stack p apart h =
    Displays-join 0xb8000 stack _ _
      (Displays-join 0xb8000 stack _ _ (text-Displays 0xb8000 stack _)
        (num-Displays 0xb8000 stack apart p h))
      (text-Displays 0xb8000 stack _)

pub report_total-Displays :
    (stack k : ℕ)
    → (stack + 33 ≤ 0xb8000) ⊎ (0xb8000 + 4000 ≤ stack)
    → k < 2 ^ 32
    → Displays 0xb8000 stack (report_total stack k)
unfolding report_total
report_total-Displays stack k apart h =
    Displays-join 0xb8000 stack _ _
      (Displays-join 0xb8000 stack _ _ (text-Displays 0xb8000 stack _)
        (num-Displays 0xb8000 stack apart k h))
      (text-Displays 0xb8000 stack _)

-- The part of a round that loads, from what it reads and how the report ends.
load_reported_lem :
    (stack header p to from : ℕ) (c d : Console)
    → p_paddr c.1 p ≡ to
    → add32 header (p_offset c.1 p) ≡ from
    → report_loading stack to c ≡ ok d
    → load_reported stack header p c ≡ ok (d.0, load_segment to from p d.1)
unfolding load_reported
load_reported_lem stack header p to from c d a b e = rw (a, b, e) refl

module _ (m : Mem) (header size n stack : ℕ) (l : Loadable m header size n stack) where
  paddr_word :
      (i : ℕ) (c : Console)
      → i < n
      → Loaded m header size n stack i c
      → p_paddr c.1 (ph m header i) ≡ dest m header i
  unfolding p_paddr
  paddr_word i c h s = word-file m header size n stack l i 12 c.1 s.file_kept h (omega arith)

  source_word :
      (i : ℕ) (c : Console)
      → i < n
      → loads m header i ≡ true
      → Loaded m header size n stack i c
      → add32 header (p_offset c.1 (ph m header i)) ≡ src m header i
  unfolding p_offset
  source_word i c h t s =
      let e = word-file m header size n stack l i 4 c.1 s.file_kept h (omega arith) in
      rw e (omega (arith, l.part i h t, l.file_fits))

  module _ (i : ℕ) (c : Console) (h : i < n) (t : loads m header i ≡ true)
      (s : Loaded m header size n stack i c) where
    -- The memory once segment `i` is loaded.
    abbrev pub with_segment : Mem
    with_segment = load_segment (dest m header i) (src m header i) (ph m header i) c.1

    size_fields :
        (p_filesz c.1 (ph m header i) ≡ filesz m header i)
        × (p_memsz c.1 (ph m header i) ≡ memsz m header i)
    unfolding p_filesz p_memsz
    size_fields = (
      word-file m header size n stack l i 16 c.1 s.file_kept h (omega arith),
      word-file m header size n stack l i 20 c.1 s.file_kept h (omega arith),
    )

    with_segment_lem :
        (x : ℕ)
        → with_segment x
          ≡ image (dest m header i) (src m header i) (filesz m header i) (memsz m header i) c.1 x
    with_segment_lem x =
        load_segment-eq-image (dest m header i) (src m header i) (ph m header i) (filesz m header i)
          (memsz m header i) c.1 s.good.bytes (l.fits i h t) (l.sizes i h t)
          (omega (arith, l.off_file i h t, l.table_in))
          (omega (arith, l.off_file i h t, l.part i h t, l.sizes i h t)) size_fields.0 size_fields.1
          x

    old_segment :
        (k j : ℕ)
        → k < i
        → loads m header k ≡ true
        → j < memsz m header k
        → with_segment (dest m header k + j) ≡ segment_byte m header k j
    old_segment k j lt u in_it = ground (
      arith,
      with_segment_lem (dest m header k + j),
      l.sizes i h t,
      l.off_others k i lt h u t,
      s.segments k lt u j in_it,
    )

    new_segment :
        (j : ℕ)
        → j < memsz m header i
        → with_segment (dest m header i + j) ≡ segment_byte m header i j
    new_segment j lt =
        let off : src m header i + (dest m header i + j - dest m header i) ≡ src m header i + j =
          omega arith in
        let copied_byte : j < filesz m header i
            → c.1 (src m header i + (dest m header i + j - dest m header i))
              ≡ m (src m header i + j) =
          λ in_file.
            ap c.1 off
            ∙ s.file_kept (src m header i + j) (omega arith) (omega (arith, l.part i h t)) in
        ground (arith, with_segment_lem (dest m header i + j), copied_byte)

    load_segment-Loaded : Loaded m header size n stack (i + 1) (c.0, with_segment)
    load_segment-Loaded = record {
      good = Good-memory 0xb8000 c.0 c.1 with_segment s.good (λ x. ground (
        arith,
        with_segment_lem x,
        s.good.bytes x,
        s.good.bytes (src m header i + (x - dest m header i)),
      ));
      file_kept = λ x lo hi.
          ground (arith, with_segment_lem x, l.off_file i h t, l.sizes i h t, s.file_kept x lo hi);
      segments = λ k lt u j in_it. elim (dec_lt k i) [
        | yes before ↦ old_segment k j before u in_it
        | no now ↦
            let e : i ≡ k = omega arith in
            subst
              (λ (q : ℕ).
                j < memsz m header q
                → with_segment (dest m header q + j) ≡ segment_byte m header q j)
              e (new_segment j) in_it
      ];
    }

  -- A round that loads: it reports the place and loads the segment there.
  pub load_reported-Loaded :
      (i : ℕ) (c : Console)
      → i < n
      → loads m header i ≡ true
      → Loaded m header size n stack i c
      → (c' : Console) × (load_reported stack header (ph m header i) c ≡ ok c')
        × Loaded m header size n stack (i + 1) c'
  load_reported-Loaded i c h t s =
      let place = l.fits i h t in
      let (d, e, shown) =
        report_loading-Displays stack (dest m header i) l.array_off_screen (omega arith) c s.good in
      let s' = Loaded-Shows m header size n stack l i (omega arith) c d s shown in
      (
        (d.0, with_segment i d h t s'),
        load_reported_lem stack header (ph m header i) (dest m header i) (src m header i) c d
            (paddr_word i c h s) (source_word i c h t s) e,
        load_segment-Loaded i d h t s',
      )
