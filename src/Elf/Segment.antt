-- ===== src/Elf/Segment.antt =====
-- What loading one segment puts into the memory.
use rainbow_os.Prelude.{
  ℕ, ◌+◌, ◌-◌, ◌^◌, ◌≤◌, ◌<◌, ◌≡◌, ◌∙◌, ◌⊎◌, inl, inr, arith, ltb, if◌then◌else◌, Bool-cases, add32,
  sub32,
}
use rainbow_os.Memory.{Mem, IsBytes, inside}
use rainbow_os.Memory.Words.{read32-eq}
use rainbow_os.Str.{memcpy, memset}
use rainbow_os.Str.Copy.{copied, memcpy-copied, memset_lem}
use rainbow_os.Elf.{p_filesz, p_memsz, load_segment}

-- The image of a segment: its part of the file, and zeros up to its size.
abbrev pub image : ℕ → ℕ → ℕ → ℕ → Mem → Mem
image dest src filesz memsz m x =
    if inside dest filesz x then m (src + (x - dest)) else if inside dest memsz x then 0 else m x

module _ (dest src ph filesz memsz : ℕ) (m : Mem) (bytes : IsBytes m) (fits : dest + memsz < 2 ^ 32)
    (le : filesz ≤ memsz) (header_apart : (ph + 32 ≤ dest) ⊎ (dest + memsz ≤ ph))
    (file_apart : (dest ≤ src) ⊎ (src + filesz ≤ dest)) where
  abbrev after : Mem
  after = memcpy dest src filesz m

  after_at : (x : ℕ) → after x ≡ copied dest src filesz m x
  after_at x = memcpy-copied dest src filesz m bytes file_apart x

  header_same : (x : ℕ) → ph ≤ x → x < ph + 32 → after x ≡ m x
  header_same x lo hi = ground (arith, after_at x)

  sizes_same : (p_filesz after ph ≡ p_filesz m ph) × (p_memsz after ph ≡ p_memsz m ph)
  unfolding p_filesz p_memsz
  sizes_same = (
    read32-eq m after (ph + 16) (λ x lo hi. header_same x (omega arith) (omega arith)),
    read32-eq m after (ph + 20) (λ x lo hi. header_same x (omega arith) (omega arith)),
  )

  -- The bytes behind the file part are filled if there are any.
  filled :
      (x : ℕ)
      → (if ltb filesz memsz then memset (dest + filesz) 0 (memsz - filesz) after else after) x
        ≡ image dest src filesz memsz m x
  filled x = elim (Bool-cases (ltb filesz memsz)) [
    | inl more ↦
        let g : memset (dest + filesz) 0 (memsz - filesz) after x
            ≡ image dest src filesz memsz m x =
          ground (arith, after_at x, memset_lem (dest + filesz) 0 (memsz - filesz) after x) in
        rw (more, g)
    | inr full ↦
        let g : after x ≡ image dest src filesz memsz m x = ground (arith, after_at x) in
        rw (full, g)
  ]

  -- A segment whose file part has `filesz` bytes and that takes `memsz` in all, no fewer, is loaded
  -- whole: its bytes of the file stand at `dest`, zeros behind them up to `memsz`, and nothing else
  -- changes. The place must fit the address space and lie apart from the segment's header, and it
  -- must not begin inside the file part.
  pub load_segment-eq-image :
      p_filesz m ph ≡ filesz
      → p_memsz m ph ≡ memsz
      → (x : ℕ) → load_segment dest src ph m x ≡ image dest src filesz memsz m x
  unfolding load_segment
  load_segment-eq-image f z x =
      let f' : p_filesz after ph ≡ filesz = sizes_same.0 ∙ f in
      let z' : p_memsz after ph ≡ memsz = sizes_same.1 ∙ z in
      let start : add32 dest filesz ≡ dest + filesz = omega arith in
      let rest : sub32 memsz filesz ≡ memsz - filesz = omega arith in
      let done = filled x in rw (f, f', z', start, rest, done)
