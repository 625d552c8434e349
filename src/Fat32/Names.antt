-- ===== src/Fat32/Names.antt =====
-- The name that nameFromEntry writes for a directory entry.
use rainbow_os.Prelude.{
  refl, false, true, eq→==, ℕ, zero, suc, ◌+◌, ◌-◌, ◌^◌, ◌≤◌, ◌<◌, ◌≡◌, sym, ap, subst, ◌∙◌, ◌≢◌,
  ◌⊎◌, arith, ltb, ◌==◌, if◌then◌else◌,
}
use rainbow_os.Memory.{Mem, IsBytes, inside, write8}
use native.Mathlib.Decide.{dec_lt}
use rainbow_os.Fat32.Layout.DirEntry
use rainbow_os.Fat32.{subdirectory, write_name, copy_name, copy_extension}

-- The entry's name is `n` characters long: no space stands before, and one behind unless it takes
-- all eight.
pub record NameLength (m : Mem) (entry n : ℕ) : Type 0 where
  pub most : n ≤ 8
  pub chars : (j : ℕ) → j < n → m (entry + j) ≢ b' '
  pub space : n < 8 → m (entry + n) ≡ b' '

-- The thirteen bytes of the string lie apart from the entry.
abbrev pub Apart : ℕ → ℕ → Type 0
Apart entry str = (str + 13 ≤ entry) ⊎ (entry + 32 ≤ str)

-- The characters of the name of a file: the name, a dot, the extension and a NUL.
abbrev pub file_char : Mem → ℕ → ℕ → ℕ → ℕ
file_char m entry n j =
    if ltb j n
    then m (entry + j)
    else if j == n
    then b'.'
    else if ltb j (n + 4)
    then m (entry + 8 + (j - n - 1))
    else 0

-- The characters of the name of a subdirectory: the name and a NUL.
abbrev pub directory_char : Mem → ℕ → ℕ → ℕ → ℕ
directory_char m entry n j = if ltb j n then m (entry + j) else 0

-- `m` with the first `k` of the given characters at `str`
abbrev pub with_chars : (ℕ → ℕ) → ℕ → ℕ → Mem → Mem
with_chars char str k m x = if inside str k x then char (x - str) else m x

module _ (m0 : Mem) (bytes : IsBytes m0) (entry str n : ℕ) (apart : Apart entry str)
    (named : NameLength m0 entry n) (char : ℕ → ℕ) where
  abbrev Written : ℕ → Mem → Type 0
  Written k m = (x : ℕ) → m x ≡ with_chars char str k m0 x

  add_char :
      (k v : ℕ) (m : Mem)
      → Written k m
      → v < 2 ^ 8
      → v ≡ char k
      → Written (k + 1) (write8 m (str + k) v)
  unfolding write8
  add_char k v m w small e x =
      let here : x ≡ str + k → char (x - str) ≡ char k = λ p. ap char (omega arith) in
      elim (dec_lt x (str + k)) [
        | yes lt ↦ ground (arith, w x)
        | no ge ↦ elim (dec_lt (str + k) x) [
          | yes gt ↦ ground (arith, w x)
          | no le ↦ ground (arith, here (omega arith))
        ]
      ]

  entry_same : (k j : ℕ) (m : Mem) → Written k m → k ≤ 13 → j < 32 → m (entry + j) ≡ m0 (entry + j)
  entry_same k j m w hk hj = ground (arith, w (entry + j), apart)

  copy_name-Written :
      (r i : ℕ) (m : Mem)
      → ((j : ℕ) → j < n → char j ≡ m0 (entry + j))
      → Written i m
      → i ≤ n
      → i + r ≡ 8
      → let (i', m') = copy_name r i entry str m in (i' ≡ n) × Written n m'
  unfolding copy_name DirEntry.file_name
  copy_name-Written zero i m c w le e =
      let same : i ≡ n = omega (arith, named.most) in (same, subst (λ (k : ℕ). Written k m) same w)
  copy_name-Written (suc r) i m c w le e =
      let read = entry_same i i m w (omega arith) (omega arith) in
      elim (dec_lt i n) [
        | yes lt ↦
            let stays : (m (entry + i) == b' ') ≡ false = ground (arith, read, named.chars i lt) in
            let next =
              copy_name-Written r (i + 1) (write8 m (str + i) (m (entry + i))) c
                (add_char i (m (entry + i)) m w (omega (arith, read, bytes (entry + i)))
                  (read ∙ sym (c i lt)))
                (omega arith) (omega arith) in
            rw stays next
        | no ge ↦
            let same : i ≡ n = omega arith in
            let stops : (m (entry + i) == b' ') ≡ true =
              eq→== _ _ (read ∙ ap (λ (q : ℕ). m0 (entry + q)) same ∙ named.space (omega arith)) in
            rw stops (same, subst (λ (k : ℕ). Written k m) same w)
      ]

  copy_extension-Written :
      (r j i : ℕ) (m : Mem)
      → ((k : ℕ) → k < 3 → char (n + 1 + k) ≡ m0 (entry + 8 + k))
      → Written i m
      → i ≡ n + 1 + j
      → j + r ≡ 3
      → Written (n + 4) (copy_extension r j i entry str m)
  unfolding copy_extension DirEntry.file_extension
  copy_extension-Written zero j i m c w at e = subst (λ (k : ℕ). Written k m) (omega arith) w
  copy_extension-Written (suc r) j i m c w at e =
      let at_byte : entry + (8 + j) ≡ entry + 8 + j = omega arith in
      let read : m (entry + 8 + j) ≡ m0 (entry + 8 + j) =
        subst (λ (q : ℕ). m q ≡ m0 q) at_byte
          (entry_same i (8 + j) m w (omega (arith, named.most)) (omega arith)) in
      copy_extension-Written r (j + 1) (i + 1) (write8 m (str + i) (m (entry + 8 + j))) c
        (add_char i (m (entry + 8 + j)) m w (omega (arith, read, bytes (entry + 8 + j)))
          (read ∙ sym (c j (omega arith)) ∙ ap char (omega arith)))
        (omega arith) (omega arith)

-- nameFromEntry of an entry that is no subdirectory writes the name without its padding, a dot,
-- the three characters of the extension and a NUL at `str`, and nothing else. The entry holds bytes,
-- and the thirteen bytes at `str` lie apart from it.
pub write_name-file_char :
    (m : Mem) (entry str n : ℕ)
    → IsBytes m
    → Apart entry str
    → NameLength m entry n
    → DirEntry.attributes m entry ≢ subdirectory
    → (x : ℕ) → write_name entry str m x ≡ with_chars (file_char m entry n) str (n + 5) m x
unfolding write_name DirEntry.attributes
write_name-file_char m entry str n b apart named file x =
    let char = file_char m entry n in
    let (length_is, w) =
      copy_name-Written m b entry str n apart named char 8 0 m (λ j lt. ground arith)
        (λ y. ground arith) (omega arith) refl in
    let m1 = (copy_name 8 0 entry str m).1 in
    let kind : (m1 (entry + 11) == subdirectory) ≡ false = ground (
      arith,
      entry_same m b entry str n apart named char n 11 m1 w (omega (arith, named.most))
          (omega arith),
      file,
    ) in
    let dot = add_char m b entry str n apart named char n b'.' m1 w (omega arith) (ground arith) in
    let extended =
      copy_extension-Written m b entry str n apart named char 3 0 (n + 1) (write8 m1 (str + n) b'.')
        (λ k lt.
          let off : n + 1 + k - n - 1 ≡ k = omega arith in
          ground (arith, ap (λ (q : ℕ). m (entry + 8 + q)) off))
        dot (omega arith) refl in
    let closed =
      add_char m b entry str n apart named char (n + 4) 0 _ extended (omega arith) (ground arith) in
    rw (length_is, kind)
      (ap
          (λ (q : ℕ).
            write8 (copy_extension 3 0 (n + 1) entry str (write8 m1 (str + n) b'.')) q 0 x)
          (omega arith)
        ∙ closed x
        ∙ ap (λ (q : ℕ). with_chars char str q m x) (omega arith))

-- nameFromEntry of a subdirectory writes the name without its padding and a NUL at `str`, and
-- nothing else.
pub write_name-directory_char :
    (m : Mem) (entry str n : ℕ)
    → IsBytes m
    → Apart entry str
    → NameLength m entry n
    → DirEntry.attributes m entry ≡ subdirectory
    → (x : ℕ) → write_name entry str m x ≡ with_chars (directory_char m entry n) str (n + 1) m x
unfolding write_name DirEntry.attributes
write_name-directory_char m entry str n b apart named directory x =
    let char = directory_char m entry n in
    let (length_is, w) =
      copy_name-Written m b entry str n apart named char 8 0 m (λ j lt. ground arith)
        (λ y. ground arith) (omega arith) refl in
    let m1 = (copy_name 8 0 entry str m).1 in
    let kind : (m1 (entry + 11) == subdirectory) ≡ true = eq→== _ _ (
      entry_same m b entry str n apart named char n 11 m1 w (omega (arith, named.most))
        (omega arith)
      ∙ directory) in
    let closed = add_char m b entry str n apart named char n 0 m1 w (omega arith) (ground arith) in
    rw (length_is, kind) (closed x)
