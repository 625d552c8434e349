-- ===== src/Fat32/Entries.antt =====
-- lib/fs/fat32.cpp: nameFromEntry on a heap from which nothing was freed.
use rainbow_os.Prelude.{
  ℕ, ◌+◌, ◌-◌, ◌*◌, ◌^◌, ◌≤◌, ◌<◌, ◌≡◌, refl, ap, ◌∙◌, ◌≢◌, ◌⊎◌, inl, inr, false, List, [], ◌∷◌,
  ◌++◌, arith, ◌==◌, eq→==, length, length-append, Outcome, ok,
}
use rainbow_os.Memory.{Mem, IsBytes, SameOutside}
use rainbow_os.Heap.{kalloc}
use rainbow_os.Heap.Blocks.{Chain, InReserved}
use rainbow_os.Heap.Bump.{
  bump, free_at, free_at-le, free_at-Chain, kalloc-bump, Chain-bump, bump-kept, InReserved-bump,
}
use rainbow_os.Fat32.{lfn, write_name, name_from_entry}
use rainbow_os.Fat32.Layout.DirEntry
use rainbow_os.Fat32.Names.{file_char, with_chars, write_name-file_char, write_name-directory_char}
use rainbow_os.Fat32.Kinds.{
  Kind, file, directory, long_name, name_length, name_length-lt, name_char, IsKind, IsKind-eq,
  name_char-eq, same_attributes,
}

-- Blocks of these sizes on the heap, with this room behind them. `InBlocks` is a byte below the heap
-- or in a block.
pub record Bumped (heap last : ℕ) (ss : List ℕ) (room : ℕ) (m : Mem) : Type 0 where
  pub chain : Chain m last heap (bump ss room)
  pub bytes : IsBytes m

abbrev pub InBlocks : ℕ → List ℕ → ℕ → ℕ → Type 0
InBlocks heap ss room x = (x < heap) ⊎ InReserved (bump ss room) heap x

-- From `(ss, room, m)` on at most `c` names were put on the heap, and the bytes before are kept.
pub record Grown (heap last c : ℕ) (ss ss' : List ℕ) (room room' : ℕ) (m m' : Mem) : Type 0 where
  pub after : Bumped heap last ss' room' m'
  pub kept : (x : ℕ) → InBlocks heap ss room x → m' x ≡ m x
  pub blocks : (x : ℕ) → InBlocks heap ss room x → InBlocks heap ss' room' x
  pub count : length ss' ≤ length ss + c
  pub left : room ≤ room' + 21 * c
  pub shrinks : room' ≤ room

pub Grown-refl :
    (heap last : ℕ) (ss : List ℕ) (room : ℕ) (m : Mem)
    → Bumped heap last ss room m
    → Grown heap last 0 ss ss room room m m
Grown-refl heap last ss room m b = record {
  after = b;
  kept = λ x i. refl;
  blocks = λ x i. i;
  count = omega arith;
  left = omega arith;
  shrinks = omega arith;
}

pub Grown-trans :
    {heap last c d : ℕ} {ss ss' ss'' : List ℕ} {room room' room'' : ℕ} {m m' m'' : Mem}
    → Grown heap last c ss ss' room room' m m'
    → Grown heap last d ss' ss'' room' room'' m' m''
    → Grown heap last (c + d) ss ss'' room room'' m m''
Grown-trans g h = record {
  after = h.after;
  kept = λ x i. h.kept x (g.blocks x i) ∙ g.kept x i;
  blocks = λ x i. h.blocks x (g.blocks x i);
  count = omega (arith, g.count, h.count);
  left = omega (arith, g.left, h.left);
  shrinks = omega (arith, g.shrinks, h.shrinks);
}

name_from_entry_long :
    (fuel heap lfn_str entry : ℕ) (m : Mem)
    → DirEntry.attributes m entry ≡ lfn
    → name_from_entry fuel heap lfn_str entry m ≡ ok (lfn_str, m)
unfolding name_from_entry
name_from_entry_long fuel heap lfn_str entry m h = rw (eq→== _ _ h) refl

name_from_entry_short :
    (fuel heap lfn_str entry name : ℕ) (m m1 : Mem)
    → DirEntry.attributes m entry ≢ lfn
    → kalloc fuel heap 13 m ≡ ok (name, m1)
    → name_from_entry fuel heap lfn_str entry m ≡ ok (name, write_name entry name m1)
unfolding name_from_entry
name_from_entry_short fuel heap lfn_str entry name m m1 h e =
    let short : (DirEntry.attributes m entry == lfn) ≡ false = ground arith in rw (short, e) refl

-- The name of an entry stands in the memory, with a NUL behind it.
abbrev pub Holds : Mem → ℕ → ℕ → (ℕ → ℕ) → Type 0
Holds m name len char = (j : ℕ) → j ≤ len → m (name + j) ≡ char j

module _ (heap last room fuel entry : ℕ) (ss : List ℕ) (m : Mem)
    (given : Bumped heap last ss room m) (high : last + 8 ≤ 2 ^ 32) (fits : 13 + 8 ≤ room)
    (walks : length ss + 1 < fuel)
    (entry_in : (x : ℕ) → entry ≤ x → x < entry + 32 → InReserved (bump ss room) heap x) where
  abbrev name : ℕ
  name = free_at ss heap + 8

  -- A string of at most 13 bytes in the block that is allocated for it.
  short_name :
      (char : ℕ → ℕ) (len : ℕ) (m1 m2 : Mem)
      → Chain m1 last heap (bump (ss ++ 13 ∷ []) (room - 13 - 8))
      → IsBytes m1
      → ((x : ℕ) → InBlocks heap ss room x → m1 x ≡ m x)
      → len < 13
      → ((j : ℕ) → char j < 2 ^ 8)
      → ((x : ℕ) → m2 x ≡ with_chars char name (len + 1) m1 x)
      → Grown heap last 1 ss (ss ++ 13 ∷ []) room (room - 13 - 8) m m2 × Holds m2 name len char
  short_name char len m1 m2 c1 b1 k1 le small w =
      let top = free_at-Chain ss room heap last m given.chain in
      let same : SameOutside name 13 m1 m2 = λ x o. ground (arith, w x) in
      (
        record {
          after = record {
            chain =
                Chain-bump ss (room - 13 - 8) last heap 13 name 13 m1 m2 same (omega arith)
                  (omega arith) c1;
            bytes = λ x. ground (arith, w x, b1 x, small (x - name));
          };
          kept = λ x i. elim i [
            | inl below ↦ same x (inl (omega (arith, free_at-le ss heap))) ∙ k1 x (inl below)
            | inr own ↦
                same x (inl (omega (arith, InReserved-bump ss room heap x own))) ∙ k1 x (inr own)
          ];
          blocks = λ x i. elim i [
            | inl below ↦ inl below
            | inr own ↦ inr (bump-kept ss room (room - 13 - 8) heap 13 x own)
          ];
          count = omega (arith, length-append ss (13 ∷ []));
          left = omega arith;
          shrinks = omega arith;
        },
        λ j h.
            let off : name + j - name ≡ j = omega arith in
            ground (arith, w (name + j), ap char off),
      )

  module _ (lfn_str : ℕ)
      (lfn_in : (x : ℕ) → lfn_str ≤ x → x ≤ lfn_str + 3 → InBlocks heap ss room x) where
    abbrev Named : Kind → Outcome (ℕ × Mem) → Type 0
    Named kind o =
        (p : ℕ) × (ss' : List ℕ) × (room' : ℕ) × (m' : Mem) × (o ≡ ok (p, m'))
        × Grown heap last 1 ss ss' room room' m m'
        × Holds m' p (name_length kind) (name_char m lfn_str entry kind)

    name_written :
        (kind : Kind) (m1 : Mem)
        → IsBytes m1
        → DirEntry.attributes m1 entry ≢ lfn
        → IsKind m1 entry kind
        → (x : ℕ)
        → write_name entry name m1 x
          ≡ with_chars (name_char m1 lfn_str entry kind) name (name_length kind + 1) m1 x
    name_written (file n) m1 b short is x =
        write_name-file_char m1 entry name n b
          (inr (
            omega (
              arith,
              InReserved-bump ss room heap (entry + 31)
                  (entry_in (entry + 31) (omega arith) (omega arith)),
            )))
          is.2 is.1 x
        ∙ ap (λ (q : ℕ). with_chars (file_char m1 entry n) name q m1 x) (omega arith)
    name_written (directory n) m1 b short is x =
        write_name-directory_char m1 entry name n b
          (inr (
            omega (
              arith,
              InReserved-bump ss room heap (entry + 31)
                  (entry_in (entry + 31) (omega arith) (omega arith)),
            )))
          is.1 is.0 x
    name_written long_name m1 b short is x = absurd (short is)

    name_char-lt :
        (kind : Kind) (m1 : Mem) → IsBytes m1 → (j : ℕ) → name_char m1 lfn_str entry kind j < 2 ^ 8
    name_char-lt (file n) m1 b j = ground (arith, b (entry + j), b (entry + 8 + (j - n - 1)))
    name_char-lt (directory n) m1 b j = ground (arith, b (entry + j))
    name_char-lt long_name m1 b j = b (lfn_str + j)

    allocated_name :
        (kind : Kind)
        → DirEntry.attributes m entry ≢ lfn
        → IsKind m entry kind
        → Named kind (name_from_entry fuel heap lfn_str entry m)
    allocated_name kind short is =
        let (m1, e1, c1, b1, k1) =
          kalloc-bump ss room fuel heap 13 last m given.chain given.bytes fits walks in
        let same : (x : ℕ) → entry ≤ x → x < entry + 32 → m1 x ≡ m x =
          λ x lo hi. k1 x (inr (entry_in x lo hi)) in
        let same_lfn : (x : ℕ) → lfn_str ≤ x → x ≤ lfn_str + 3 → m1 x ≡ m x =
          λ x lo hi. k1 x (lfn_in x lo hi) in
        let is1 = IsKind-eq m m1 lfn_str entry same same_lfn kind is in
        let short1 : DirEntry.attributes m1 entry ≢ lfn =
          ground (arith, same_attributes m m1 lfn_str entry same same_lfn, short) in
        let (g, char) =
          short_name (name_char m1 lfn_str entry kind) (name_length kind) m1
            (write_name entry name m1) c1 b1 k1 (name_length-lt kind m1 entry is1)
            (name_char-lt kind m1 b1) (name_written kind m1 b1 short1 is1) in
        (
          name,
          ss ++ 13 ∷ [],
          room - 13 - 8,
          write_name entry name m1,
          name_from_entry_short fuel heap lfn_str entry name m m1 short e1,
          g,
          λ j h. char j h ∙ name_char-eq m m1 lfn_str entry same same_lfn kind is j h,
        )

    -- nameFromEntry gives a pointer to the name of the entry, and a heap with at most one block more.
    pub name_from_entry-Named :
        (kind : Kind) → IsKind m entry kind → Named kind (name_from_entry fuel heap lfn_str entry m)
    name_from_entry-Named (file n) is = allocated_name (file n) is.0 is
    name_from_entry-Named (directory n) is = allocated_name (directory n) (omega (arith, is.0)) is
    name_from_entry-Named long_name is =
        let g = Grown-refl heap last ss room m given in
        (
          lfn_str,
          ss,
          room,
          m,
          name_from_entry_long fuel heap lfn_str entry m is,
          record {
            after = given;
            kept = g.kept;
            blocks = g.blocks;
            count = omega arith;
            left = omega arith;
            shrinks = omega arith;
          },
          λ j h. refl,
        )
