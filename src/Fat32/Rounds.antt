-- ===== src/Fat32/Rounds.antt =====
-- lib/fs/fat32.cpp: one round of the loop of getRootFile over the entries of the
-- directory.
use rainbow_os.Prelude.{
  ℕ, suc, ◌+◌, ◌*◌, ◌^◌, ◌≤◌, ◌<◌, ◌≡◌, refl, sym, ap, ◌∙◌, ◌↔◌, inl, inr, false, List, arith, ltb,
  ◌==◌, if◌then◌else◌, lt→ltb, length, ok,
}
use rainbow_os.Memory.{Mem}
use rainbow_os.Memory.Words.{read32-eq}
use rainbow_os.Str.{strcmp}
use rainbow_os.Str.Terminated.{IsString}
use rainbow_os.Str.Compare.{SameString, strcmp_lem}
use rainbow_os.Heap.Bump.{bump}
use rainbow_os.Heap.Blocks.{InReserved}
use rainbow_os.Heap.Safety.{InReserved-le}
use rainbow_os.Disk.{DiskRead}
use rainbow_os.Fat32.{Fat32, name_from_entry}
use rainbow_os.Fat32.Files.{fill3, num_entries, entries, load_file, find_file}
use rainbow_os.Fat32.Kinds.{
  Kind, name_length, name_length-lt, name_char, IsKind, IsKind-eq, name_char-eq, name_char-IsString,
}
use rainbow_os.Fat32.Entries.{Bumped, InBlocks, Grown, Grown-trans, name_from_entry-Named}

module _ (disk_read : DiskRead) (fuel heap : ℕ) (fs : Fat32) where
  -- One round of the loop, in terms of what its calls give.
  find_file_round :
      (rounds lfn_str i directory file result entry name r : ℕ) (m m' : Mem)
      → i < num_entries m directory
      → entries m directory + 32 * i ≡ entry
      → name_from_entry fuel heap lfn_str entry m ≡ ok (name, m')
      → strcmp fuel m' name file ≡ ok r
      → find_file disk_read fuel heap fs (suc rounds) lfn_str i directory file result m ≡ (
          if r == 0
          then load_file disk_read fuel heap fs result entry m'
          else find_file disk_read fuel heap fs rounds lfn_str (i + 1) directory file result m')
  unfolding find_file
  find_file_round rounds lfn_str i directory file result entry name r m m' lt at e c =
      rw (lt→ltb i (num_entries m directory) lt, at, e, c) refl

  pub find_file_end :
      (rounds lfn_str i directory file result : ℕ) (m : Mem)
      → ltb i (num_entries m directory) ≡ false
      → find_file disk_read fuel heap fs (suc rounds) lfn_str i directory file result m
        ≡ ok (result, fill3 result 1 0 0 m)
  unfolding find_file
  find_file_end rounds lfn_str i directory file result m h = rw h refl

module _ (disk_read : DiskRead) (fuel heap last : ℕ) (fs : Fat32)
    (lfn_str directory file result k n room : ℕ) (kinds : ℕ → Kind) (ss : List ℕ) (m : Mem) where
  abbrev pub entry_at : ℕ → ℕ
  entry_at i = entries m directory + 32 * i

  -- A directory of `n` entries of these kinds and the name of a file, in blocks of the heap or below it.
  pub record Searched : Type 0 where
    pub blocks : Bumped heap last ss room m
    pub high : last + 8 ≤ 2 ^ 32
    pub counted : num_entries m directory ≡ n
    pub directory_in : (x : ℕ) → directory ≤ x → x < directory + 12 → InBlocks heap ss room x
    pub entry_in :
        (i : ℕ)
        → i < n
        → (x : ℕ) → entry_at i ≤ x
        → x < entry_at i + 32
        → InReserved (bump ss room) heap x
    pub kind : (i : ℕ) → i < n → IsKind m (entry_at i) (kinds i)
    pub file_string : IsString m file k
    pub file_in : (x : ℕ) → file ≤ x → x ≤ file + k → InBlocks heap ss room x
    pub lfn_string : IsString m lfn_str 3
    pub lfn_in : (x : ℕ) → lfn_str ≤ x → x ≤ lfn_str + 3 → InBlocks heap ss room x
    pub compares : 13 < fuel

  -- The name of the entry is the name of the file.
  abbrev pub Matches : ℕ → Type 0
  Matches i =
      (name_length (kinds i) ≡ k)
      × ((j : ℕ) → j < k → name_char m lfn_str (entry_at i) (kinds i) j ≡ m (file + j))

  module _ (given : Searched) where
    -- Where the search has come to the entry `i`.
    abbrev pub At : ℕ → List ℕ → ℕ → Mem → Type 0
    At i ss' room' m' = Grown heap last i ss ss' room room' m m'

    pub same_directory :
        {i room' : ℕ} {ss' : List ℕ} {m' : Mem}
        → At i ss' room' m'
        → (num_entries m' directory ≡ n) × (entries m' directory ≡ entries m directory)
    unfolding num_entries entries
    same_directory {i} {room'} {ss'} {m'} g = (
      read32-eq m m' (directory + 4)
            (λ x lo hi. g.kept x (given.directory_in x (omega arith) (omega arith)))
          ∙ given.counted,
      read32-eq m m' (directory + 8)
          (λ x lo hi. g.kept x (given.directory_in x (omega arith) (omega arith))),
    )

    -- One round: the name of the entry stands on the heap, and the comparison with the file decides.
    abbrev pub Round : ℕ → ℕ → Mem → Type 0
    Round i rounds m1 =
        (r : ℕ) × (ss' : List ℕ) × (room' : ℕ) × (m' : Mem) × (find_file disk_read fuel heap fs
            (suc rounds) lfn_str i directory file result m1
          ≡ (if r == 0
              then load_file disk_read fuel heap fs result (entry_at i) m'
              else find_file disk_read fuel heap fs rounds lfn_str (i + 1) directory file result
                  m'))
        × ((r ≡ 0) ↔ Matches i)
        × At (i + 1) ss' room' m'

    -- The bytes of the entries stay in blocks of the heap, and they and the string "LFN" stay as they
    -- were.
    reserved_after :
        {i room' : ℕ} {ss' : List ℕ} {m' : Mem}
        → At i ss' room' m'
        → (x : ℕ) → InReserved (bump ss room) heap x
        → InReserved (bump ss' room') heap x
    reserved_after g x own = elim (g.blocks x (inr own)) [
      | inl below ↦ absurd (omega (arith, InReserved-le (bump ss room) heap x own))
      | inr still ↦ still
    ]

    file-IsString : {i room' : ℕ} {ss' : List ℕ} {m' : Mem} → At i ss' room' m' → IsString m' file k
    file-IsString g = record {
      chars = λ j h. ground (
        arith,
        g.kept (file + j) (given.file_in (file + j) (omega arith) (omega arith)),
        given.file_string.chars j h,
      );
      closed =
          g.kept (file + k) (given.file_in (file + k) (omega arith) (omega arith))
          ∙ given.file_string.closed;
    }

    SameString-Matches :
        {room' : ℕ} {ss' : List ℕ} (c i p : ℕ) (m' : Mem)
        → At c ss' room' m'
        → ((j : ℕ)
            → j ≤ name_length (kinds i)
            → m' (p + j) ≡ name_char m lfn_str (entry_at i) (kinds i) j)
        → SameString m' p (name_length (kinds i)) file k ↔ Matches i
    SameString-Matches c i p m' g char =
        let kept : (j : ℕ) → j ≤ k → m' (file + j) ≡ m (file + j) =
          λ j h. g.kept (file + j) (given.file_in (file + j) (omega arith) (omega arith)) in
        (
          λ all. (
            all.0,
            λ j h.
                sym (char j (omega (arith, all.0)))
                ∙ all.1 j (omega (arith, all.0))
                ∙ kept j (omega arith),
          ),
          λ all. (
            all.0,
            λ j h.
                char j (omega arith)
                ∙ all.1 j (omega (arith, all.0))
                ∙ sym (kept j (omega (arith, all.0))),
          ),
        )

    pub find_file-Round :
        (i rounds room1 : ℕ) (ss1 : List ℕ) (m1 : Mem)
        → At i ss1 room1 m1
        → i < n
        → 21 * (i + 1) ≤ room
        → length ss + i + 1 < fuel
        → Round i rounds m1
    find_file-Round i rounds room1 ss1 m1 g lt fits walks =
        let entry = entry_at i in
        let same : (x : ℕ) → entry ≤ x → x < entry + 32 → m1 x ≡ m x =
          λ x lo hi. g.kept x (inr (given.entry_in i lt x lo hi)) in
        let same_lfn : (x : ℕ) → lfn_str ≤ x → x ≤ lfn_str + 3 → m1 x ≡ m x =
          λ x lo hi. g.kept x (given.lfn_in x lo hi) in
        let is = given.kind i lt in
        let d = same_directory g in
        let (p, ss', room', m', e, g', char1) =
          name_from_entry-Named heap last room1 fuel entry ss1 m1 g.after given.high
            (omega (arith, g.left)) (omega (arith, g.count))
            (λ x lo hi. reserved_after g x (given.entry_in i lt x lo hi)) lfn_str
            (λ x lo hi. g.blocks x (given.lfn_in x lo hi)) (kinds i)
            (IsKind-eq m m1 lfn_str entry same same_lfn (kinds i) is) in
        let after = Grown-trans g g' in
        let char : (j : ℕ)
            → j ≤ name_length (kinds i)
            → m' (p + j) ≡ name_char m lfn_str entry (kinds i) j =
          λ j h. char1 j h ∙ name_char-eq m m1 lfn_str entry same same_lfn (kinds i) is j h in
        let name = name_char-IsString m m' lfn_str entry p (kinds i) is given.lfn_string char in
        let (r, c, decides) =
          strcmp_lem m' p (name_length (kinds i)) file k after.after.bytes name
            (file-IsString after) fuel
            (omega (arith, given.compares, name_length-lt (kinds i) m entry is)) in
        let matches = SameString-Matches (i + 1) i p m' after char in
        (
          r,
          ss',
          room',
          m',
          find_file_round disk_read fuel heap fs rounds lfn_str i directory file result entry p r m1
              m' (omega (arith, d.0)) (ap (λ (q : ℕ). q + 32 * i) d.1) e c,
          (λ z. matches.0 (decides.0 z), λ z. decides.1 (matches.1 z)),
          after,
        )
