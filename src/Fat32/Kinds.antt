-- ===== src/Fat32/Kinds.antt =====
-- lib/fs/fat32.cpp: what the entry of a directory is, and the name that nameFromEntry gives it.
use rainbow_os.Prelude.{ℕ, ◌+◌, ◌-◌, ◌≤◌, ◌<◌, ◌≡◌, ap, ◌∙◌, ◌≢◌, arith}
use rainbow_os.Memory.{Mem}
use rainbow_os.Str.Terminated.{IsString}
use rainbow_os.Fat32.{subdirectory, lfn}
use rainbow_os.Fat32.Layout.DirEntry
use rainbow_os.Fat32.Names.{NameLength, file_char, directory_char}

-- What an entry is: a file or a subdirectory with a name of this many characters, or a part of a
-- long name.
pub data Kind : Type 0 where
  file directory : ℕ → Kind
  long_name : Kind

-- The length of the string that nameFromEntry gives, and its characters.
abbrev pub name_length : Kind → ℕ
name_length (file n) = n + 4
name_length (directory n) = n
name_length long_name = 3

abbrev pub name_char : Mem → ℕ → ℕ → Kind → ℕ → ℕ
name_char m lfn_str entry (file n) j = file_char m entry n j
name_char m lfn_str entry (directory n) j = directory_char m entry n j
name_char m lfn_str entry long_name j = m (lfn_str + j)

-- The name and the extension have no NUL.
abbrev Printed : Mem → ℕ → Type 0
Printed m entry = (j : ℕ) → j < 11 → m (entry + j) ≢ 0

abbrev pub IsKind : Mem → ℕ → Kind → Type 0
IsKind m entry (file n) =
    (DirEntry.attributes m entry ≢ lfn)
    × (DirEntry.attributes m entry ≢ subdirectory)
    × NameLength m entry n
    × Printed m entry
IsKind m entry (directory n) =
    (DirEntry.attributes m entry ≡ subdirectory) × NameLength m entry n × Printed m entry
IsKind m entry long_name = DirEntry.attributes m entry ≡ lfn

-- The name is at most twelve characters long.
pub name_length-lt :
    (kind : Kind) (m : Mem) (entry : ℕ) → IsKind m entry kind → name_length kind < 13
name_length-lt (file n) m entry is = omega (arith, is.2.most)
name_length-lt (directory n) m entry is = omega (arith, is.1.most)
name_length-lt long_name m entry is = omega arith

-- The string that nameFromEntry gives is closed by its NUL.
pub name_char-IsString :
    (m m' : Mem) (lfn_str entry name : ℕ) (kind : Kind)
    → IsKind m entry kind
    → IsString m lfn_str 3
    → ((j : ℕ) → j ≤ name_length kind → m' (name + j) ≡ name_char m lfn_str entry kind j)
    → IsString m' name (name_length kind)
name_char-IsString m m' lfn_str entry name (file n) is l char = record {
  chars = λ j h.
      let below : n ≤ 8 = is.2.most in
      let ext : entry + 8 + (j - n - 1) ≡ entry + (8 + (j - n - 1)) = omega arith in
      ground (arith, char j (omega arith), is.3 j, is.3 (8 + (j - n - 1)), ap m ext);
  closed = ground (arith, char (n + 4) (omega arith));
}
name_char-IsString m m' lfn_str entry name (directory n) is l char = record {
  chars = λ j h. ground (arith, char j (omega arith), is.2 j, is.1.most);
  closed = ground (arith, char n (omega arith));
}
name_char-IsString m m' lfn_str entry name long_name is l char = record {
  chars = λ j h. ground (arith, char j (omega arith), l.chars j h);
  closed = char 3 (omega arith) ∙ l.closed;
}

-- In a memory with the same bytes the entry is the same.
module _ (m m' : Mem) (lfn_str entry : ℕ) (same : (x : ℕ) → entry ≤ x → x < entry + 32 → m' x ≡ m x)
    (same_lfn : (x : ℕ) → lfn_str ≤ x → x ≤ lfn_str + 3 → m' x ≡ m x) where
  pub same_attributes : DirEntry.attributes m' entry ≡ DirEntry.attributes m entry
  unfolding DirEntry.attributes
  same_attributes = same (entry + 11) (omega arith) (omega arith)

  same_length : (n : ℕ) → NameLength m entry n → NameLength m' entry n
  same_length n l = record {
    most = l.most;
    chars =
        λ j h. ground (arith, same (entry + j) (omega arith) (omega (arith, l.most)), l.chars j h);
    space = λ h. same (entry + n) (omega arith) (omega arith) ∙ l.space h;
  }

  same_print : Printed m entry → Printed m' entry
  same_print p j h = ground (arith, same (entry + j) (omega arith) (omega arith), p j h)

  pub IsKind-eq : (kind : Kind) → IsKind m entry kind → IsKind m' entry kind
  IsKind-eq (file n) is = (
    ground (arith, same_attributes, is.0),
    ground (arith, same_attributes, is.1),
    same_length n is.2,
    same_print is.3,
  )
  IsKind-eq (directory n) is = (same_attributes ∙ is.0, same_length n is.1, same_print is.2)
  IsKind-eq long_name is = same_attributes ∙ is

  pub name_char-eq :
      (kind : Kind)
      → IsKind m entry kind
      → (j : ℕ) → j ≤ name_length kind
      → name_char m' lfn_str entry kind j ≡ name_char m lfn_str entry kind j
  name_char-eq (file n) is j h =
      ground (arith, is.2.most, same (entry + j), same (entry + 8 + (j - n - 1)))
  name_char-eq (directory n) is j h = ground (arith, is.1.most, same (entry + j))
  name_char-eq long_name is j h = same_lfn (lfn_str + j) (omega arith) (omega arith)
