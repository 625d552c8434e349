-- ===== src/OutStream/Screen.antt =====
-- What reaches the screen: a string in memory is printed as the literal of its characters, and printing
-- always ends and writes only the screen and the array in which numbers are printed.
use rainbow_os.Prelude.{
  ℕ, zero, suc, ◌+◌, ◌≤◌, ◌<◌, ◌≡◌, refl, ap, ◌∙◌, ◌⊎◌, List, [], ◌∷◌, arith, ok,
}
use rainbow_os.Memory.{Mem, IsBytes, SameOutside}
use rainbow_os.Terminal.{VgaColor, set_color}
use rainbow_os.Terminal.Cursor.{OnScreen, putchar-OnScreen}
use rainbow_os.Terminal.Putchar.{putchar-SameOutside}
use rainbow_os.Terminal.Bytes.{putchar-IsBytes, putchar-buffer}
use rainbow_os.OutStream.{
  OutStream, put, write_range, write_literal, Console, Writer, codes, text, ◌<<◌, recolor,
}

-- The terminal's buffer is where it should be, its cursor on the screen, the base one that xtoa takes,
-- and the memory one of bytes.
pub record Good (buffer : ℕ) (c : Console) : Type 0 where
  pub cursor : OnScreen c.0.back_end
  pub at_buffer : c.0.back_end.buffer ≡ buffer
  pub base_low : 2 ≤ c.0.base
  pub base_high : c.0.base ≤ 16
  pub bytes : IsBytes c.1

-- From `c` to `c'` the console stayed good and kept its base, and no byte outside the screen and the
-- array of 33 bytes at `stack` changed.
pub record Shows (buffer stack : ℕ) (c c' : Console) : Type 0 where
  pub good : Good buffer c'
  pub base_kept : c'.0.base ≡ c.0.base
  pub same :
      (x : ℕ) → (x < buffer) ⊎ (buffer + 4000 ≤ x) → (x < stack) ⊎ (stack + 33 ≤ x) → c'.1 x ≡ c.1 x

-- A writer that ends and shows.
abbrev pub Displays : ℕ → ℕ → Writer → Type 0
Displays buffer stack w =
    (c : Console) → Good buffer c → (c' : Console) × (w c ≡ ok c') × Shows buffer stack c c'

-- The `n` characters in the memory from `str` on.
abbrev pub chars : Mem → ℕ → ℕ → List ℕ
chars m str zero = []
chars m str (suc n) = m str ∷ chars m (str + 1) n

chars-eq :
    (n str : ℕ) (m m' : Mem)
    → ((x : ℕ) → str ≤ x → x < str + n → m' x ≡ m x)
    → chars m' str n ≡ chars m str n
chars-eq zero str m m' same = refl
chars-eq (suc n) str m m' same = rw (
  same str (omega arith) (omega arith),
  chars-eq n (str + 1) m m' (λ x lo hi. same x (omega arith) (omega arith)),
)

-- A good console with another memory of bytes.
pub Good-memory :
    (buffer : ℕ) (out : OutStream) (m m' : Mem)
    → Good buffer (out, m)
    → IsBytes m'
    → Good buffer (out, m')
Good-memory buffer out m m' g b = record {
  cursor = g.cursor;
  at_buffer = g.at_buffer;
  base_low = g.base_low;
  base_high = g.base_high;
  bytes = b;
}

put-SameOutside :
    (buffer ch : ℕ) (out : OutStream) (m : Mem)
    → Good buffer (out, m)
    → SameOutside buffer 4000 m (put ch out m).1
unfolding put
put-SameOutside buffer ch out m g x o =
    putchar-SameOutside ch out.back_end m g.cursor g.bytes x (omega (arith, g.at_buffer))

module _ (buffer stack : ℕ) where
  pub Shows-refl : (c : Console) → Good buffer c → Shows buffer stack c c
  Shows-refl c g = record { good = g; base_kept = refl; same = λ x o p. refl }

  pub Shows-trans :
      (a b c : Console) → Shows buffer stack a b → Shows buffer stack b c → Shows buffer stack a c
  Shows-trans a b c s t = record {
    good = t.good;
    base_kept = t.base_kept ∙ s.base_kept;
    same = λ x o p. t.same x o p ∙ s.same x o p;
  }

  put-Shows :
      (ch : ℕ) (out : OutStream) (m : Mem)
      → Good buffer (out, m)
      → Shows buffer stack (out, m) (put ch out m)
  unfolding put
  put-Shows ch out m g = record {
    good = record {
      cursor = putchar-OnScreen ch out.back_end m g.cursor;
      at_buffer = putchar-buffer ch out.back_end m ∙ g.at_buffer;
      base_low = g.base_low;
      base_high = g.base_high;
      bytes = putchar-IsBytes ch out.back_end m g.bytes;
    };
    base_kept = refl;
    same = λ x o p. put-SameOutside buffer ch out m g x o;
  }

  pub write_literal-Shows :
      (cs : List ℕ) (out : OutStream) (m : Mem)
      → Good buffer (out, m)
      → Shows buffer stack (out, m) (write_literal cs out m)
  unfolding write_literal
  write_literal-Shows [] out m g = Shows-refl (out, m) g
  write_literal-Shows (ch ∷ cs) out m g =
      let (out', m') = put ch out m in
      let first = put-Shows ch out m g in
      Shows-trans (out, m) (out', m') (write_literal cs out' m') first
        (write_literal-Shows cs out' m' first.good)

  -- A literal is shown.
  pub text-Displays : (s : Prim.Native.String.String) → Displays buffer stack (text s)
  unfolding text
  text-Displays s (out, m) g =
      (write_literal (codes s) out m, refl, write_literal-Shows (codes s) out m g)

  -- Two writers in a row show if each does.
  pub Displays-join :
      (v w : Writer)
      → Displays buffer stack v
      → Displays buffer stack w
      → Displays buffer stack (v << w)
  Displays-join v w f h c g =
      let (d, e, s) = f c g in
      let (d', e', s') = h d s.good in (d', rw e e', Shows-trans c d d' s s')

  -- A string away from the screen prints as the literal of its characters.
  pub write_range_literal :
      (n str : ℕ) (out : OutStream) (m : Mem)
      → Good buffer (out, m)
      → (str + n ≤ buffer) ⊎ (buffer + 4000 ≤ str)
      → write_range n str out m ≡ write_literal (chars m str n) out m
  unfolding write_range write_literal
  write_range_literal zero str out m g apart = refl
  write_range_literal (suc n) str out m g apart =
      let (out', m') = put (m str) out m in
      let shown = put-Shows (m str) out m g in
      write_range_literal n (str + 1) out' m' shown.good (omega arith)
      ∙ ap (λ (cs : List ℕ). write_literal cs out' m')
          (chars-eq n (str + 1) m m'
            (λ x lo hi. put-SameOutside buffer (m str) out m g x (omega arith)))

-- Recolouring keeps a console good and its memory.
pub recolor-Shows :
    (buffer stack : ℕ) (fg bg : VgaColor) (c : Console)
    → Good buffer c
    → Shows buffer stack c (recolor fg bg c)
unfolding recolor set_color
recolor-Shows buffer stack fg bg c g = record {
  good = record {
    cursor = record { row_in = g.cursor.row_in; column_in = g.cursor.column_in };
    at_buffer = g.at_buffer;
    base_low = g.base_low;
    base_high = g.base_high;
    bytes = g.bytes;
  };
  base_kept = refl;
  same = λ x o p. refl;
}
