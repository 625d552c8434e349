-- ===== src/OutStream.antt =====
-- include/klib/io.hpp: io::_outstream on the framebuffer terminal. The array in which a number is
-- printed lies on the stack; its address is a parameter. A string literal is the list of its
-- characters. Numbers are of unsigned types where nothing else is said. `fuel` bounds the printing and
-- the measuring of a string. The counts of characters that the methods return are left out.
pub mod Screen
pub mod Number
mod Tests
use Prim.Native.Char.{code}
use Prim.Native.String.{String}
use rainbow_os.Prelude.{
  Bool, ℕ, zero, suc, ◌+◌, false, ◌||◌, List, [], ◌∷◌, ltb, if◌then◌else◌, Outcome, ok, ◌>>=◌,
}
use rainbow_os.Memory.{Mem}
use rainbow_os.Str.{strlen}
use rainbow_os.Xtoa.{xtoa}
use rainbow_os.Terminal.{VgaColor, set_color, Terminal, clear, putchar}

-- `_backEnd`, by value, and `_base`
pub record OutStream : Type 0 where
  pub back_end : Terminal
  pub base : ℕ

unfoldable pub init : Terminal → OutStream
init terminal = record { back_end = terminal; base = 10 }

unfoldable pub clear_stream : OutStream → Mem → Mem
clear_stream out m = clear out.back_end m

-- `_backEnd->putchar(c)`
unfoldable pub put : ℕ → OutStream → Mem → OutStream × Mem
put c out m = let (_, t, m') = putchar c out.back_end m in (record out { back_end = t }, m')

-- writeString with a size: the loop, with the rounds left
unfoldable pub write_range : ℕ → ℕ → OutStream → Mem → OutStream × Mem
write_range zero str out m = (out, m)
write_range (suc n) str out m =
    let (out', m') = put (m str) out m in write_range n (str + 1) out' m'

-- writeString of a string: the size is measured once, before the loop
unfoldable pub write_string : ℕ → ℕ → OutStream → Mem → Outcome (OutStream × Mem)
write_string fuel str out m = strlen fuel m str >>= λ size. ok (write_range size str out m)

-- operator<< of a literal
unfoldable pub write_literal : List ℕ → OutStream → Mem → OutStream × Mem
write_literal [] out m = (out, m)
write_literal (c ∷ cs) out m = let (out', m') = put c out m in write_literal cs out' m'

-- writeNum, and operator<< of a number
unfoldable pub write_num : ℕ → ℕ → ℕ → OutStream → Mem → Outcome (OutStream × Mem)
write_num fuel stack num out m =
    xtoa fuel false num stack out.base m >>= λ (_, m'). write_string fuel stack out m'

-- writeHex of a number and writeInt of the integer with this sign and magnitude
unfoldable pub write_hex : ℕ → ℕ → ℕ → OutStream → Mem → Outcome (OutStream × Mem)
write_hex fuel stack num out m =
    xtoa fuel false num stack 16 m >>= λ (_, m'). write_string fuel stack out m'

unfoldable pub write_int : ℕ → ℕ → Bool → ℕ → OutStream → Mem → Outcome (OutStream × Mem)
write_int fuel stack negative magnitude out m =
    xtoa fuel negative magnitude stack 10 m >>= λ (_, m'). write_string fuel stack out m'

unfoldable pub hex : OutStream → OutStream
hex out = record out { base = 16 }

unfoldable pub dec : OutStream → OutStream
dec out = record out { base = 10 }

-- base, which keeps its own base if the new one is not from 2 to 16
unfoldable pub set_base : ℕ → OutStream → OutStream
set_base num out = if ltb num 2 || ltb 16 num then out else record out { base = num }

-- A chain `out << a << b` acts on the stream and the memory.
abbrev pub Console : Type 0
Console = OutStream × Mem

abbrev pub Writer : Type 0
Writer = Console → Outcome Console

-- The characters of a literal.
abbrev pub codes : String → List ℕ
codes String.[] = []
codes (String.◌∷◌ c s) = code c ∷ codes s

unfoldable pub text : String → Writer
text s (out, m) = ok (write_literal (codes s) out m)

-- The most rounds that a 32-bit number takes in any base, and one more.
abbrev pub num_fuel : ℕ
num_fuel = 33

unfoldable pub num : ℕ → ℕ → Writer
num stack n (out, m) = write_num num_fuel stack n out m

infixl 5 ◌<<◌
abbrev pub ◌<<◌ : Writer → Writer → Writer
◌<<◌ first second console = first console >>= second

-- setColor of the terminal behind the stream
unfoldable pub recolor : VgaColor → VgaColor → Console → Console
recolor fg bg (out, m) = (record out { back_end = set_color fg bg out.back_end }, m)
