-- ===== src/Str/Tests.antt =====
-- Two strings in the memory: "ab" at 16 and "ad" at 32.
use rainbow_os.Prelude.{◌≡◌, refl, ◌||◌, arith, ◌==◌, if◌then◌else◌}
use rainbow_os.Memory.{Mem, IsBytes}
use rainbow_os.Str.{memmove, strcmp}
use rainbow_os.Str.Copy.{copied, memmove-copied}
use rainbow_os.Str.Terminated.{IsString}
use rainbow_os.Str.Compare.{Decides, strcmp_lem}

abbrev strings : Mem
strings x =
    if x == 16 || x == 32 then b'a' else if x == 17 then b'b' else if x == 33 then b'd' else 0

strings-IsBytes : IsBytes strings
strings-IsBytes x = ground arith

ab-IsString : IsString strings 16 2
ab-IsString = record { chars = λ i h. ground arith; closed = refl }

ad-IsString : IsString strings 32 2
ad-IsString = record { chars = λ i h. ground arith; closed = refl }

memmove-copied_example : memmove 17 16 2 strings 18 ≡ copied 17 16 2 strings 18
memmove-copied_example = memmove-copied 17 16 2 strings strings-IsBytes 18

strcmp_lem_example : Decides strings 16 2 32 2 (strcmp 3 strings 16 32)
strcmp_lem_example =
    strcmp_lem strings 16 2 32 2 strings-IsBytes ab-IsString ad-IsString 3 (omega arith)
