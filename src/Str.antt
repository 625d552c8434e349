-- ===== src/Str.antt =====
-- lib/stdlibC/string.c: the string and memory functions of the kernel library, on the flat memory.
-- A pointer is an address and `dst[i]` is the cell at `dst + i`. The functions that return `dstptr`
-- or `dest` return their own argument, so only the memory is returned here.
-- A `for` loop recurs on the rounds left. The loops that look for a NUL run on fuel.
pub mod Copy
pub mod Compare
pub mod Terminated
mod Tests
use rainbow_os.Prelude.{
  ℕ, zero, suc, ◌+◌, ◌-◌, ◌^◌, ◌&&◌, not, ltb, ◌==◌, if◌then◌else◌, sub32, Outcome, ok, out_of_fuel,
}
use rainbow_os.Memory.{Mem, write8}

-- `while (str[len]) len++;`
strlen_loop : ℕ → Mem → ℕ → ℕ → Outcome ℕ
strlen_loop zero m str len = out_of_fuel
strlen_loop (suc fuel) m str len =
    let rest = strlen_loop fuel m str (len + 1) in if m (str + len) == 0 then ok len else rest

unfoldable pub strlen : ℕ → Mem → ℕ → Outcome ℕ
unfolding strlen_loop
strlen fuel m str = strlen_loop fuel m str 0

-- `for (size_t i = 0; i < size; i++) dst[i] = src[i];`, with the rounds left and `i`
unfoldable pub copy_up : ℕ → ℕ → ℕ → ℕ → Mem → Mem
copy_up zero i dst src m = m
copy_up (suc n) i dst src m = copy_up n (i + 1) dst src (write8 m (dst + i) (m (src + i)))

-- `for (size_t i = size; i != 0; i--) dst[i-1] = src[i-1];`
copy_down : ℕ → ℕ → ℕ → Mem → Mem
copy_down zero dst src m = m
copy_down (suc i) dst src m = copy_down i dst src (write8 m (dst + i) (m (src + i)))

unfoldable pub memcpy : ℕ → ℕ → ℕ → Mem → Mem
unfolding copy_up
memcpy dst src size m = copy_up size 0 dst src m

unfoldable pub memmove : ℕ → ℕ → ℕ → Mem → Mem
unfolding copy_up copy_down
memmove dst src size m = if ltb dst src then copy_up size 0 dst src m else copy_down size dst src m

fill : ℕ → ℕ → ℕ → ℕ → Mem → Mem
fill zero i buf value m = m
fill (suc n) i buf value m = fill n (i + 1) buf value (write8 m (buf + i) value)

unfoldable pub memset : ℕ → ℕ → ℕ → Mem → Mem
unfolding fill
memset buf value size m = fill size 0 buf value m

-- The `int` results of the comparisons, as the bit patterns of the type.
abbrev pub minus_one : ℕ
minus_one = 2 ^ 32 - 1

compare_bytes : ℕ → ℕ → Mem → ℕ → ℕ → ℕ
compare_bytes zero i m a b = 0
compare_bytes (suc n) i m a b =
    let rest = compare_bytes n (i + 1) m a b in
    if ltb (m (a + i)) (m (b + i))
    then minus_one
    else if ltb (m (b + i)) (m (a + i))
    then 1
    else rest

unfoldable pub memcmp : Mem → ℕ → ℕ → ℕ → ℕ
unfolding compare_bytes
memcmp m ptr1 ptr2 size = compare_bytes size 0 m ptr1 ptr2

-- A `char` is signed on the target: its promotion to `int`, as a bit pattern.
abbrev pub sign_extend : ℕ → ℕ
sign_extend c = if ltb c 128 then c else c + (2 ^ 32 - 2 ^ 8)

strcmp_loop : ℕ → ℕ → Mem → ℕ → ℕ → Outcome ℕ
strcmp_loop zero i m a b = out_of_fuel
strcmp_loop (suc fuel) i m a b =
    let rest = strcmp_loop fuel (i + 1) m a b in
    let difference = sub32 (sign_extend (m (a + i))) (sign_extend (m (b + i))) in
    if not (m (a + i) == 0) && not (m (b + i) == 0)
    then (if not (m (a + i) == m (b + i)) then ok difference else rest)
    else ok difference

unfoldable pub strcmp : ℕ → Mem → ℕ → ℕ → Outcome ℕ
unfolding strcmp_loop
strcmp fuel m str1 str2 = strcmp_loop fuel 0 m str1 str2

-- `do dest[i] = src[i]; while (src[i++] != '\0');`. The test reads `src` after the write.
strcpy_loop : ℕ → ℕ → ℕ → ℕ → Mem → Outcome Mem
strcpy_loop zero i dest src m = out_of_fuel
strcpy_loop (suc fuel) i dest src m =
    let m' = write8 m (dest + i) (m (src + i)) in
    let rest = strcpy_loop fuel (i + 1) dest src m' in if m' (src + i) == 0 then ok m' else rest

unfoldable pub strcpy : ℕ → ℕ → ℕ → Mem → Outcome Mem
unfolding strcpy_loop
strcpy fuel dest src m = strcpy_loop fuel 0 dest src m
