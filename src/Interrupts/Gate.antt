-- ===== src/Interrupts/Gate.antt =====
-- The descriptors that installInterrupt and installAll leave.
use rainbow_os.Prelude.{
  ℕ, ◌≢◌, ◌∙◌, ◌⊎◌, u8, ◌<◌, ◌≤◌, ◌*◌, ◌+◌, ◌/◌, ◌%◌, ◌^◌, ◌≡◌, arith, ◌==◌, if◌then◌else◌,
}
use rainbow_os.Memory.{Mem, IsBytes, SameOutside, write8, read16, write16}
use rainbow_os.Memory.Words.{read16-eq}
use rainbow_os.Interrupts.{code32_ksegment, set_bits, set_flags, install_interrupt}

-- A present 32-bit interrupt gate for ring 0 at `e`, to the handler.
abbrev pub Gate : Mem → ℕ → ℕ → Type 0
Gate m e handler =
    (read16 m e + read16 m (e + 6) * 2 ^ 16 ≡ handler)
    × (read16 m (e + 2) ≡ code32_ksegment)
    × (m (e + 5) ≡ 0x8e)

-- The four stores leave one value, whatever the byte was.
set_flags_lem :
    (a : ℕ) (m : Mem) → IsBytes m → (x : ℕ) → set_flags a 0 m x ≡ (if x == a then 0x8e else m x)
unfolding set_flags set_bits write8
set_flags_lem a m b x = ground (arith, b x, b a)

-- The memory before the flags are stored.
abbrev words : ℕ → ℕ → Mem → Mem
words e handler m =
    write16 (write16 (write16 m e (handler % 2 ^ 16)) (e + 6) (handler / 2 ^ 16 % 2 ^ 16)) (e + 2)
      code32_ksegment

words-IsBytes : (e handler : ℕ) (m : Mem) → IsBytes m → IsBytes (words e handler m)
unfolding write16
words-IsBytes e handler m b x = ground (arith, b x)

words-SameOutside : (e handler : ℕ) (m : Mem) → SameOutside e 8 m (words e handler m)
unfolding write16
words-SameOutside e handler m x o = ground arith

words_read :
    (e handler : ℕ) (m : Mem)
    → handler < 2 ^ 32
    → let m' = words e handler m in
      (read16 m' e ≡ handler % 2 ^ 16)
      × (read16 m' (e + 6) ≡ handler / 2 ^ 16)
      × (read16 m' (e + 2) ≡ code32_ksegment)
unfolding write16 read16
words_read e handler m h = (ground arith, ground arith, ground arith)

-- A gate stands where the words and then the flags are stored.
set_flags-Gate :
    (e handler : ℕ) (m : Mem)
    → IsBytes m
    → handler < 2 ^ 32
    → let m' = set_flags (e + 5) 0 (words e handler m) in
      Gate m' e handler × SameOutside e 8 m m' × IsBytes m'
set_flags-Gate e handler m b h =
    let (low, high, selector) = words_read e handler m h in
    let f = set_flags_lem (e + 5) (words e handler m) (words-IsBytes e handler m b) in
    let m' = set_flags (e + 5) 0 (words e handler m) in
    let keeps : (x : ℕ) → x ≢ e + 5 → m' x ≡ words e handler m x = λ x ne. ground (arith, f x) in
    let lo = read16-eq (words e handler m) m' e (keeps _ (omega arith)) (keeps _ (omega arith)) in
    let hi =
      read16-eq (words e handler m) m' (e + 6) (keeps _ (omega arith)) (keeps _ (omega arith)) in
    let sel =
      read16-eq (words e handler m) m' (e + 2) (keeps _ (omega arith)) (keeps _ (omega arith)) in
    (
      (omega arith, sel ∙ selector, ground (arith, f (e + 5))),
      λ x o. keeps x (omega arith) ∙ words-SameOutside e handler m x o,
      λ x. ground (arith, f x, words-IsBytes e handler m b x),
    )

-- installInterrupt leaves a gate to the handler at its vector, and nothing else changes.
pub install_interrupt-Gate :
    (idt v handler : ℕ) (m : Mem)
    → IsBytes m
    → v < 256
    → handler < 2 ^ 32
    → let m' = install_interrupt idt v handler 0 m in
      Gate m' (idt + 8 * v) handler × SameOutside (idt + 8 * v) 8 m m' × IsBytes m'
unfolding install_interrupt
install_interrupt-Gate idt v handler m b small h =
    let vector : u8 v ≡ v = omega arith in
    let high : handler / 2 ^ 16 % 2 ^ 16 ≡ handler / 2 ^ 16 = omega arith in
    rw vector (set_flags-Gate (idt + 8 * v) handler m b h)

-- A gate stays where nothing is written.
pub Gate-SameOutside :
    (m m' : Mem) (a w e handler : ℕ)
    → SameOutside a w m m'
    → (e + 8 ≤ a) ⊎ (a + w ≤ e)
    → Gate m e handler
    → Gate m' e handler
Gate-SameOutside m m' a w e handler same apart (address, selector, flags) =
    let lo = read16-eq m m' e (same _ (omega arith)) (same _ (omega arith)) in
    let hi = read16-eq m m' (e + 6) (same _ (omega arith)) (same _ (omega arith)) in
    let sel = read16-eq m m' (e + 2) (same _ (omega arith)) (same _ (omega arith)) in
    (omega arith, sel ∙ selector, same _ (omega arith) ∙ flags)
