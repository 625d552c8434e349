-- ===== src/Interrupts/Table.antt =====
-- The whole table that installAll leaves.
use rainbow_os.Prelude.{
  ℕ, zero, suc, ◌+◌, ◌*◌, ◌≤◌, ◌<◌, ◌≡◌, refl, sym, subst, ◌∙◌, ◌⊎◌, inl, arith,
}
use rainbow_os.Memory.{Mem, IsBytes, SameOutside, read32}
use rainbow_os.Memory.Words.{read32-eq, read32-lt}
use native.Mathlib.Decide.{dec_lt}
use rainbow_os.Interrupts.{install_interrupt, install_from, install_all}
use rainbow_os.Interrupts.Gate.{Gate, install_interrupt-Gate, Gate-SameOutside}

-- The gates `i` to `i + n - 1` stand in `m'`, to the handlers that the stub table held in `m`.
abbrev pub Gates : ℕ → ℕ → ℕ → ℕ → Mem → Mem → Type 0
Gates i n idt stubs m m' =
    (v : ℕ) → i ≤ v → v < i + n → Gate m' (idt + 8 * v) (read32 m (stubs + 4 * v))

module _ (idt stubs : ℕ) (apart : (stubs + 1024 ≤ idt) ⊎ (idt + 2048 ≤ stubs)) where
  stub_same :
      (i v : ℕ) (m m' : Mem)
      → i < 256
      → v < 256
      → SameOutside (idt + 8 * i) 8 m m'
      → read32 m' (stubs + 4 * v) ≡ read32 m (stubs + 4 * v)
  stub_same i v m m' h k same =
      read32-eq m m' (stubs + 4 * v) (λ x lo hi. same x (ground (arith, apart)))

  install_from-suc :
      (n i : ℕ) (m : Mem)
      → install_from (suc n) i idt stubs m
        ≡ install_from n (i + 1) idt stubs (install_interrupt idt i (read32 m (stubs + 4 * i)) 0 m)
  unfolding install_from
  install_from-suc n i m = refl

  install_from-zero : (i : ℕ) (m : Mem) → install_from zero i idt stubs m ≡ m
  unfolding install_from
  install_from-zero i m = refl

  abbrev Filled : ℕ → ℕ → Mem → Mem → Type 0
  Filled i n m m' = Gates i n idt stubs m m' × SameOutside (idt + 8 * i) (8 * n) m m' × IsBytes m'

  install_from-Filled :
      (n i : ℕ) (m : Mem) → IsBytes m → i + n ≤ 256 → Filled i n m (install_from n i idt stubs m)
  install_from-Filled zero i m b le =
      subst (Filled i 0 m) (sym (install_from-zero i m))
        (λ v lo hi. absurd (omega arith), λ x o. refl, b)
  install_from-Filled (suc n) i m b le =
      let m1 = install_interrupt idt i (read32 m (stubs + 4 * i)) 0 m in
      let m2 = install_from n (i + 1) idt stubs m1 in
      let (gate, same, b1) =
        install_interrupt-Gate idt i (read32 m (stubs + 4 * i)) m b (omega arith)
          (read32-lt m (stubs + 4 * i) b) in
      let (gates, same2, b2) = install_from-Filled n (i + 1) m1 b1 (omega arith) in
      let this =
        Gate-SameOutside m1 m2 (idt + 8 * (i + 1)) (8 * n) (idt + 8 * i) _ same2 (inl (omega arith))
          gate in
      subst (Filled i (suc n) m) (sym (install_from-suc n i m)) (
        λ v lo hi. elim (dec_lt i v) [
          | yes later ↦
              subst (λ (h : ℕ). Gate m2 (idt + 8 * v) h)
                (stub_same i v m m1 (omega arith) (omega arith) same)
                (gates v (omega arith) (omega arith))
          | no now ↦
              subst (λ (q : ℕ). Gate m2 (idt + 8 * q) (read32 m (stubs + 4 * q))) (omega arith) this
        ],
        λ x o. same2 x (omega arith) ∙ same x (omega arith),
        b2,
      )

  -- installAll leaves, for each of the 256 vectors, a present 32-bit interrupt gate for ring 0 to the
  -- handler of that vector, and writes only the 2048 bytes of the table. The table of the
  -- handlers lies apart from it.
  pub install_all-Gates :
      (m : Mem)
      → IsBytes m
      → let m' = install_all idt stubs m in Gates 0 256 idt stubs m m' × SameOutside idt 2048 m m'
  unfolding install_all
  install_all-Gates m b =
      let (gates, same, _) = install_from-Filled 256 0 m b (omega arith) in
      (gates, λ x o. same x (omega arith))

  pub install_all-IsBytes : (m : Mem) → IsBytes m → IsBytes (install_all idt stubs m)
  unfolding install_all
  install_all-IsBytes m b = (install_from-Filled 256 0 m b (omega arith)).2
