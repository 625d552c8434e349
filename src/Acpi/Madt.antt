-- ===== src/Acpi/Madt.antt =====
-- acpi_madt::getEntry: the walk along the records of the MADT.
use rainbow_os.Prelude.{
  ℕ, zero, suc, ◌+◌, ◌^◌, ◌≤◌, ◌<◌, ◌≡◌, refl, sym, ap, subst, ◌∙◌, ◌≢◌, List, [], ◌∷◌, arith, ltb,
  ◌==◌, if◌then◌else◌, length, add32, ok, out_of_fuel,
}
use rainbow_os.Memory.{Mem}
use rainbow_os.Acpi.{table_length, walk, get_entry}

-- The records of the lengths `ls` stand from `a` on, none of them of type 1.
abbrev pub Records : Mem → ℕ → List ℕ → Type 0
Records m a [] = Unit {0}
Records m a (l ∷ ls) = (1 ≤ l) × (m (a + 1) ≡ l) × (m a ≢ 1) × Records m (a + l) ls

abbrev pub total : List ℕ → ℕ
total [] = 0
total (l ∷ ls) = l + total ls

-- One record of another type is passed.
walk_step :
    (fuel limit a l : ℕ) (m : Mem)
    → a < limit
    → a + l < 2 ^ 32
    → m a ≢ 1
    → m (a + 1) ≡ l
    → walk (suc fuel) limit a m ≡ walk fuel limit (a + l) m
unfolding walk
walk_step fuel limit a l m h t n e =
    let next : add32 a (m (a + 1)) ≡ a + l = omega arith in
    ap (λ (q : ℕ). if ltb a limit then if m a == 1 then ok a else walk fuel limit q m else ok 0)
      next
    ∙ ground arith

walk_found : (fuel limit a : ℕ) (m : Mem) → a < limit → m a ≡ 1 → walk (suc fuel) limit a m ≡ ok a
unfolding walk
walk_found fuel limit a m h e = ground arith

walk_end : (fuel limit a : ℕ) (m : Mem) → limit ≤ a → walk (suc fuel) limit a m ≡ ok 0
unfolding walk
walk_end fuel limit a m h = ground arith

-- What the walk ends with behind the records `ls`.
walk_all :
    (ls : List ℕ) (fuel limit a : ℕ) (m : Mem)
    → Records m a ls
    → limit < 2 ^ 32
    → length ls < fuel
    → ((a + total ls < limit) → m (a + total ls) ≡ 1 → walk fuel limit a m ≡ ok (a + total ls))
      × ((a + total ls ≡ limit) → walk fuel limit a m ≡ ok 0)
walk_all ls zero limit a m r h enough = absurd (omega arith)
walk_all [] (suc fuel) limit a m r h enough =
    let here : a + 0 ≡ a = omega arith in
    (
      λ lt one.
          subst (λ (q : ℕ). walk (suc fuel) limit a m ≡ ok q) (sym here)
            (walk_found fuel limit a m (omega arith) (subst (λ (q : ℕ). m q ≡ 1) here one)),
      λ same. walk_end fuel limit a m (omega arith),
    )
walk_all (l ∷ ls) (suc fuel) limit a m r h enough =
    let same : a + l + total ls ≡ a + (l + total ls) = omega arith in
    let (found, ended) = walk_all ls fuel limit (a + l) m r.3 h (omega arith) in
    let step : (a + (l + total ls) ≤ limit)
        → walk (suc fuel) limit a m ≡ walk fuel limit (a + l) m =
      λ le. walk_step fuel limit a l m (omega (arith, r.0)) (omega arith) r.2 r.1 in
    (
      λ lt one.
          step (omega arith)
          ∙ found (omega arith) (subst (λ (q : ℕ). m q ≡ 1) (sym same) one)
          ∙ ap ok same,
      λ e. step (omega arith) ∙ ended (omega arith),
    )

get_entry-walk :
    (fuel madt len : ℕ) (m : Mem)
    → table_length m madt ≡ len
    → madt + len < 2 ^ 32
    → madt + 44 < 2 ^ 32
    → get_entry fuel madt 1 m ≡ walk fuel (madt + len) (madt + 44) m
unfolding get_entry
get_entry-walk fuel madt len m e h k =
    let limit : add32 madt (table_length m madt) ≡ madt + len = omega arith in
    let start : add32 madt 44 ≡ madt + 44 = omega arith in rw (limit, start)

-- The MADT at `madt`, of `len` bytes, begins with records that are not of type 1, each at least one
-- byte long, and a record of type 1 comes next within the table: getEntry returns its address. One
-- round for each record and one more are enough.
pub get_entry_found :
    (ls : List ℕ) (fuel madt len : ℕ) (m : Mem)
    → table_length m madt ≡ len
    → madt + len < 2 ^ 32
    → Records m (madt + 44) ls
    → 44 + total ls < len
    → m (madt + 44 + total ls) ≡ 1
    → length ls < fuel
    → get_entry fuel madt 1 m ≡ ok (madt + 44 + total ls)
get_entry_found ls fuel madt len m e h r lt one enough =
    get_entry-walk fuel madt len m e h (omega arith)
    ∙ (walk_all ls fuel (madt + len) (madt + 44) m r h enough).0 (omega arith) one

-- If the MADT consists of such records only, the result of getEntry is null.
pub get_entry_none :
    (ls : List ℕ) (fuel madt len : ℕ) (m : Mem)
    → table_length m madt ≡ len
    → madt + len < 2 ^ 32
    → Records m (madt + 44) ls
    → 44 + total ls ≡ len
    → length ls < fuel
    → get_entry fuel madt 1 m ≡ ok 0
get_entry_none ls fuel madt len m e h r same enough =
    get_entry-walk fuel madt len m e h (omega arith)
    ∙ (walk_all ls fuel (madt + len) (madt + 44) m r h enough).1 (omega arith)

walk_none : (limit a : ℕ) (m : Mem) → walk zero limit a m ≡ out_of_fuel
unfolding walk
walk_none limit a m = refl

-- A record of another type with the length 0 holds the walk forever.
pub walk_stuck :
    (fuel limit a : ℕ) (m : Mem)
    → a < limit
    → limit < 2 ^ 32
    → m a ≢ 1
    → m (a + 1) ≡ 0
    → walk fuel limit a m ≡ out_of_fuel
walk_stuck zero limit a m h l t z = walk_none limit a m
walk_stuck (suc fuel) limit a m h l t z =
    walk_step fuel limit a 0 m h (omega arith) t z
    ∙ walk_stuck fuel limit (a + 0) m (omega arith) l (subst (λ (q : ℕ). m q ≢ 1) (omega arith) t)
        (subst (λ (q : ℕ). m (q + 1) ≡ 0) (omega arith) z)
