-- ===== src/Prelude/Outcomes.antt =====
-- What a run of fallible code ends in. `panic` is a call of `earlyPanic`, which prints and hangs.
-- `out_of_fuel` is not a behaviour of the code: it says that the rounds given were not enough.
use mathlib.Core.Path.{◌≡◌, refl}

pub data Outcome {ℓ} (A : Type ℓ) : Type ℓ where
  ok : A → Outcome A
  panic : Outcome A
  out_of_fuel : Outcome A

infixl 5 ◌>>=◌
abbrev pub ◌>>=◌ {ℓ κ} :
    {State : Type ℓ} {Next : Type κ}
    → (run : Outcome State) (continue : State → Outcome Next) → Outcome Next
panic >>= continue = panic
out_of_fuel >>= continue = out_of_fuel
ok state >>= continue = continue state

-- The parts of a run that ends well.
pub >>=-eq-ok {ℓ κ} :
    {State : Type ℓ} {Next : Type κ} (run : Outcome State) (continue : State → Outcome Next)
    {end : Next}
    → (run >>= continue) ≡ ok end
    → (state : State) × (run ≡ ok state) × (continue state ≡ ok end)
>>=-eq-ok panic continue whole = cc
>>=-eq-ok out_of_fuel continue whole = cc
>>=-eq-ok (ok state) continue whole = (state, refl, whole)
