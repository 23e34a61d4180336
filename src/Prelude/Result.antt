-- ===== src/Prelude/Result.antt =====
-- What a Go call with an error result returns: a value, or an error. The two are exclusive in the
-- code modelled here.
use mathlib.Core.Path.{◌≡◌, refl}
use mathlib.Core.Logic.{◌⊎◌, inl, inr}

pub data Result {ℓ} (E A : Type ℓ) : Type ℓ where
  returns : A → Result E A
  fails : E → Result E A

-- To split on a computed result and keep the equation.
pub Result-cases {ℓ} :
    {E A : Type ℓ} (r : Result E A) → ((e : E) × (r ≡ fails e)) ⊎ ((a : A) × (r ≡ returns a))
Result-cases (returns a) = inr (a, refl)
Result-cases (fails e) = inl (e, refl)
