-- ===== src/Prelude/Results.antt =====
-- Functions that may throw: the standard exceptions that the program throws.
use mathlib.Core.Path.{◌≡◌, refl}
use mathlib.Core.Logic.{◌⊎◌, inl, inr}

pub data Exception : Type 0 where
  out_of_range invalid_argument : Exception

pub data Result {ℓ} (A : Type ℓ) : Type ℓ where
  returns : A → Result A
  throws : Exception → Result A

pub Result-cases {ℓ} :
    {A : Type ℓ} (r : Result A) → ((e : Exception) × (r ≡ throws e)) ⊎ ((a : A) × (r ≡ returns a))
Result-cases (returns a) = inr (a, refl)
Result-cases (throws e) = inl (e, refl)
