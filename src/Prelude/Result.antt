-- ===== src/Prelude/Result.antt =====
-- Go's `(value, error)` results: an error is its text.
use Prim.Native.String.{String}
use mathlib.Core.Path.{◌≡◌, refl}

pub data Result {ℓ} (A : Type ℓ) : Type ℓ where
  ok : A → Result A
  err : String → Result A

pub Result-cases {ℓ} :
    {A : Type ℓ} (r : Result A)
    → mathlib.Core.Logic.◌⊎◌ ((a : A) × (r ≡ ok a)) ((e : String) × (r ≡ err e))
Result-cases (ok a) = mathlib.Core.Logic.inl (a, refl)
Result-cases (err e) = mathlib.Core.Logic.inr (e, refl)
