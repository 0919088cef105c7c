-- ===== src/Base/Outcome.antt =====
-- What a Go function that returns `(value, error)` hands to its caller: the error first, as the
-- package's own type, and the value where there is none.
use mathlib.Core.Path.{◌≡◌, refl}
use mathlib.Core.Logic.{◌⊎◌, inl, inr}

pub data Result {ℓ κ} (E : Type ℓ) (A : Type κ) : Type (ℓ ⊔ κ) where
  err : E → Result E A
  ok : A → Result E A

-- An error wrapped on its way up.
abbrev pub map_err {ℓ κ ν} :
    {D : Type ℓ} {E : Type κ} {A : Type ν} → (D → E) → Result D A → Result E A
map_err wrap (err cause) = err (wrap cause)
map_err wrap (ok value) = ok value

module _ {ℓ κ} {E : Type ℓ} {A : Type κ} where
  -- The early return on an error.
  infixl 5 ◌>>=◌
  abbrev pub ◌>>=◌ {ν} : {B : Type ν} → Result E A → (A → Result E B) → Result E B
  err cause >>= next = err cause
  ok value >>= next = next value

  pub Result-cases : (r : Result E A) → ((a : A) × (r ≡ ok a)) ⊎ ((e : E) × (r ≡ err e))
  Result-cases (err cause) = inr (cause, refl)
  Result-cases (ok value) = inl (value, refl)

  -- A chain that succeeds has succeeded up to here.
  pub >>=-eq-ok {ν} :
      {B : Type ν} (m : Result E A) (next : A → Result E B) {b : B}
      → (m >>= next) ≡ ok b
      → (a : A) × (m ≡ ok a) × (next a ≡ ok b)
  >>=-eq-ok (err cause) next h = cc
  >>=-eq-ok (ok value) next h = (value, refl, h)
