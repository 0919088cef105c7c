-- ===== src/Base/Text/Laws.antt =====
-- Laws of the string functions.
use mathlib.Core.Path.{◌≡◌, refl}
use mathlib.Core.Logic.{◌↔◌}
use mathlib.Core.Bool.{true}
use mathlib.Core.List.{[], ◌∷◌}
use native.Mathlib.Omega.{arith}
use debeasy.Base.Text.{Text, ◌≗◌}

≗_sound : (s t : Text) → (s ≗ t) ≡ true → s ≡ t
unfolding ◌≗◌
≗_sound [] [] h = refl
≗_sound [] (d ∷ t) h = cc
≗_sound (c ∷ s) [] h = cc
≗_sound (c ∷ s) (d ∷ t) h = ground (arith, ≗_sound s t)

pub ≗_refl : (s : Text) → (s ≗ s) ≡ true
unfolding ◌≗◌
≗_refl [] = refl
≗_refl (c ∷ s) = ground (arith, ≗_refl s)

-- The test decides equality.
pub ≗_iff : (s t : Text) → ((s ≗ t) ≡ true) ↔ (s ≡ t)
≗_iff s t = (≗_sound s t, λ e. rw e (≗_refl t))
