-- ===== src/Base/Text/Trim.antt =====
-- `strings.TrimSpace` of a text with space around it.
use mathlib.Core.Path.{◌≡◌, refl, ap, ◌∙◌}
use mathlib.Core.Bool.{true, false}
use mathlib.Core.List.{[], ◌∷◌, ◌++◌, reverse, reverse-append, reverse-reverse}
use Prim.Native.Nat.{ℕ}
use debeasy.Base.Lists.{All, All-reverse_aux}
use debeasy.Base.Text.{Text, is_space, trim_left, trim_right, trim_space}

abbrev pub IsBlank : Text → Type 0
IsBlank s = All (λ c. is_space c ≡ true) s

-- A text that starts with another character than a space.
abbrev pub StartsFilled : Text → Type 0
StartsFilled s = (c : ℕ) × (t : Text) × (s ≡ c ∷ t) × (is_space c ≡ false)

-- No space at either end, and not empty.
abbrev pub IsTrimmed : Text → Type 0
IsTrimmed s = StartsFilled s × StartsFilled (reverse s)

trim_left-blank :
    (pad s : Text) → IsBlank pad → trim_left is_space (pad ++ s) ≡ trim_left is_space s
unfolding trim_left
trim_left-blank [] s h = refl
trim_left-blank (c ∷ pad) s (h, hs) = rw h (trim_left-blank pad s hs)

trim_left-filled : (s rest : Text) → StartsFilled s → trim_left is_space (s ++ rest) ≡ s ++ rest
unfolding trim_left
trim_left-filled s rest (c, t, e, h) = rw (e, h) refl

trim_left_filled : (s : Text) → StartsFilled s → trim_left is_space s ≡ s
unfolding trim_left
trim_left_filled s (c, t, e, h) = rw (e, h) refl

trim_left-all : (pad : Text) → IsBlank pad → trim_left is_space pad ≡ []
unfolding trim_left
trim_left-all [] h = refl
trim_left-all (c ∷ pad) (h, hs) = rw h (trim_left-all pad hs)

pub trim_space-blank : (pad : Text) → IsBlank pad → trim_space pad ≡ []
unfolding trim_space trim_right trim_left
trim_space-blank pad h = ap (trim_right is_space) (trim_left-all pad h)

pub trim_space-padded :
    (left name right : Text)
    → IsBlank left
    → IsTrimmed name
    → IsBlank right
    → trim_space (left ++ (name ++ right)) ≡ name
unfolding trim_space trim_right
trim_space-padded left name right l (starts, ends) r =
    ap (trim_right is_space)
      (trim_left-blank left (name ++ right) l ∙ trim_left-filled name right starts)
    ∙ (ap (λ s. reverse (trim_left is_space s)) (reverse-append name right)
        ∙ (ap reverse (
              trim_left-blank (reverse right) (reverse name)
                (All-reverse_aux (λ c. is_space c ≡ true) right [] r tt)
              ∙ trim_left_filled (reverse name) ends)
            ∙ reverse-reverse name))
