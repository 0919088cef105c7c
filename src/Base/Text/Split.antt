-- ===== src/Base/Text/Split.antt =====
-- `strings.Split` of what `strings.Join` has written.
use mathlib.Core.Path.{◌≡◌, refl, ap, ◌∙◌}
use mathlib.Core.Bool.{true, false}
use mathlib.Core.List.{List, [], ◌∷◌, ◌++◌, append_assoc, append-nil}
use Prim.Native.Nat.{ℕ}
use native.Mathlib.Omega.{arith}
use debeasy.Base.Tests.{◌==◌}
use debeasy.Base.Lists.{All}
use debeasy.Base.Text.{Text, split_from, join}

-- The separator is not in the text.
abbrev pub Without : ℕ → Text → Type 0
Without sep s = All (λ c. (c == sep) ≡ false) s

split_from-append :
    (sep : ℕ) (cur name rest : Text)
    → Without sep name
    → split_from sep cur (name ++ rest) ≡ split_from sep (cur ++ name) rest
unfolding split_from
split_from-append sep cur [] rest h = rw (append-nil cur) refl
split_from-append sep cur (c ∷ name) rest (h, hs) = rw h (
    split_from-append sep (cur ++ (c ∷ [])) name rest hs ∙ rw (append_assoc cur (c ∷ []) name) refl)

pub split-join :
    (sep : ℕ) (name : Text) (names : List Text)
    → Without sep name
    → All (Without sep) names
    → split_from sep [] (join (name ∷ names) (sep ∷ [])) ≡ name ∷ names
unfolding split_from join
split-join sep name [] h hs =
    ap (split_from sep []) (append_nil name) ∙ split_from-append sep [] name [] h
  where
    append_nil : (s : Text) → s ≡ s ++ []
    append_nil s = rw (append-nil s) refl
split-join sep name (next ∷ names) h (k, ks) =
    split_from-append sep [] name (sep ∷ join (next ∷ names) (sep ∷ [])) h
    ∙ (rw (same sep) (ap (λ l. name ∷ l) (split-join sep next names k ks)))
  where
    same : (n : ℕ) → (n == n) ≡ true
    same n = ground arith
