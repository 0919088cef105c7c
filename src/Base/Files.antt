-- ===== src/Base/Files.antt =====
-- A file system as far as the program uses one: files with a content and permissions, by their paths.
use mathlib.Core.Path.{◌≡◌, refl, sym, ◌∙◌}
use mathlib.Core.Logic.{◌≢◌}
use mathlib.Core.Bool.{true, false}
use mathlib.Core.List.{List, [], ◌∷◌}
use mathlib.Core.Option.{Option, none, some}
use native.Mathlib.Omega.{arith}
use Prim.Native.Nat.{ℕ}
use mathlib.Core.Logic.{inl, inr}
use debeasy.Base.Tests.{if◌then◌else◌, Bool-cases}
use debeasy.Base.Text.{Text, ◌≗◌}
use debeasy.Base.Text.Laws.{≗_refl, ≗_iff}

pub record File : Type 0 where
  pub content : Text
  pub mode : ℕ

abbrev pub Files : Type 0
Files = List (Text × File)

unfoldable pub read : Files → Text → Option File
read [] path = none
read ((p, f) ∷ files) path = let rest = read files path in if p ≗ path then some f else rest

unfoldable pub erase : Files → Text → Files
erase [] path = []
erase ((p, f) ∷ files) path =
    let rest = erase files path in if p ≗ path then rest else (p, f) ∷ rest

-- A file that was at the path is replaced.
abbrev pub write : Files → Text → File → Files
write files path f = (path, f) ∷ erase files path

pub read-erase : (files : Files) (path : Text) → read (erase files path) path ≡ none
unfolding read erase
read-erase [] path = refl
read-erase ((p, f) ∷ files) path = elim (Bool-cases (p ≗ path)) [
  | inl e ↦ rw e (read-erase files path)
  | inr e ↦ rw (e, e) (read-erase files path)
]

pub read-erase_other :
    (files : Files) (path other : Text)
    → other ≢ path
    → read (erase files path) other ≡ read files other
unfolding read erase
read-erase_other [] path other h = refl
read-erase_other ((p, f) ∷ files) path other h = elim (Bool-cases (p ≗ path)) [
  | inl e ↦
      rw (e, differs p path other (≗_iff p path).0 (≗_iff p other).0 e h)
        (read-erase_other files path other h)
  | inr e ↦ rw e (ground (arith, read-erase_other files path other h))
]
  where
    differs :
        (p path other : Text)
        → ((p ≗ path) ≡ true → p ≡ path)
        → ((p ≗ other) ≡ true → p ≡ other)
        → (p ≗ path) ≡ true
        → other ≢ path
        → (p ≗ other) ≡ false
    differs p path other f g e h = elim (Bool-cases (p ≗ other)) [
      | inl k ↦ absurd (h (sym (g k) ∙ f e))
      | inr k ↦ k
    ]

pub read-write : (files : Files) (path : Text) (f : File) → read (write files path f) path ≡ some f
unfolding read
read-write files path f = rw (≗_refl path) refl

pub read-write_other :
    (files : Files) (path other : Text) (f : File)
    → other ≢ path
    → read (write files path f) other ≡ read files other
unfolding read
read-write_other files path other f h = elim (Bool-cases (path ≗ other)) [
  | inl k ↦ absurd (h (same path other ((≗_iff path other).0 k)))
  | inr k ↦ rw k (read-erase_other files path other h)
]
  where
    same : (a b : Text) → a ≡ b → b ≡ a
    same a b e = cc
