-- ===== src/Store/Table.antt =====
-- Laws of tables: lists of rows with a key on which no two rows agree.
use debeasy.Base.{
  ◌≡◌, refl, Bool, true, false, List, [], ◌∷◌, ◌++◌, some, arith, any, find, All, Bool-cases, inl,
  inr,
}

module _ {A : Type 0} (same : A → A → Bool) where
  -- No two rows are the same.
  abbrev pub Distinct : List A → Type 0
  Distinct [] = Unit
  Distinct (x ∷ xs) = (any (same x) xs ≡ false) × Distinct xs

  any-append :
      (p : A → Bool) (xs : List A) (z : A)
      → any p xs ≡ false
      → p z ≡ false
      → any p (xs ++ z ∷ []) ≡ false
  any-append p [] z h k = ground arith
  any-append p (x ∷ xs) z h k = ground (arith, any-append p xs z)

  -- A new last row that differs from all the others.
  pub Distinct-append :
      (xs : List A) (z : A) → Distinct xs → any (λ x. same x z) xs ≡ false → Distinct (xs ++ z ∷ [])
  Distinct-append [] z d h = (refl, tt)
  Distinct-append (x ∷ xs) z (h, d) k =
      (any-append (same x) xs z h (ground arith), Distinct-append xs z d (ground arith))

module _ {A : Type 0} where
  -- A row behind those that do not satisfy the test is the one that is found.
  pub find-append :
      (p : A → Bool) (xs : List A) (z : A)
      → any p xs ≡ false
      → p z ≡ true
      → find p (xs ++ z ∷ []) ≡ some z
  find-append p [] z h k = ground arith
  find-append p (x ∷ xs) z h k = ground (arith, find-append p xs z)

  -- What is found satisfies the test.
  pub find_sound : (p : A → Bool) (xs : List A) {x : A} → find p xs ≡ some x → p x ≡ true
  find_sound p [] h = cc
  find_sound p (y ∷ ys) {x} h = elim (Bool-cases (p y)) [
    | inl e ↦ let same : y ≡ x = ground arith in rw (← same) e
    | inr e ↦ find_sound p ys (ground arith)
  ]

  -- So does what an `All` says of every row.
  pub find-All :
      (P : A → Type 0) (p : A → Bool) (xs : List A) {x : A} → All P xs → find p xs ≡ some x → P x
  find-All P p [] a h = cc
  find-All P p (y ∷ ys) {x} (a, as') h = elim (Bool-cases (p y)) [
    | inl e ↦ let same : y ≡ x = ground arith in rw (← same) a
    | inr e ↦ find-All P p ys as' (ground arith)
  ]
