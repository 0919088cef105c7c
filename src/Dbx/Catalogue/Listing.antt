-- ===== src/Dbx/Catalogue/Listing.antt =====
-- Where `ListObjects` puts an object.
use debeasy.Base.{
  ◌≡◌, refl, ◌∙◌, Bool, true, false, List, [], ◌∷◌, ◌++◌, append_assoc, append-nil, select,
  if◌then◌else◌,
}
use debeasy.Dbx.Driver.{ObjectKind, Object, ObjectTree}
use debeasy.Dbx.Catalogue.{Group, in_tables, in_views, in_indexes, in_other, put, place_all}

abbrev is_tables : Group → Bool
is_tables in_tables = true
is_tables in_views = false
is_tables in_indexes = false
is_tables in_other = false

abbrev is_views : Group → Bool
is_views in_tables = false
is_views in_views = true
is_views in_indexes = false
is_views in_other = false

abbrev is_indexes : Group → Bool
is_indexes in_tables = false
is_indexes in_views = false
is_indexes in_indexes = true
is_indexes in_other = false

abbrev is_other : Group → Bool
is_other in_tables = false
is_other in_views = false
is_other in_indexes = false
is_other in_other = true

-- Lists behind those that the tree has.
abbrev extended : ObjectTree → List Object → List Object → List Object → List Object → ObjectTree
extended t a b c d = record {
  tables = t.tables ++ a;
  views = t.views ++ b;
  indexes = t.indexes ++ c;
  other = t.other ++ d;
}

-- The objects of each group, in their order, behind those that the tree has.
abbrev pub grouped : (ObjectKind → Group) → ObjectTree → List Object → ObjectTree
grouped switch t os =
    extended t (select (λ o. is_tables (switch o.kind)) os)
      (select (λ o. is_views (switch o.kind)) os) (select (λ o. is_indexes (switch o.kind)) os)
      (select (λ o. is_other (switch o.kind)) os)

-- One object more, in its group.
extended-put :
    (g : Group) (t : ObjectTree) (o : Object) (a b c d : List Object)
    → extended (put g t o) a b c d
      ≡ extended t
          (if is_tables g then o ∷ a else a)
          (if is_views g then o ∷ b else b)
          (if is_indexes g then o ∷ c else c)
          (if is_other g then o ∷ d else d)
extended-put in_tables t o a b c d = rw (append_assoc t.tables) refl
extended-put in_views t o a b c d = rw (append_assoc t.views) refl
extended-put in_indexes t o a b c d = rw (append_assoc t.indexes) refl
extended-put in_other t o a b c d = rw (append_assoc t.other) refl

-- Whatever the `switch` says, each list of the tree has just the objects that it sends there, each of
-- them, in the order of the rows, behind those that were there.
pub place_all-grouped :
    (switch : ObjectKind → Group) (t : ObjectTree) (os : List Object)
    → place_all switch t os ≡ grouped switch t os
unfolding place_all
place_all-grouped switch t [] =
    rw (append-nil t.tables, append-nil t.views, append-nil t.indexes, append-nil t.other) refl
place_all-grouped switch t (o ∷ os) =
    place_all-grouped switch (put (switch o.kind) t o) os
    ∙ extended-put (switch o.kind) t o (select (λ x. is_tables (switch x.kind)) os)
        (select (λ x. is_views (switch x.kind)) os) (select (λ x. is_indexes (switch x.kind)) os)
        (select (λ x. is_other (switch x.kind)) os)
