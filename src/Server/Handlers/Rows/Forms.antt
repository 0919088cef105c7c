-- ===== src/Server/Handlers/Rows/Forms.antt =====
-- What the row forms of internal/server/handlers_object.go send to the database.
use debeasy.Base.{
  ◌≡◌, refl, sym, ap, ◌∙◌, Bool, true, false, ◌&&◌, Option, none, some, List, [], ◌∷◌, ◌++◌, ◌||◌,
  any, is_empty, if◌then◌else◌, Bool-cases, inl, inr,
}
use debeasy.Base.Text.{Text, codes, ◌≗◌}
use debeasy.Base.Text.Laws.{≗_iff}
use debeasy.Dbx.Driver.{Column}
use debeasy.Dbx.Sql.{Values}
use debeasy.Server.Request.{Request, form_value, without_key}
use debeasy.Server.Handlers.Rows.{put, insert_values, update_values, update_key}

-- The value that a map has for a key.
abbrev pub lookup : Values → Text → Option Text
lookup [] k = none
lookup ((j, v) ∷ values) k = let rest = lookup values k in if j ≗ k then some v else rest

lookup-without_key :
    (values : Values) (j k : Text)
    → (j ≗ k) ≡ false
    → lookup (without_key j values) k ≡ lookup values k
unfolding without_key
lookup-without_key [] j k h = refl
lookup-without_key ((i, v) ∷ values) j k h = elim (Bool-cases (i ≗ j)) [
  | inl e ↦ rw (e, ap (λ x. x ≗ k) ((≗_iff i j).0 e) ∙ h) (lookup-without_key values j k h)
  | inr e ↦ rw e (ap (λ o. if i ≗ k then some v else o) (lookup-without_key values j k h))
]

lookup-put :
    (k j v : Text) (values : Values)
    → lookup (put j v values) k ≡ (if j ≗ k then some v else lookup values k)
lookup-put k j v values = elim (Bool-cases (j ≗ k)) [
  | inl e ↦ rw e refl
  | inr e ↦ rw e (lookup-without_key values j k e)
]

abbrev pub new_value : Request → Text → Text
new_value r k = form_value r (codes "c_" ++ k)

abbrev pub key_value : Request → Text → Text
key_value r k = form_value r (codes "pk_" ++ k)

-- The column is left empty and marked as NULL.
abbrev pub omitted : Request → Text → Bool
omitted r k = is_empty (new_value r k) && form_value r (codes "null_" ++ k) ≗ codes "on"

abbrev pub has_column : List Column → Text → Bool
has_column cols k = any (λ col. col.name ≗ k) cols

abbrev pub has_key_column : List Column → Text → Bool
has_key_column cols k = any (λ col. col.is_pk && col.name ≗ k) cols

-- One column more: it is left out where `o` holds, and else has the value `v`.
lookup-column :
    (n k : Text) (o h : Bool) (v : Text) (rest : Values) (x : Option Text)
    → lookup rest k ≡ (if h then x else none)
    → ((n ≗ k) ≡ true → x ≡ (if o then none else some v))
    → lookup (if o then rest else put n v rest) k ≡ (if (n ≗ k) || h then x else none)
lookup-column n k false h v rest x ih same = elim (Bool-cases (n ≗ k)) [
  | inl e ↦ lookup-put k n v rest ∙ rw (e, same e) refl
  | inr e ↦ lookup-put k n v rest ∙ rw (e, ih) refl
]
lookup-column n k true true v rest x ih same = elim (Bool-cases (n ≗ k)) [
  | inl e ↦ rw (e, ih) refl
  | inr e ↦ rw (e, ih) refl
]
lookup-column n k true false v rest x ih same = elim (Bool-cases (n ≗ k)) [
  | inl e ↦ rw (e, ih, same e) refl
  | inr e ↦ rw (e, ih) refl
]

-- What an INSERT has for a column.
abbrev pub new_cell : Request → Text → Option Text
new_cell r k = if omitted r k then none else some (new_value r k)

lookup-insert_values :
    (r : Request) (cols : List Column) (k : Text)
    → lookup (insert_values r cols) k ≡ (if has_column cols k then new_cell r k else none)
unfolding insert_values
lookup-insert_values r [] k = refl
lookup-insert_values r (col ∷ cols) k =
    lookup-column col.name k (omitted r col.name) (has_column cols k) (new_value r col.name)
      (insert_values r cols) (new_cell r k) (lookup-insert_values r cols k)
      (λ e. ap (new_cell r) (sym ((≗_iff col.name k).0 e)))

lookup-update_values :
    (r : Request) (cols : List Column) (k : Text)
    → lookup (update_values r cols) k ≡ (if has_column cols k then some (new_value r k) else none)
unfolding update_values
lookup-update_values r [] k = refl
lookup-update_values r (col ∷ cols) k =
    lookup-column col.name k false (has_column cols k) (new_value r col.name) (update_values r cols)
      (some (new_value r k)) (lookup-update_values r cols k)
      (λ e. ap (λ x. some (new_value r x)) (sym ((≗_iff col.name k).0 e)))

lookup-update_key :
    (r : Request) (cols : List Column) (k : Text)
    → lookup (update_key r cols) k ≡ (if has_key_column cols k then some (key_value r k) else none)
unfolding update_key
lookup-update_key r [] k = refl
lookup-update_key r (col ∷ cols) k = go col.is_pk (lookup-update_key r cols k)
  where
    rest : Values
    rest = update_key r cols

    go :
        (p : Bool)
        → lookup rest k ≡ (if has_key_column cols k then some (key_value r k) else none)
        → lookup (if p then put col.name (key_value r col.name) rest else rest) k
          ≡ (if (p && col.name ≗ k) || has_key_column cols k then some (key_value r k) else none)
    go true ih =
        lookup-column col.name k false (has_key_column cols k) (key_value r col.name) rest
          (some (key_value r k)) ih
          (λ e. ap (λ x. some (key_value r x)) (sym ((≗_iff col.name k).0 e)))
    go false ih = ih

-- A new row has a value for just those columns of the table that are not both left empty and marked as
-- NULL, and it is the form's. A changed row has the form's value for every column, whatever is marked,
-- and its key is that of the form's key fields.
pub insert_values-update_values :
    (r : Request) (cols : List Column) (k : Text)
    → (lookup (insert_values r cols) k ≡ (if has_column cols k then new_cell r k else none))
      × (lookup (update_values r cols) k
          ≡ (if has_column cols k then some (new_value r k) else none))
      × (lookup (update_key r cols) k
          ≡ (if has_key_column cols k then some (key_value r k) else none))
insert_values-update_values r cols k =
    (lookup-insert_values r cols k, lookup-update_values r cols k, lookup-update_key r cols k)
