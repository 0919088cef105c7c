-- ===== src/Dbx/Catalogue/Keys.antt =====
-- The foreign keys of a SQLite table, from the rows of `PRAGMA foreign_key_list`.
use debeasy.Base.{
  ◌≡◌, refl, ◌∙◌, Bool, true, false, ℕ, ◌+◌, ◌==◌, arith, Option, none, some, List, [], ◌∷◌, ◌++◌,
  append_assoc, append-nil, select, map, if◌then◌else◌,
}
use debeasy.Base.Text.{Text, codes}
use debeasy.Base.Int.{ℤ, eqb_ℤ, pos_part, neg_part}
use debeasy.Base.Decimal.{decimal_int}
use debeasy.Dbx.Driver.{ForeignKey}
use debeasy.Dbx.Catalogue.Sqlite.{
  ForeignKeyRow, GroupedKeys, new_key, extended, add_key, group_keys,
}

-- Equal ids are equal to the same ids.
same_right :
    (a a' b b' c c' : ℕ) → (a + b' == b + a') ≡ true → (c + a' == a + c') ≡ (c + b' == b + c')
same_right a a' b b' c c' h = ground arith

eqb_right : (a b c : ℤ) → eqb_ℤ a b ≡ true → eqb_ℤ c a ≡ eqb_ℤ c b
eqb_right a b c =
    same_right (pos_part a) (neg_part a) (pos_part b) (neg_part b) (pos_part c) (neg_part c)

same_left :
    (a a' b b' c c' : ℕ) → (a + b' == b + a') ≡ true → (a + c' == c + a') ≡ (b + c' == c + b')
same_left a a' b b' c c' h = ground arith

eqb_left : (a b c : ℤ) → eqb_ℤ a b ≡ true → eqb_ℤ a c ≡ eqb_ℤ b c
eqb_left a b c =
    same_left (pos_part a) (neg_part a) (pos_part b) (neg_part b) (pos_part c) (neg_part c)

-- The key of an id.
abbrev pub key_at : ℤ → GroupedKeys → Option ForeignKey
key_at id [] = none
key_at id ((id', fk) ∷ keys) = let later = key_at id keys in if eqb_ℤ id id' then some fk else later

-- The key that some rows describe: the first row gives its number, table and actions, and each row one
-- column of either side.
abbrev pub described_key : List ForeignKeyRow → Option ForeignKey
described_key [] = none
described_key (r ∷ rows) = some (record {
  name = codes "fk_" ++ decimal_int r.id;
  columns = map (λ (x : ForeignKeyRow). x.from) (r ∷ rows);
  ref_schema = [];
  ref_table = r.ref_table;
  ref_columns = map (λ (x : ForeignKeyRow). x.to) (r ∷ rows);
  on_delete = r.on_delete;
  on_update = r.on_update;
})

-- What one row of the id does to its key.
abbrev touched : Bool → Option ForeignKey → ForeignKeyRow → Option ForeignKey
touched false key r = key
touched true none r = some (new_key r)
touched true (some fk) r = some (extended fk r)

-- The key that the row belongs to is extended, and another one is passed over.
extended-touched :
    (b : Bool) (fk : ForeignKey) (later : Option ForeignKey) (r : ForeignKeyRow)
    → (if b then some (extended fk r) else later) ≡ touched b (if b then some fk else later) r
extended-touched true fk later r = refl
extended-touched false fk later r = refl

begun-touched :
    (b : Bool) (r : ForeignKeyRow) → (if b then some (new_key r) else none) ≡ touched b none r
begun-touched true r = refl
begun-touched false r = refl

passed-touched :
    (c b : Bool) (fk : ForeignKey) (later : Option ForeignKey) (r : ForeignKeyRow)
    → (c ≡ true → b ≡ false)
    → (if c then some fk else touched b later r) ≡ touched b (if c then some fk else later) r
passed-touched true b fk later r h = rw (h refl) refl
passed-touched false b fk later r h = refl

-- One row, where the first key has the row's id, and where it has another.
key_at-add_to_first :
    (id id' : ℤ) (fk : ForeignKey) (keys later : GroupedKeys) (r : ForeignKeyRow) (b : Bool)
    → key_at id later ≡ touched (eqb_ℤ id r.id) (key_at id keys) r
    → eqb_ℤ id' r.id ≡ b
    → key_at id (if b then (id', extended fk r) ∷ keys else (id', fk) ∷ later)
      ≡ touched (eqb_ℤ id r.id) (key_at id ((id', fk) ∷ keys)) r
key_at-add_to_first id id' fk keys later r true h e =
    rw (eqb_right id' r.id id e) (extended-touched (eqb_ℤ id r.id) fk (key_at id keys) r)
key_at-add_to_first id id' fk keys later r false h e = rw h (
    passed-touched (eqb_ℤ id id') (eqb_ℤ id r.id) fk (key_at id keys) r
      (λ k. eqb_left id id' r.id k ∙ e))

key_at-add_key :
    (id : ℤ) (keys : GroupedKeys) (r : ForeignKeyRow)
    → key_at id (add_key keys r) ≡ touched (eqb_ℤ id r.id) (key_at id keys) r
unfolding add_key
key_at-add_key id [] r = begun-touched (eqb_ℤ id r.id) r
key_at-add_key id ((id', fk) ∷ keys) r =
    key_at-add_to_first id id' fk keys (add_key keys r) r (eqb_ℤ id' r.id)
      (key_at-add_key id keys r) refl

-- All the rows of an id, on the key that it has.
abbrev touched_by : Option ForeignKey → List ForeignKeyRow → Option ForeignKey
touched_by key [] = key
touched_by key (r ∷ rows) = touched_by (touched true key r) rows

abbrev of_id : ℤ → ForeignKeyRow → Bool
of_id id r = eqb_ℤ id r.id

touched-touched_by :
    (b : Bool) (key : Option ForeignKey) (r : ForeignKeyRow) (rows : List ForeignKeyRow)
    → touched_by (touched b key r) rows ≡ touched_by key (if b then r ∷ rows else rows)
touched-touched_by true key r rows = refl
touched-touched_by false key r rows = refl

key_at-group_keys :
    (id : ℤ) (keys : GroupedKeys) (rows : List ForeignKeyRow)
    → key_at id (group_keys keys rows) ≡ touched_by (key_at id keys) (select (of_id id) rows)
unfolding group_keys
key_at-group_keys id keys [] = refl
key_at-group_keys id keys (r ∷ rows) =
    rw (key_at-group_keys id (add_key keys r) rows, key_at-add_key id keys r)
      (touched-touched_by (of_id id r) (key_at id keys) r (select (of_id id) rows))

abbrev froms : List ForeignKeyRow → List Text
froms rows = map (λ (r : ForeignKeyRow). r.from) rows

abbrev tos : List ForeignKeyRow → List Text
tos rows = map (λ (r : ForeignKeyRow). r.to) rows

touched_by-columns :
    (fk : ForeignKey) (rows : List ForeignKeyRow)
    → touched_by (some fk) rows
      ≡ some (record fk {
        columns = fk.columns ++ froms rows;
        ref_columns = fk.ref_columns ++ tos rows;
      })
touched_by-columns fk [] = rw (append-nil fk.columns, append-nil fk.ref_columns) refl
touched_by-columns fk (r ∷ rows) =
    rw
      (
        touched_by-columns (extended fk r) rows,
        append_assoc fk.columns,
        append_assoc fk.ref_columns,
      )
      refl

touched_by-described_key : (rows : List ForeignKeyRow) → touched_by none rows ≡ described_key rows
touched_by-described_key [] = refl
touched_by-described_key (r ∷ rows) = touched_by-columns (new_key r) rows

-- Whatever the order of the rows, also where those of several keys are mixed: an id has a key just where
-- it has a row; the key's name, table and actions are those of the first row, and its columns, of either
-- side, those of all the rows of the id in their order.
pub group_keys-described_key :
    (id : ℤ) (rows : List ForeignKeyRow)
    → key_at id (group_keys [] rows) ≡ described_key (select (of_id id) rows)
group_keys-described_key id rows =
    key_at-group_keys id [] rows ∙ touched_by-described_key (select (of_id id) rows)
