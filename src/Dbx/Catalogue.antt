-- ===== src/Dbx/Catalogue.antt =====
-- internal/dbx/pg.go, mysql.go, sqlite.go: what the drivers read of a database's catalogue. The database
-- is a parameter: a state, and what each query answers in it. A row is what `Scan` makes of it, or the
-- error of the scan.
pub mod Keys
pub mod Listing
pub mod Sqlite
pub mod Postgres
pub mod Mysql
mod Tests
use debeasy.Base.{
  ℕ, suc, ◌+◌, Bool, true, false, ◌||◌, Option, none, some, List, [], ◌∷◌, ◌++◌, map, Result, ok,
  err, if◌then◌else◌,
}
use debeasy.Base.Text.{Text, codes, ◌≗◌, split}
use debeasy.Base.Int.{ℤ, pos}
use debeasy.Dbx.Driver.{
  Error, backend, DatabaseInfo, Schema, ObjectKind, table, view, matview, index, sequence, other,
  Object, ObjectTree, Column, IndexInfo, ForeignKey,
}
use mathlib.Core.Option
use debeasy.Dbx.Sql.{Statement}

-- The outcome of each `Scan`, and the error that `rows.Err` has at the end.
pub record Cursor {ℓ} (A : Type ℓ) : Type ℓ where
  pub scans : List (Result Text A)
  pub end_error : Option Text

-- The rows, and the error beside them; a scan that fails leaves none.
unfoldable pub collect {ℓ} :
    {A : Type ℓ} → List A → List (Result Text A) → Option Text → List A × Option Text
collect out [] end = (out, end)
collect out (err e ∷ scans) end = ([], some e)
collect out (ok a ∷ scans) end = collect (out ++ a ∷ []) scans end

abbrev pub collected {ℓ} : {A : Type ℓ} → Result Text (Cursor A) → List A × Option Text
collected (err e) = ([], some e)
collected (ok rows) = collect [] rows.scans rows.end_error

-- The rows that can be scanned, where the errors are ignored.
unfoldable pub scanned {ℓ} : {A : Type ℓ} → List (Result Text A) → List A
scanned [] = []
scanned (err e ∷ scans) = scanned scans
scanned (ok a ∷ scans) = a ∷ scanned scans

abbrev pub lenient {ℓ} : {A : Type ℓ} → Result Text (Cursor A) → List A
lenient (err e) = []
lenient (ok rows) = scanned rows.scans

-- `ObjectKind(k)`
abbrev pub object_kind : Text → ObjectKind
object_kind k =
    if k ≗ codes "table"
    then table
    else if k ≗ codes "view"
    then view
    else if k ≗ codes "matview"
    then matview
    else if k ≗ codes "index"
    then index
    else if k ≗ codes "sequence"
    then sequence
    else other k

abbrev pub empty_tree : ObjectTree
empty_tree = record { tables = []; views = []; indexes = []; other = [] }

-- The lists of a tree, and the `switch` that says into which an object goes.
pub data Group : Type 0 where
  in_tables : Group
  in_views : Group
  in_indexes : Group
  in_other : Group

abbrev pub put : Group → ObjectTree → Object → ObjectTree
put in_tables t o = record t { tables = t.tables ++ o ∷ [] }
put in_views t o = record t { views = t.views ++ o ∷ [] }
put in_indexes t o = record t { indexes = t.indexes ++ o ∷ [] }
put in_other t o = record t { other = t.other ++ o ∷ [] }

-- The loop of `ListObjects` over the rows that were read.
unfoldable pub place_all : (ObjectKind → Group) → ObjectTree → List Object → ObjectTree
place_all switch t [] = t
place_all switch t (o ∷ os) = place_all switch (put (switch o.kind) t o) os

-- The objects, or the error of their cursor.
abbrev pub listed : (ObjectKind → Group) → List Object × Option Text → Result Error ObjectTree
listed switch (os, some e) = err (backend e)
listed switch (os, none) = ok (place_all switch empty_tree os)

abbrev pub object_of : Text → Text × Text × Text → Object
object_of schema (name, kind, comment) = record {
  kind = object_kind kind;
  schema = schema;
  name = name;
  comment = comment;
}

abbrev pub objects_in : Text → List (Text × Text × Text) × Option Text → List Object × Option Text
objects_in schema (rows, e) = (map (object_of schema) rows, e)

-- A list of names, also where an error is beside it.
abbrev pub names_with {ℓ} :
    {A : Type ℓ} → (Text → A) → List Text × Option Text → List A × Option Error
names_with of (names, e) = (map of names, Option.map backend e)

abbrev pub database_named : Text → DatabaseInfo
database_named name = record { name = name; comment = [] }

abbrev pub schema_named : Text → Schema
schema_named name = record { name = name }

-- A query in a state of the database: the error of the query, or its rows.
abbrev pub Query : Type 0 → Type 0 → Type 0
Query S A = S → Result Text (Cursor A) × S

-- A row of a foreign key, where the columns of each side are joined by commas.
pub record KeyRow : Type 0 where
  pub name : Text
  pub columns : Text
  pub ref_schema : Text
  pub ref_table : Text
  pub ref_columns : Text

abbrev pub key_of : KeyRow → ForeignKey
key_of r = record {
  name = r.name;
  columns = split r.columns b',';
  ref_schema = r.ref_schema;
  ref_table = r.ref_table;
  ref_columns = split r.ref_columns b',';
  on_delete = [];
  on_update = [];
}

-- The number of rows, which stays 0 where it cannot be read.
abbrev pub or_zero : Result Text ℤ → ℤ
or_zero (ok n) = n
or_zero (err e) = pos 0

abbrev pub no_args : Text → Statement
no_args text = record { text = text; args = [] }
