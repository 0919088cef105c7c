-- ===== src/Dbx/Ddl.antt =====
-- internal/dbx/ddl.go: the text of CREATE TABLE and CREATE INDEX. A `strings.Builder` is the text
-- written so far.
pub mod Render
pub mod Accepts
mod Tests
use debeasy.Base.{
  ℕ, Bool, true, false, not, ◌&&◌, ◌||◌, List, [], ◌∷◌, ◌++◌, map, Result, ok, err, ◌>>=◌,
  if◌then◌else◌, is_empty,
}
use debeasy.Base.Text.{Text, codes, trim_space, join}
use debeasy.Dbx.Driver.{
  Kind, postgres, mysql, sqlite, Error, no_column, missing_type, ObjectRef, Column, IndexInfo,
  ForeignKey, IndexDef, ColumnDef, CreateTableDef,
}
use debeasy.Dbx.Identifier.{quote_ident, qualified}
use debeasy.Dbx.Messages.{error_text}

abbrev when : Bool → Text → Text
when b s = if b then s else []

-- "NOT NULL" and "DEFAULT" behind a column's name and type.
unfoldable pub column_line : Text → Text → Bool → Text → Text
column_line col dt nullable default =
    codes "  "
    ++ col
    ++ codes " "
    ++ dt
    ++ when (not nullable) (codes " NOT NULL")
    ++ when (not (is_empty default)) (codes " DEFAULT " ++ default)

unfoldable pub primary_key_line : List Text → Text
primary_key_line pks = codes "  PRIMARY KEY (" ++ join pks (codes ", ") ++ codes ")"

-- The loop over the columns: `pks` and the text so far. `i < len(def.Columns)-1` says that columns
-- are left.
build_columns : Kind → List ColumnDef → List Text → Text → Result Error (List Text × Text)
build_columns k [] pks b = ok (pks, b)
build_columns k (c ∷ cs) pks b = do
  col ← quote_ident k c.name
  let dt = trim_space c.data_type
  let pks' = if c.is_pk then pks ++ col ∷ [] else pks
  let comma = when (not (is_empty cs) || not (is_empty pks')) (codes ",")
  let line = column_line col dt c.nullable c.default
  let rest = build_columns k cs pks' (b ++ (line ++ comma) ++ codes "\n")
  if is_empty dt then err (missing_type c.name) else rest

unfoldable pub build_create_table : Kind → CreateTableDef → Result Error Text
unfolding build_columns
build_create_table k def = if is_empty def.columns then err no_column else do
  tbl ← qualified k def.schema def.name
  let b =
      codes "CREATE TABLE "
      ++ when def.if_not_exists (codes "IF NOT EXISTS ")
      ++ tbl
      ++ codes " (\n"
  (pks, body) ← build_columns k def.columns [] b
  ok (body ++ when (not (is_empty pks)) (primary_key_line pks ++ codes "\n") ++ codes ")")

pub quote_all : Kind → List Text → Result Error (List Text)
quote_all k [] = ok []
quote_all k (c ∷ cs) = do q ← quote_ident k c; qs ← quote_all k cs; ok (q ∷ qs)

abbrev is_postgres : Kind → Bool
is_postgres postgres = true
is_postgres _ = false

unfoldable pub build_create_index : Kind → IndexDef → Result Error Text
unfolding quote_all
build_create_index k def = if is_empty def.columns then err no_column else do
  idx_name ← quote_ident k def.name
  tbl ← qualified k def.schema def.table
  cols ← quote_all k def.columns
  ok (
      codes "CREATE "
      ++ when def.unique (codes "UNIQUE ")
      ++ codes "INDEX "
      ++ idx_name
      ++ codes " ON "
      ++ tbl
      ++ when (is_postgres k && not (is_empty def.method)) (codes " USING " ++ def.method)
      ++ codes " ("
      ++ join cols (codes ", ")
      ++ codes ")")

-- `q, _ := quoteIdent(…)`: the empty text where the name is refused.
abbrev or_empty : Result Error Text → Text
or_empty (ok q) = q
or_empty (err e) = []

abbrev quote_or_empty : Kind → Text → Text
quote_or_empty k name = or_empty (quote_ident k name)

abbrev shown_column : Kind → Column → Text
shown_column k c = column_line (quote_or_empty k c.name) c.data_type c.nullable c.default

-- The loop over the columns, with `len(fks) > 0` as its first argument.
shown_columns : Bool → Kind → List Column → List Text → Text → List Text × Text
shown_columns fks k [] pks b = (pks, b)
shown_columns fks k (c ∷ cs) pks b =
    let pks' = if c.is_pk then pks ++ quote_or_empty k c.name ∷ [] else pks in
    let comma = when (not (is_empty cs) || (not (is_empty pks') || fks)) (codes ",") in
    shown_columns fks k cs pks' (b ++ (shown_column k c ++ comma) ++ codes "\n")

abbrev quoted_columns : Kind → List Text → Text
quoted_columns k cols = join (map (quote_or_empty k) cols) (codes ", ")

unfoldable pub foreign_key_line : Kind → ForeignKey → Text
foreign_key_line k fk =
    codes "  FOREIGN KEY ("
    ++ quoted_columns k fk.columns
    ++ codes ") REFERENCES "
    ++ or_empty (qualified k fk.ref_schema fk.ref_table)
    ++ codes " ("
    ++ quoted_columns k fk.ref_columns
    ++ codes ")"

shown_foreign_keys : Kind → List ForeignKey → Text → Text
shown_foreign_keys k [] b = b
shown_foreign_keys k (fk ∷ fks) b =
    let comma = when (not (is_empty fks)) (codes ",") in
    shown_foreign_keys k fks (b ++ (foreign_key_line k fk ++ comma) ++ codes "\n")

shown_indexes : Kind → Text → List IndexInfo → Text → Text
shown_indexes k tbl [] b = b
shown_indexes k tbl (ix ∷ idx) b =
    let line =
      codes "CREATE "
      ++ when ix.unique (codes "UNIQUE ")
      ++ codes "INDEX "
      ++ quote_or_empty k ix.name
      ++ codes " ON "
      ++ tbl
      ++ codes " ("
      ++ quoted_columns k ix.columns
      ++ codes ");\n" in
    shown_indexes k tbl idx (if ix.primary then b else b ++ line)

abbrev shown_table : Kind → List Column → List IndexInfo → List ForeignKey → Text → Text
shown_table k cols idx fks tbl =
    let (pks, b) =
      shown_columns (not (is_empty fks)) k cols [] (codes "CREATE TABLE " ++ tbl ++ codes " (\n") in
    let suffix = when (not (is_empty fks)) (codes ",") in
    let b' = b ++ when (not (is_empty pks)) (primary_key_line pks ++ suffix ++ codes "\n") in
    shown_indexes k tbl idx (shown_foreign_keys k fks b' ++ codes ");\n")

unfoldable pub synthesised_create_table :
    Kind → ObjectRef → List Column → List IndexInfo → List ForeignKey → Text
unfolding shown_columns shown_foreign_keys shown_indexes
synthesised_create_table k ref cols idx fks = elim (qualified k ref.schema ref.name) [
  | err e ↦ codes "-- " ++ error_text e
  | ok tbl ↦ shown_table k cols idx fks tbl
]
