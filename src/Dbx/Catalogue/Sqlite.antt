-- ===== src/Dbx/Catalogue/Sqlite.antt =====
-- internal/dbx/sqlite.go: the catalogue of a SQLite file.
use debeasy.Base.{
  ℕ, suc, Option, none, some, List, [], ◌∷◌, ◌++◌, map, Result, ok, err, if◌then◌else◌,
}
use debeasy.Base.Text.{Text, codes, ◌≗◌}
use debeasy.Base.Int.{ℤ, pos, ltb_ℤ, eqb_ℤ}
use debeasy.Base.Decimal.{decimal_int}
use debeasy.Dbx.Driver.{
  Error, backend, DatabaseInfo, Schema, ObjectKind, table, view, matview, index, sequence, other,
  ObjectTree, ObjectRef, Column, IndexInfo, ForeignKey, TableDef, sqlite,
}
use debeasy.Dbx.Identifier.{quote_ident}
use debeasy.Dbx.Ddl.{synthesised_create_table}
use debeasy.Dbx.Sql.{Statement}
use debeasy.Dbx.Catalogue.{
  Cursor, collect, collected, lenient, Group, in_tables, in_views, in_indexes, in_other, objects_in,
  or_zero, listed, Query, no_args, database_named, schema_named,
}

unfoldable pub switch : ObjectKind → Group
switch table = in_tables
switch view = in_views
switch matview = in_other
switch index = in_indexes
switch sequence = in_other
switch (other k) = in_other

pub list_databases : List DatabaseInfo
list_databases = database_named (codes "main") ∷ []

pub list_schemas : List Schema
list_schemas = schema_named (codes "main") ∷ []

-- A row of `PRAGMA table_info`, without the name of its table.
pub record TableInfo : Type 0 where
  pub cid : ℕ
  pub name : Text
  pub data_type : Text
  pub notnull : ℤ
  pub dflt : Option Text
  pub pk : ℤ

-- A row of `PRAGMA index_list`.
pub record IndexRow : Type 0 where
  pub name : Text
  pub unique : ℤ
  pub origin : Text

-- A row of `PRAGMA foreign_key_list`.
pub record ForeignKeyRow : Type 0 where
  pub id : ℤ
  pub ref_table : Text
  pub from : Text
  pub to : Text
  pub on_update : Text
  pub on_delete : Text

abbrev or_blank : Option Text → Text
or_blank none = []
or_blank (some t) = t

abbrev column_of : TableInfo → Column
column_of r = record {
  name = r.name;
  data_type = r.data_type;
  nullable = eqb_ℤ r.notnull (pos 0);
  default = or_blank r.dflt;
  is_pk = ltb_ℤ (pos 0) r.pk;
  ordinal_pos = pos (suc r.cid);
}

abbrev index_of : IndexRow → List Text → IndexInfo
index_of r cols = record {
  name = r.name;
  columns = cols;
  unique = eqb_ℤ r.unique (pos 1);
  primary = r.origin ≗ codes "pk";
}

abbrev pub new_key : ForeignKeyRow → ForeignKey
new_key r = record {
  name = codes "fk_" ++ decimal_int r.id;
  columns = r.from ∷ [];
  ref_schema = [];
  ref_table = r.ref_table;
  ref_columns = r.to ∷ [];
  on_delete = r.on_delete;
  on_update = r.on_update;
}

-- The rows of one id are the columns of one key; the keys keep the order in which their ids come.
abbrev pub GroupedKeys : Type 0
GroupedKeys = List (ℤ × ForeignKey)

abbrev pub extended : ForeignKey → ForeignKeyRow → ForeignKey
extended fk r = record fk {
  columns = fk.columns ++ r.from ∷ [];
  ref_columns = fk.ref_columns ++ r.to ∷ [];
}

unfoldable pub add_key : GroupedKeys → ForeignKeyRow → GroupedKeys
add_key [] r = (r.id, new_key r) ∷ []
add_key ((id, fk) ∷ keys) r =
    let later = add_key keys r in
    if eqb_ℤ id r.id then (id, extended fk r) ∷ keys else (id, fk) ∷ later

unfoldable pub group_keys : GroupedKeys → List ForeignKeyRow → GroupedKeys
group_keys keys [] = keys
group_keys keys (r ∷ rows) = group_keys (add_key keys r) rows

-- What the queries of this driver answer.
pub record SqliteReader : Type 1 where
  pub State : Type 0
  -- a name
  pub names : Statement → Query State Text
  -- a name and a kind
  pub pairs : Statement → Query State (Text × Text)
  pub table_info : Statement → Query State TableInfo
  pub index_list : Statement → Query State IndexRow
  pub foreign_keys : Statement → Query State ForeignKeyRow
  -- `QueryRow`
  pub text_row : Statement → State → Result Text Text × State
  pub count_row : Statement → State → Result Text ℤ × State

module _ (db : SqliteReader) where
  open db use {State, names, pairs, table_info, index_list, foreign_keys, text_row, count_row}

  abbrev objects_text : Text
  objects_text =
      codes
        "SELECT name, type FROM sqlite_schema WHERE name NOT LIKE 'sqlite_%' ORDER BY type, name"

  abbrev with_kind : List (Text × Text) × Option Text → List (Text × Text × Text) × Option Text
  with_kind (rows, e) = (map (λ (r : Text × Text). (r.0, r.1, [])) rows, e)

  -- The names of the database and of the schema are not used.
  pub list_objects : State → Result Error ObjectTree × State
  list_objects s =
      let (rows, s') = pairs (no_args objects_text) s in
      (listed switch (objects_in (codes "main") (with_kind (collected rows))), s')

  -- `indexColumns`, where an error leaves the index without columns.
  abbrev columns_or_none : List Text × Option Text → List Text
  columns_or_none (cols, none) = cols
  columns_or_none (cols, some e) = []

  abbrev index_columns_of : Result Error Text → State → List Text × State
  index_columns_of (err e) s = ([], s)
  index_columns_of (ok q) s =
      let (rows, s') = names (no_args (codes "PRAGMA index_info(" ++ (q ++ codes ")"))) s in
      (columns_or_none (collected rows), s')

  pub index_columns : Text → State → List Text × State
  index_columns name s = index_columns_of (quote_ident sqlite name) s

  -- The columns of each index, once the list is read.
  pub resolve_indexes : List IndexRow → State → List IndexInfo × State
  resolve_indexes [] s = ([], s)
  resolve_indexes (r ∷ rows) s =
      let (cols, s1) = index_columns r.name s in
      let (rest, s2) = resolve_indexes rows s1 in (index_of r cols ∷ rest, s2)

  -- `rows.Err` of the columns is not looked at.
  abbrev info_rows : Result Text (Cursor TableInfo) → List TableInfo × Option Text
  info_rows (err e) = ([], some e)
  info_rows (ok rows) = collect [] rows.scans none

  abbrev or_synthesised :
      ObjectRef → List Column → List IndexInfo → List ForeignKey → Result Text Text → Text
  or_synthesised ref cols ixs fks (ok ddl) = ddl
  or_synthesised ref cols ixs fks (err e) = synthesised_create_table sqlite ref cols ixs fks

  -- The rest of `DescribeTable`, with the columns.
  abbrev described : ObjectRef → Text → List Column → State → TableDef × State
  described ref tbl cols s =
      let (index_rows, s1) =
        index_list (no_args (codes "PRAGMA index_list(" ++ (tbl ++ codes ")"))) s in
      let (ixs, s2) = resolve_indexes (lenient index_rows) s1 in
      let (key_rows, s3) =
        foreign_keys (no_args (codes "PRAGMA foreign_key_list(" ++ (tbl ++ codes ")"))) s2 in
      let fks = map (λ (k : ℤ × ForeignKey). k.1) (group_keys [] (lenient key_rows)) in
      let (ddl, s4) =
        text_row
          (record {
            text = codes "SELECT sql FROM sqlite_schema WHERE name=?";
            args = ref.name ∷ [];
          })
          s3 in
      let (n, s5) = count_row (no_args (codes "SELECT count(*) FROM " ++ tbl)) s4 in
      (
        record {
          ref = ref;
          kind = table;
          columns = cols;
          indexes = ixs;
          fks = fks;
          row_count = or_zero n;
          ddl = or_synthesised ref cols ixs fks ddl;
        },
        s5,
      )

  abbrev with_columns :
      ObjectRef → Text → List TableInfo × Option Text → State → Result Error TableDef × State
  with_columns ref tbl (rows, some e) s = (err (backend e), s)
  with_columns ref tbl (rows, none) s =
      let (def, s') = described ref tbl (map column_of rows) s in (ok def, s')

  abbrev describe_quoted : ObjectRef → Result Error Text → State → Result Error TableDef × State
  describe_quoted ref (err e) s = (err e, s)
  describe_quoted ref (ok tbl) s =
      let (rows, s') = table_info (no_args (codes "PRAGMA table_info(" ++ (tbl ++ codes ")"))) s in
      with_columns ref tbl (info_rows rows) s'

  pub describe_table : ObjectRef → State → Result Error TableDef × State
  describe_table ref s = describe_quoted ref (quote_ident sqlite ref.name) s
