-- ===== src/Dbx/Catalogue/Mysql.antt =====
-- internal/dbx/mysql.go: the catalogue of a MySQL server. Each query of information_schema is an operation
-- of the parameter `MysqlReader`, with the arguments bound to its `?`.
use debeasy.Base.{Option, none, some, List, [], ◌++◌, map, Result, ok, err, ◌>>=◌}
use debeasy.Base.Text.{Text, codes, split}
use debeasy.Base.Int.{ℤ, pos, eqb_ℤ}
use debeasy.Dbx.Driver.{
  Error, backend, DatabaseInfo, Schema, ObjectKind, table, view, matview, index, sequence, other,
  Object, ObjectTree, ObjectRef, Column, IndexInfo, ForeignKey, TableDef, mysql,
}
use debeasy.Dbx.Ddl.{synthesised_create_table}
use debeasy.Dbx.Catalogue.{
  Cursor, collect, collected, lenient, Group, in_tables, in_views, in_other, listed, objects_in,
  names_with, database_named, schema_named, Query, KeyRow, key_of, or_zero,
}
use debeasy.Dbx.Identifier.{Panic, must_quote_ident}

unfoldable pub switch : ObjectKind → Group
switch table = in_tables
switch view = in_views
switch matview = in_other
switch index = in_other
switch sequence = in_other
switch (other k) = in_other

-- A row of an index, with its columns joined by commas.
pub record IndexRow : Type 0 where
  pub name : Text
  pub unique : ℤ
  pub primary : ℤ
  pub columns : Text

pub record ColumnRow : Type 0 where
  pub name : Text
  pub data_type : Text
  pub nullable : ℤ
  pub default : Text
  pub is_pk : ℤ
  pub ordinal_pos : ℤ

abbrev index_of : IndexRow → IndexInfo
index_of r = record {
  name = r.name;
  columns = split r.columns b',';
  unique = eqb_ℤ r.unique (pos 1);
  primary = eqb_ℤ r.primary (pos 1);
}

abbrev column_of : ColumnRow → Column
column_of r = record {
  name = r.name;
  data_type = r.data_type;
  nullable = eqb_ℤ r.nullable (pos 1);
  default = r.default;
  is_pk = eqb_ℤ r.is_pk (pos 1);
  ordinal_pos = r.ordinal_pos;
}

pub record MysqlReader : Type 1 where
  pub State : Type 0
  -- from information_schema.schemata
  pub schemata : Query State Text
  -- from information_schema.tables: the name, the kind and the comment of a table of the schema
  pub tables : Text → Query State (Text × Text × Text)
  -- from information_schema.statistics: the name of an index of the schema, and its table
  pub index_names : Text → Query State (Text × Text)
  -- for a schema and a table
  pub columns : Text → Text → Query State ColumnRow
  pub indexes : Text → Text → Query State IndexRow
  pub foreign_keys : Text → Text → Query State KeyRow
  -- `SHOW CREATE TABLE`: the second column of its row
  pub show_create_table : Text → State → Result Text Text × State
  pub row_estimate : Text → Text → State → Result Text ℤ × State

-- `rows.Err` is not looked at.
abbrev rows_until_error {ℓ} : {A : Type ℓ} → Result Text (Cursor A) → List A × Option Text
rows_until_error (err e) = ([], some e)
rows_until_error (ok rows) = collect [] rows.scans none

abbrev index_object : Text → Text × Text → Object
index_object schema (name, tbl) = record {
  kind = index;
  schema = schema;
  name = name;
  comment = codes "on " ++ tbl;
}

abbrev with_indexes : ObjectTree → List Object → ObjectTree
with_indexes t os = record t { indexes = t.indexes ++ os }

abbrev or_synthesised :
    ObjectRef → List Column → List IndexInfo → List ForeignKey → Result Text Text → Text
or_synthesised ref cols ixs fks (ok ddl) = ddl
or_synthesised ref cols ixs fks (err e) = synthesised_create_table mysql ref cols ixs fks

-- The qualified name of `SHOW CREATE TABLE`.
abbrev shown_name : ObjectRef → Result Panic Text
shown_name ref = do
  schema ← must_quote_ident mysql ref.schema
  name ← must_quote_ident mysql ref.name
  ok (schema ++ (codes "." ++ name))

abbrev returned : Result Panic TableDef → Result Panic (Result Error TableDef)
returned (err p) = err p
returned (ok def) = ok (ok def)

module _ (db : MysqlReader) where
  open db use {
    State, schemata, tables, index_names, columns, indexes, foreign_keys, show_create_table,
    row_estimate,
  }

  pub list_databases : State → (List DatabaseInfo × Option Error) × State
  list_databases s = let (rows, s') = schemata s in (names_with database_named (collected rows), s')

  pub list_schemas : State → (List Schema × Option Error) × State
  list_schemas s = let (rows, s') = schemata s in (names_with schema_named (collected rows), s')

  -- The indexes of the schema behind its tables, where they can be read.
  abbrev with_index_names : Text → Result Error ObjectTree → State → Result Error ObjectTree × State
  with_index_names schema (err e) s = (err e, s)
  with_index_names schema (ok t) s =
      let (rows, s') = index_names schema s in
      (ok (with_indexes t (map (index_object schema) (lenient rows))), s')

  pub list_objects : Text → State → Result Error ObjectTree × State
  list_objects schema s =
      let (rows, s') = tables schema s in
      with_index_names schema (listed switch (objects_in schema (rows_until_error rows))) s'

  -- The end of `DescribeTable`, from `SHOW CREATE TABLE` on.
  abbrev shown :
      ObjectRef
      → List Column
      → List IndexInfo
      → List ForeignKey
      → Result Panic Text
      → State
      → Result Panic TableDef × State
  shown ref cols ixs fks (err p) s = (err p, s)
  shown ref cols ixs fks (ok name) s =
      let (ddl, s1) = show_create_table (codes "SHOW CREATE TABLE " ++ name) s in
      let (n, s2) = row_estimate ref.schema ref.name s1 in
      (
        ok (record {
          ref = ref;
          kind = table;
          columns = cols;
          indexes = ixs;
          fks = fks;
          row_count = or_zero n;
          ddl = or_synthesised ref cols ixs fks ddl;
        }),
        s2,
      )

  abbrev described : ObjectRef → List Column → State → Result Panic TableDef × State
  described ref cols s =
      let (index_rows, s1) = indexes ref.schema ref.name s in
      let (key_rows, s2) = foreign_keys ref.schema ref.name s1 in
      shown ref cols (map index_of (lenient index_rows)) (map key_of (lenient key_rows))
        (shown_name ref) s2

  -- The outcome, where nothing panics, is a description or an error.
  abbrev with_columns :
      ObjectRef
      → List ColumnRow × Option Text
      → State
      → Result Panic (Result Error TableDef) × State
  with_columns ref (rows, some e) s = (ok (err (backend e)), s)
  with_columns ref (rows, none) s =
      let (def, s') = described ref (map column_of rows) s in (returned def, s')

  pub describe_table : ObjectRef → State → Result Panic (Result Error TableDef) × State
  describe_table ref s =
      let (rows, s') = columns ref.schema ref.name s in with_columns ref (rows_until_error rows) s'
