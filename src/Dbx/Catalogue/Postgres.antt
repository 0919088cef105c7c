-- ===== src/Dbx/Catalogue/Postgres.antt =====
-- internal/dbx/pg.go: the catalogue of a PostgreSQL database. Each query of the catalogue is an operation
-- of the parameter `PostgresReader`, with the arguments bound to its `$1` and `$2`.
use debeasy.Base.{Bool, Option, none, some, List, map, Result, ok, err}
use debeasy.Base.Text.{Text, split}
use debeasy.Base.Int.{ℤ}
use debeasy.Dbx.Driver.{
  Error, backend, DatabaseInfo, Schema, ObjectKind, table, view, matview, index, sequence, other,
  ObjectTree, ObjectRef, Column, IndexInfo, TableDef, postgres,
}
use debeasy.Dbx.Ddl.{synthesised_create_table}
use debeasy.Dbx.Catalogue.{
  collected, lenient, Group, in_tables, in_views, in_indexes, in_other, listed, objects_in,
  names_with, database_named, schema_named, Query, KeyRow, key_of, or_zero,
}

unfoldable pub switch : ObjectKind → Group
switch table = in_tables
switch view = in_views
switch matview = in_views
switch index = in_indexes
switch sequence = in_other
switch (other k) = in_other

-- A row of an index, with its columns joined by commas.
pub record IndexRow : Type 0 where
  pub name : Text
  pub unique : Bool
  pub primary : Bool
  pub columns : Text

abbrev index_of : IndexRow → IndexInfo
index_of r = record {
  name = r.name;
  columns = split r.columns b',';
  unique = r.unique;
  primary = r.primary;
}

pub record PostgresReader : Type 1 where
  pub State : Type 0
  -- from pg_database, and from pg_namespace
  pub databases : Query State Text
  pub schemas : Query State Text
  -- from pg_class: the name, the kind and the comment of a relation of the schema
  pub relations : Text → Query State (Text × Text × Text)
  -- from pg_attribute, pg_index and pg_constraint, for a schema and a table
  pub columns : Text → Text → Query State Column
  pub indexes : Text → Text → Query State IndexRow
  pub foreign_keys : Text → Text → Query State KeyRow
  -- from pg_class: the estimated number of rows
  pub row_estimate : Text → Text → State → Result Text ℤ × State

module _ (db : PostgresReader) where
  open db use {State, databases, schemas, relations, columns, indexes, foreign_keys, row_estimate}

  pub list_databases : State → (List DatabaseInfo × Option Error) × State
  list_databases s =
      let (rows, s') = databases s in (names_with database_named (collected rows), s')

  pub list_schemas : State → (List Schema × Option Error) × State
  list_schemas s = let (rows, s') = schemas s in (names_with schema_named (collected rows), s')

  -- The name of the database is not used.
  pub list_objects : Text → State → Result Error ObjectTree × State
  list_objects schema s =
      let (rows, s') = relations schema s in
      (listed switch (objects_in schema (collected rows)), s')

  -- The rest of `DescribeTable`, with the columns; an index or a key that cannot be read is left out.
  abbrev described : ObjectRef → List Column → State → TableDef × State
  described ref cols s =
      let (index_rows, s1) = indexes ref.schema ref.name s in
      let ixs = map index_of (lenient index_rows) in
      let (key_rows, s2) = foreign_keys ref.schema ref.name s1 in
      let fks = map key_of (lenient key_rows) in
      let (n, s3) = row_estimate ref.schema ref.name s2 in
      (
        record {
          ref = ref;
          kind = table;
          columns = cols;
          indexes = ixs;
          fks = fks;
          row_count = or_zero n;
          ddl = synthesised_create_table postgres ref cols ixs fks;
        },
        s3,
      )

  abbrev with_columns :
      ObjectRef → List Column × Option Text → State → Result Error TableDef × State
  with_columns ref (cols, some e) s = (err (backend e), s)
  with_columns ref (cols, none) s = let (def, s') = described ref cols s in (ok def, s')

  pub describe_table : ObjectRef → State → Result Error TableDef × State
  describe_table ref s =
      let (rows, s') = columns ref.schema ref.name s in with_columns ref (collected rows) s'
