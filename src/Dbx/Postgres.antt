-- ===== src/Dbx/Postgres.antt =====
-- internal/dbx/pg.go: the statements that the PostgreSQL driver sends, from `SampleRows` on.
pub mod Laws
use debeasy.Base.{
  ℕ, suc, ◌+◌, Bool, true, false, List, [], ◌∷◌, ◌++◌, Result, ok, err, ◌>>=◌, is_empty, length,
  if◌then◌else◌,
}
use debeasy.Base.Text.{Text, codes, join}
use debeasy.Base.Int.{ℤ, pos}
use debeasy.Base.Decimal.{decimal}
use debeasy.Dbx.Driver.{
  Kind, Error, no_primary_key, ObjectRef, Page, RowSet, DatabaseOpts, CreateTableDef, IndexDef,
}
use debeasy.Dbx.Identifier.{quote_ident, qualified, quote_literal}
use debeasy.Dbx.Ddl.{build_create_table, build_create_index}
use debeasy.Dbx.Sql.{
  Values, Statement, Client, perform, sample, count, sample_limit, order_clause, sample_text,
  quote_columns, numbered_terms, values_of,
}

unfoldable pub sample_statement : ObjectRef → Page → Result Error Text
sample_statement ref page = do
  q ← qualified Kind.postgres ref.schema ref.name
  order ← order_clause Kind.postgres page
  ok (sample_text q order page)

unfoldable pub count_statement : ObjectRef → Result Error Text
count_statement ref = do
  q ← qualified Kind.postgres ref.schema ref.name
  ok (codes "SELECT count(*) FROM " ++ q)

-- An option of CREATE DATABASE, left out if its value is empty.
abbrev option : Text → Text → (Text → Result Error Text) → Result Error Text
option keyword value render =
    if is_empty value then ok [] else (render value >>= λ text. ok (keyword ++ text))

unfoldable pub create_database_statement : Text → DatabaseOpts → Result Error Statement
create_database_statement name opts = do
  q ← quote_ident Kind.postgres name
  owner ← option (codes " OWNER ") opts.owner (quote_ident Kind.postgres)
  encoding ← option (codes " ENCODING ") opts.encoding (λ e. ok (quote_literal e))
  template ← option (codes " TEMPLATE ") opts.template (quote_ident Kind.postgres)
  ok (record { text = codes "CREATE DATABASE " ++ q ++ owner ++ encoding ++ template; args = [] })

unfoldable pub create_table_statement : CreateTableDef → Result Error Statement
create_table_statement def = do
  stmt ← build_create_table Kind.postgres def
  ok (record { text = stmt; args = [] })

unfoldable pub create_view_statement : Text → Text → Text → Result Error Statement
create_view_statement schema name sql = do
  q ← qualified Kind.postgres schema name
  ok (record { text = codes "CREATE VIEW " ++ q ++ codes " AS " ++ sql; args = [] })

unfoldable pub create_index_statement : IndexDef → Result Error Statement
create_index_statement def = do
  stmt ← build_create_index Kind.postgres def
  ok (record { text = stmt; args = [] })

-- `$i`, `$i+1`, … for the values.
unfoldable pub placeholders : Values → ℕ → List Text
placeholders [] i = []
placeholders (kv ∷ values) i = (b'$' ∷ decimal i) ∷ placeholders values (suc i)

unfoldable pub insert_statement : ObjectRef → Values → Result Error Statement
unfolding placeholders
insert_statement ref values = do
  cols ← quote_columns Kind.postgres values
  tbl ← qualified Kind.postgres ref.schema ref.name
  ok (record {
    text =
        codes "INSERT INTO "
        ++ tbl
        ++ codes " ("
        ++ join cols (codes ", ")
        ++ codes ") VALUES ("
        ++ join (placeholders values 1) (codes ", ")
        ++ codes ")";
    args = values_of values;
  })

unfoldable pub update_statement : ObjectRef → Values → Values → Result Error Statement
update_statement ref [] values = err no_primary_key
update_statement ref (k ∷ pk) values = do
  sets ← numbered_terms values 1
  wheres ← numbered_terms (k ∷ pk) (1 + length values)
  tbl ← qualified Kind.postgres ref.schema ref.name
  ok (record {
    text =
        codes "UPDATE "
        ++ tbl
        ++ codes " SET "
        ++ join sets (codes ", ")
        ++ codes " WHERE "
        ++ join wheres (codes " AND ");
    args = values_of values ++ values_of (k ∷ pk);
  })

unfoldable pub delete_statement : ObjectRef → Values → Result Error Statement
delete_statement ref [] = err no_primary_key
delete_statement ref (k ∷ pk) = do
  wheres ← numbered_terms (k ∷ pk) 1
  tbl ← qualified Kind.postgres ref.schema ref.name
  ok (record {
    text = codes "DELETE FROM " ++ tbl ++ codes " WHERE " ++ join wheres (codes " AND ");
    args = values_of (k ∷ pk);
  })

module _ (db : Client) where
  open db use {State}

  pub sample_rows : ObjectRef → Page → State → Result Error RowSet × State
  sample_rows ref page = sample db (sample_statement ref page) (pos (suc (sample_limit page.limit)))

  pub count_rows : ObjectRef → State → Result Error ℤ × State
  count_rows ref = count db (count_statement ref)

  pub create_database : Text → DatabaseOpts → State → Result Error (Unit {0}) × State
  create_database name opts = perform db (create_database_statement name opts)

  pub create_table : CreateTableDef → State → Result Error (Unit {0}) × State
  create_table def = perform db (create_table_statement def)

  pub create_view : Text → Text → Text → State → Result Error (Unit {0}) × State
  create_view schema name sql = perform db (create_view_statement schema name sql)

  pub create_index : IndexDef → State → Result Error (Unit {0}) × State
  create_index def = perform db (create_index_statement def)

  pub insert_row : ObjectRef → Values → State → Result Error (Unit {0}) × State
  insert_row ref values = perform db (insert_statement ref values)

  pub update_row : ObjectRef → Values → Values → State → Result Error (Unit {0}) × State
  update_row ref pk values = perform db (update_statement ref pk values)

  pub delete_row : ObjectRef → Values → State → Result Error (Unit {0}) × State
  delete_row ref pk = perform db (delete_statement ref pk)
