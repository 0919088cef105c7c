-- ===== src/Dbx/Postgres/Laws.antt =====
-- The placeholders of the statements that update and delete rows: internal/dbx/pg.go.
use mathlib.Core.List.{cons-ne-nil}
use debeasy.Base.{◌+◌, ◌≡◌, ◌≢◌, sym, ◌∙◌, [], ◌∷◌, ◌++◌, ok, >>=-eq-ok, length}
use debeasy.Base.Text.{codes, join}
use debeasy.Dbx.Driver.{postgres, ObjectRef}
use debeasy.Dbx.Identifier.{qualified}
use debeasy.Dbx.Sql.{Values, Statement, numbered_terms, values_of}
use debeasy.Dbx.Sql.Placeholders.{bindings}
use debeasy.Dbx.Sql.Terms.{numbered, after, read_table, numbered_terms-AllRead, values_of-append}
use debeasy.Dbx.Sql.Statements.{ReadsTable, read_delete, read_update}
use debeasy.Dbx.Postgres.{update_statement, delete_statement}

-- The database reads the placeholders as the columns in order, each bound to the argument that
-- carries its value.
abbrev pub Binds : Statement → Values → Type 0
Binds stmt values =
    (bindings postgres stmt.text ≡ numbered values 1) × (stmt.args ≡ values_of values)

-- A DELETE that is sent has a key, and the database reads its text as one placeholder for each key
-- column, numbered `$n` in the order of the arguments, which are the key's values.
pub delete_postgres_Binds :
    (ref : ObjectRef) (pk : Values) (stmt : Statement)
    → delete_statement ref pk ≡ ok stmt
    → (pk ≢ []) × Binds stmt pk
unfolding delete_statement
delete_postgres_Binds ref [] stmt h = cc
delete_postgres_Binds ref (kv ∷ pk) stmt h =
    let (wheres, ew, e1) = >>=-eq-ok (numbered_terms (kv ∷ pk) 1) _ h in
    let (tbl, et, e2) = >>=-eq-ok (qualified postgres ref.schema ref.name) _ e1 in
    let text : stmt.text
        ≡ codes "DELETE FROM " ++ tbl ++ codes " WHERE " ++ join wheres (codes " AND ") =
      cc in
    let args : stmt.args ≡ values_of (kv ∷ pk) = cc in
    let table : ReadsTable postgres tbl =
      (ref.name, λ last next rest. read_table postgres next last ref.schema ref.name tbl rest et) in
    (
      cons-ne-nil kv pk,
      (
        rw text (
            read_delete postgres (λ n. n) tbl wheres (kv ∷ pk) table
              (numbered_terms-AllRead (kv ∷ pk) 1 1 wheres ew)),
        args,
      ),
    )

-- An UPDATE that is sent has a key, and the database reads its text as one placeholder for each
-- column that is set and then one for each key column, numbered `$n` in the order of the arguments: the new
-- values and then the key's.
pub update_postgres_Binds :
    (ref : ObjectRef) (pk values : Values) (stmt : Statement)
    → update_statement ref pk values ≡ ok stmt
    → (pk ≢ []) × Binds stmt (values ++ pk)
unfolding update_statement
update_postgres_Binds ref [] values stmt h = cc
update_postgres_Binds ref (kv ∷ pk) values stmt h =
    let (sets, es, e0) = >>=-eq-ok (numbered_terms values 1) _ h in
    let (wheres, ew, e1) = >>=-eq-ok (numbered_terms (kv ∷ pk) (1 + length values)) _ e0 in
    let (tbl, et, e2) = >>=-eq-ok (qualified postgres ref.schema ref.name) _ e1 in
    let text : stmt.text
        ≡ codes "UPDATE "
          ++ tbl
          ++ codes " SET "
          ++ join sets (codes ", ")
          ++ codes " WHERE "
          ++ join wheres (codes " AND ") =
      cc in
    let args : stmt.args ≡ values_of values ++ values_of (kv ∷ pk) = cc in
    let table : ReadsTable postgres tbl =
      (ref.name, λ last next rest. read_table postgres next last ref.schema ref.name tbl rest et) in
    (
      cons-ne-nil kv pk,
      (
        rw text (
            read_update postgres (λ n. n) tbl wheres (kv ∷ pk) sets values table
              (numbered_terms-AllRead values 1 1 sets es)
              (numbered_terms-AllRead (kv ∷ pk) (1 + length values)
                (after postgres (λ n. n) values 1) wheres ew)),
        args ∙ sym (values_of-append values (kv ∷ pk)),
      ),
    )
