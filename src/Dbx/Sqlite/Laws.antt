-- ===== src/Dbx/Sqlite/Laws.antt =====
-- The placeholders of the statements that update and delete rows: internal/dbx/sqlite.go.
use mathlib.Core.List.{cons-ne-nil}
use debeasy.Base.{ℕ, suc, ◌+◌, ◌≡◌, ◌≢◌, sym, subst, ◌∙◌, [], ◌∷◌, ◌++◌, ok, >>=-eq-ok, length}
use debeasy.Base.Text.{codes, join}
use debeasy.Dbx.Driver.{sqlite, ObjectRef}
use debeasy.Dbx.Identifier.{quote_ident}
use debeasy.Dbx.Sql.{Values, Statement, terms, values_of}
use debeasy.Dbx.Sql.Placeholders.{bindings, read_name}
use debeasy.Dbx.Sql.Terms.{numbered, after-suc, AllRead, terms-AllRead, values_of-append}
use debeasy.Dbx.Sql.Statements.{ReadsTable, read_delete, read_update}
use debeasy.Dbx.Sqlite.{update_statement, delete_statement}

-- The database reads the placeholders as the columns in order, each bound to the argument that
-- carries its value.
abbrev pub Binds : Statement → Values → Type 0
Binds stmt values = (bindings sqlite stmt.text ≡ numbered values 1) × (stmt.args ≡ values_of values)

-- A DELETE that is sent has a key, and the database reads its text as one placeholder for each key
-- column, marked `?` in the order of the arguments, which are the key's values.
pub delete_sqlite_Binds :
    (ref : ObjectRef) (pk : Values) (stmt : Statement)
    → delete_statement ref pk ≡ ok stmt
    → (pk ≢ []) × Binds stmt pk
unfolding delete_statement
delete_sqlite_Binds ref [] stmt h = cc
delete_sqlite_Binds ref (kv ∷ pk) stmt h =
    let (wheres, ew, e1) = >>=-eq-ok (terms sqlite (kv ∷ pk)) _ h in
    let (tbl, et, e2) = >>=-eq-ok (quote_ident sqlite ref.name) _ e1 in
    let text : stmt.text
        ≡ codes "DELETE FROM " ++ tbl ++ codes " WHERE " ++ join wheres (codes " AND ") =
      cc in
    let args : stmt.args ≡ values_of (kv ∷ pk) = cc in
    let table : ReadsTable sqlite tbl =
      (ref.name, λ last next rest. read_name sqlite next last ref.name tbl rest et) in
    (
      cons-ne-nil kv pk,
      (
        rw text (
            read_delete sqlite suc tbl wheres (kv ∷ pk) table
              (terms-AllRead sqlite (kv ∷ pk) 1 wheres ew)),
        args,
      ),
    )

-- An UPDATE that is sent has a key, and the database reads its text as one placeholder for each
-- column that is set and then one for each key column, marked `?` in the order of the arguments: the new
-- values and then the key's.
pub update_sqlite_Binds :
    (ref : ObjectRef) (pk values : Values) (stmt : Statement)
    → update_statement ref pk values ≡ ok stmt
    → (pk ≢ []) × Binds stmt (values ++ pk)
unfolding update_statement
update_sqlite_Binds ref [] values stmt h = cc
update_sqlite_Binds ref (kv ∷ pk) values stmt h =
    let (sets, es, e0) = >>=-eq-ok (terms sqlite values) _ h in
    let (wheres, ew, e1) = >>=-eq-ok (terms sqlite (kv ∷ pk)) _ e0 in
    let (tbl, et, e2) = >>=-eq-ok (quote_ident sqlite ref.name) _ e1 in
    let text : stmt.text
        ≡ codes "UPDATE "
          ++ tbl
          ++ codes " SET "
          ++ join sets (codes ", ")
          ++ codes " WHERE "
          ++ join wheres (codes " AND ") =
      cc in
    let args : stmt.args ≡ values_of values ++ values_of (kv ∷ pk) = cc in
    let table : ReadsTable sqlite tbl =
      (ref.name, λ last next rest. read_name sqlite next last ref.name tbl rest et) in
    (
      cons-ne-nil kv pk,
      (
        rw text (
            read_update sqlite suc tbl wheres (kv ∷ pk) sets values table
              (terms-AllRead sqlite values 1 sets es)
              (subst (λ (n : ℕ). AllRead sqlite suc wheres (kv ∷ pk) (1 + length values) n)
                (sym (after-suc sqlite values 1))
                (terms-AllRead sqlite (kv ∷ pk) (1 + length values) wheres ew))),
        args ∙ sym (values_of-append values (kv ∷ pk)),
      ),
    )
