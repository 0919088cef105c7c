-- ===== src/Dbx/Exec/Statements.antt =====
-- Which statements `runStatements` of internal/dbx/exec.go executes.
use debeasy.Base.{
  ◌≡◌, refl, sym, ap, ◌∙◌, ◌≢◌, not, List, [], ◌∷◌, ◌++◌, map, append_assoc, append-nil, ok, err,
  arith, select, is_empty, Bool-cases, inl, inr,
}
use mathlib.Core.List.{cons-ne-nil, map-append}
use debeasy.Base.Text.{Text, trim_space}
use debeasy.Base.Int.{ℤ}
use debeasy.Dbx.Driver.{no_statement, StatementResult}
use debeasy.Dbx.Exec.{
  Database, query_result, exec_result, exec_one, run_all, or_no_statement, run_statements,
  split_sql,
}

-- The statements of the editor's text: its parts, trimmed, without the empty ones.
abbrev pub statements : Text → List Text
statements sql = select (λ s. not (is_empty s)) (map trim_space (split_sql sql))

abbrev texts : List StatementResult → List Text
texts = map (λ r. r.sql)

texts-append :
    (rs : List StatementResult) (r : StatementResult)
    → texts (rs ++ r ∷ []) ≡ texts rs ++ r.sql ∷ []
texts-append rs r = map-append (λ (x : StatementResult). x.sql) rs (r ∷ [])

module _ (db : Database) where
  open db use {State}

  exec_one-sql : (stmt : Text) (max : ℤ) (s : State) → (exec_one db stmt max s).0.sql ≡ stmt
  unfolding exec_one query_result exec_result
  exec_one-sql stmt max s = ground arith

  run_all-texts :
      (ps : List Text) (max : ℤ) (s : State) (out : List StatementResult)
      → texts (run_all db ps max s out).0
        ≡ texts out ++ select (λ p. not (is_empty p)) (map trim_space ps)
  unfolding run_all
  run_all-texts [] max s out = sym (append-nil _)
  run_all-texts (p ∷ ps) max s out = elim (Bool-cases (is_empty (trim_space p))) [
    | inl e ↦ rw e (run_all-texts ps max s out)
    | inr e ↦
        let (r, s') = exec_one db (trim_space p) max s in
        let here = exec_one-sql (trim_space p) max s in
        rw e
          (run_all-texts ps max s' (out ++ r ∷ []) ∙ simp (texts-append out r, here, append_assoc))
  ]

  run_all_none :
      (ps : List Text) (max : ℤ) (s : State) (out : List StatementResult)
      → select (λ p. not (is_empty p)) (map trim_space ps) ≡ []
      → run_all db ps max s out ≡ (out, s)
  unfolding run_all
  run_all_none [] max s out h = refl
  run_all_none (p ∷ ps) max s out h = elim (Bool-cases (is_empty (trim_space p))) [
    | inl e ↦ rw e (run_all_none ps max s out (rw e at h))
    | inr e ↦ absurd (cons-ne-nil _ _ (rw e at h))
  ]

  or_no_statement_some :
      (p : List StatementResult × State) (ts : List Text)
      → texts p.0 ≡ ts
      → ts ≢ []
      → (rs : List StatementResult) × ((or_no_statement db p).0 ≡ ok rs) × (texts rs ≡ ts)
  or_no_statement_some ([], s) ts e h = absurd (h (sym e))
  or_no_statement_some (r ∷ rs, s) ts e h = (r ∷ rs, refl, e)

-- `runStatements` on every text: with no statement in it the call fails and the database is not
-- touched; else it succeeds with one result for each statement, in order, and goes on past a
-- statement that fails.
pub run_statements-texts :
    (db : Database) (sql : Text) (max : ℤ) (s : db.State)
    → ((statements sql ≡ []) → run_statements db sql max s ≡ (err no_statement, s))
      × ((statements sql ≢ [])
          → (rs : List StatementResult) × ((run_statements db sql max s).0 ≡ ok rs)
            × (map (λ r. r.sql) rs ≡ statements sql))
unfolding run_statements
run_statements-texts db sql max s = (
  λ h. ap (or_no_statement db) (run_all_none db (split_sql sql) max s [] h),
  or_no_statement_some db (run_all db (split_sql sql) max s []) (statements sql)
      (run_all-texts db (split_sql sql) max s []),
)
