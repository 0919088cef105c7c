-- ===== src/Dbx/Exec/Tests.antt =====
-- The theorems on the execution of statements, at concrete inputs.
use debeasy.Base.{
  ℕ, ◌≡◌, ◌≢◌, refl, true, false, List, [], ◌∷◌, ◌++◌, map, none, some, Result, ok, err, All,
  if◌then◌else◌,
}
use debeasy.Base.Text.{Text, codes}
use debeasy.Base.Int.{pos}
use debeasy.Dbx.Driver.{no_statement, Value, StatementResult, RowSet}
use debeasy.Dbx.Exec.{
  split_sql, Rows, normalise_value, read_rows, Database, run_statements, is_blank,
}
use debeasy.Dbx.Exec.Splitting.{outside, IsStatement, NoBareSemicolon, terminated, split_sql_lem}
use debeasy.Dbx.Exec.Running.{Within, Stopped, read_rows_sound}
use debeasy.Dbx.Exec.Statements.{statements, run_statements-texts}

abbrev script : Text
script = codes "SELECT ';'; DELETE FROM t"

split_sql_lem_example :
    (body : List Text) × (last : Text) × All IsStatement body
    × NoBareSemicolon outside last
    × (script ≡ terminated body ++ last)
    × (split_sql script ≡ body ++ (if is_blank last then [] else last ∷ []))
split_sql_lem_example = split_sql_lem script

abbrev three_rows : Rows
three_rows = record {
  columns = ok (codes "id" ∷ []);
  types = [];
  scans = ok (Value.int (pos 1) ∷ []) ∷ ok (Value.bytes (codes "x") ∷ []) ∷ ok [] ∷ [];
  end_error = none;
}

abbrev two_rows : RowSet
two_rows = record {
  columns = codes "id" ∷ [];
  types = [] ∷ [];
  rows = (Value.int (pos 1) ∷ []) ∷ (Value.string (codes "x") ∷ []) ∷ [];
  truncated = false;
}

read_rows_sound_example :
    (vs : List (List Value)) × (rest : List (Result Text (List Value))) × (three_rows.scans
      ≡ map ok vs ++ rest)
    × (two_rows.rows ≡ map (map normalise_value) vs)
    × Within (pos 2) 2
    × Stopped (pos 2) 2 none rest true
unfolding read_rows normalise_value
read_rows_sound_example = read_rows_sound three_rows (pos 2) two_rows true refl

-- A database that counts the statements it runs and affects one row with each.
abbrev counting : Database
counting = record {
  State = ℕ;
  query = λ sql n. ((ok three_rows, 0), n);
  exec = λ sql n. ((ok (some (pos 1)), 0), n);
}

run_statements-texts_example :
    ((statements script ≡ []) → run_statements counting script (pos 10) 0 ≡ (err no_statement, 0))
    × ((statements script ≢ [])
        → (rs : List StatementResult) × ((run_statements counting script (pos 10) 0).0 ≡ ok rs)
          × (map (λ r. r.sql) rs ≡ statements script))
run_statements-texts_example = run_statements-texts counting script (pos 10) 0
