-- ===== src/Dbx/Exec.antt =====
-- internal/dbx/exec.go: splitting of the editor's text into statements, and their execution.
-- The database behind `*sql.DB` is a parameter, `Database`: a state, and what a query and a command
-- answer in it. The elapsed time comes with the answer.
pub mod Splitting
pub mod Running
pub mod Statements
mod Tests
use debeasy.Base.{
  ℕ, zero, suc, Bool, true, false, not, ◌&&◌, ◌||◌, Option, none, some, List, [], ◌∷◌, ◌++◌, map,
  Result, ok, err, ◌>>=◌, if◌then◌else◌, ltb, leb, ◌==◌, length, is_empty, any,
}
use debeasy.Base.Text.{Text, codes, is_space, trim_left, trim_space, has_prefix, to_upper}
use debeasy.Base.Int.{ℤ, pos, negsuc}
use debeasy.Dbx.Driver.{
  Error, no_statement, Value, nil, string, bytes, time, bool, int, float, RowSet, ExecStats,
  StatementResult,
}

-- The variables of the loop of `splitSQL`.
pub record Scan : Type 0 where
  pub in_s : Bool
  pub in_d : Bool
  pub cur : Text
  pub out : List Text

-- One round: the four cases of the `switch`.
scan_byte : Scan → ℕ → Scan
scan_byte st c =
    if c == b'\'' && not st.in_d
    then record st { in_s = not st.in_s; cur = st.cur ++ c ∷ [] }
    else if c == b'"' && not st.in_s
    then record st { in_d = not st.in_d; cur = st.cur ++ c ∷ [] }
    else if c == b';' && (not st.in_s && not st.in_d)
    then record st { out = st.out ++ st.cur ∷ []; cur = [] }
    else record st { cur = st.cur ++ c ∷ [] }

scan_all : Scan → Text → Scan
scan_all st [] = st
scan_all st (c ∷ s) = scan_all (scan_byte st c) s

abbrev pub is_blank : Text → Bool
is_blank s = is_empty (trim_space s)

abbrev last_part : Text → List Text
last_part cur = if is_blank cur then [] else cur ∷ []

unfoldable pub split_sql : Text → List Text
unfolding scan_byte scan_all
split_sql s =
    let st = scan_all (record { in_s = false; in_d = false; cur = []; out = [] }) s in
    st.out ++ last_part st.cur

-- The cut set " \t\n\r(".
abbrev is_lead : ℕ → Bool
is_lead c = c == 32 || (c == 9 || (c == 10 || (c == 13 || c == b'(')))

abbrev keywords : List Text
keywords =
    codes "SELECT"
    ∷ codes "WITH"
    ∷ codes "SHOW"
    ∷ codes "EXPLAIN"
    ∷ codes "PRAGMA"
    ∷ codes "VALUES"
    ∷ codes "TABLE "
    ∷ codes "DESCRIBE "
    ∷ codes "DESC "
    ∷ []

unfoldable pub looks_like_query : Text → Bool
looks_like_query s =
    let t = map to_upper (trim_left is_lead s) in any (λ kw. has_prefix t kw) keywords

-- Text as such, a time as its print; anything else is passed on.
unfoldable pub normalise_value : Value → Value
normalise_value (bytes x) = string x
normalise_value (time x) = string x
normalise_value v = v

-- What an open cursor delivers: the columns, the names of their types, the outcome of each `Scan`,
-- and the error that `rows.Err` has at the end.
pub record Rows : Type 0 where
  pub columns : Result Text (List Text)
  pub types : List Text
  pub scans : List (Result Text (List Value))
  pub end_error : Option Text

-- `rs.Types` has a place for each column, and the names that there are fill it from the front.
fill_types : List Text → List Text → List Text
fill_types [] types = []
fill_types (c ∷ cols) [] = [] ∷ fill_types cols []
fill_types (c ∷ cols) (t ∷ types) = t ∷ fill_types cols types

-- `maxRows > 0 && count >= maxRows`
abbrev full : ℤ → ℕ → Bool
full (pos zero) count = false
full (pos (suc n)) count = leb (suc n) count
full (negsuc n) count = false

-- The loop of `readRows`, from the rows read so far; the flag says that rows were left.
read_loop :
    List (Result Text (List Value))
    → Option Text
    → ℤ
    → ℕ
    → List (List Value)
    → Result Text (List (List Value) × Bool)
read_loop [] none max count rows = ok (rows, false)
read_loop [] (some e) max count rows = err e
read_loop (err e ∷ scans) end max count rows = if full max count then ok (rows, true) else err e
read_loop (ok raw ∷ scans) end max count rows =
    let more = read_loop scans end max (suc count) (rows ++ map normalise_value raw ∷ []) in
    if full max count then ok (rows, true) else more

unfoldable pub read_rows : Rows → ℤ → Result Text (RowSet × Bool)
unfolding read_loop fill_types
read_rows rows max = do
  cols ← rows.columns
  read ← read_loop rows.scans rows.end_error max 0 []
  ok (
    record { columns = cols; types = fill_types cols rows.types; rows = read.0; truncated = false },
    read.1,
  )

-- The database and its client library.
pub record Database : Type 1 where
  pub State : Type 0
  pub query : Text → State → (Result Text Rows × ℕ) × State
  -- the rows affected, where the driver reports them
  pub exec : Text → State → (Result Text (Option ℤ) × ℕ) × State

abbrev stats : ℤ → ℕ → ExecStats
stats n ms = record { rows_affected = n; elapsed_ms = ms }

abbrev failed : Text → Bool → Text → ℕ → StatementResult
failed sql is_query msg ms = record {
  sql = sql;
  is_query = is_query;
  rows = none;
  stats = stats (pos 0) ms;
  error = msg;
}

-- The branches of `execOne`, on what the database answered.
query_result : Text → ℤ → Result Text Rows × ℕ → StatementResult
query_result stmt max (err e, ms) = failed stmt true e ms
query_result stmt max (ok rows, ms) = elim (read_rows rows max) [
  | err e ↦ failed stmt true e ms
  | ok (rs, trunc) ↦ record {
    sql = stmt;
    is_query = true;
    rows = some (record rs { truncated = trunc });
    stats = stats (pos (length rs.rows)) ms;
    error = [];
  }
]

abbrev affected : Option ℤ → ℤ
affected none = pos 0
affected (some n) = n

exec_result : Text → Result Text (Option ℤ) × ℕ → StatementResult
exec_result stmt (err e, ms) = failed stmt false e ms
exec_result stmt (ok n, ms) = record {
  sql = stmt;
  is_query = false;
  rows = none;
  stats = stats (affected n) ms;
  error = [];
}

module _ (db : Database) where
  open db use {State, query, exec}

  pub exec_one : Text → ℤ → State → StatementResult × State
  exec_one stmt max s =
      if looks_like_query stmt
      then (query_result stmt max (query stmt s).0, (query stmt s).1)
      else (exec_result stmt (exec stmt s).0, (exec stmt s).1)

  -- The loop of `runStatements`.
  run_all : List Text → ℤ → State → List StatementResult → List StatementResult × State
  run_all [] max s out = (out, s)
  run_all (p ∷ ps) max s out =
      let stmt = trim_space p in
      let (r, s') = exec_one stmt max s in
      let skipped = run_all ps max s out in
      let done = run_all ps max s' (out ++ r ∷ []) in if is_empty stmt then skipped else done

  abbrev or_no_statement :
      List StatementResult × State → Result Error (List StatementResult) × State
  or_no_statement ([], s) = (err no_statement, s)
  or_no_statement (r ∷ rs, s) = (ok (r ∷ rs), s)

  pub run_statements : Text → ℤ → State → Result Error (List StatementResult) × State
  unfolding run_all
  run_statements sql max s = or_no_statement (run_all (split_sql sql) max s [])
