-- ===== src/Dbx/Sql.antt =====
-- What internal/dbx/pg.go, mysql.go and sqlite.go share: statements with their arguments, the
-- database they are sent to, and the clauses that the three drivers write in the same way. Go's map
-- of column values is the list of its entries in the order in which `range` delivers them.
pub mod Placeholders
pub mod Terms
pub mod Statements
use debeasy.Base.{
  ℕ, suc, Bool, true, false, List, [], ◌∷◌, ◌++◌, Result, ok, err, ◌>>=◌, map_err, if◌then◌else◌,
  is_empty, ltb, ◌+◌,
}
use debeasy.Base.Text.{Text, codes}
use debeasy.Base.Int.{ℤ, pos, negsuc, leb_ℤ}
use debeasy.Base.Decimal.{decimal, decimal_int}
use debeasy.Dbx.Driver.{Kind, Error, backend, Page, RowSet}
use debeasy.Dbx.Identifier.{quote_ident}
use debeasy.Dbx.Exec.{Rows, read_rows}

abbrev pub Values : Type 0
Values = List (Text × Text)

pub record Statement : Type 0 where
  pub text : Text
  pub args : List Text

-- The database behind a driver and its client library: `ExecContext`, `QueryContext` and the scan
-- of a count by `QueryRowContext`.
pub record Client : Type 1 where
  pub State : Type 0
  pub exec : Statement → State → Result Text (Unit {0}) × State
  pub query : Text → State → Result Text Rows × State
  pub query_count : Text → State → Result Text ℤ × State

module _ (db : Client) where
  open db use {State, exec, query, query_count}

  -- A statement that was built is sent; the error of one that was not is returned.
  abbrev pub perform : Result Error Statement → State → Result Error (Unit {0}) × State
  perform (err e) s = (err e, s)
  perform (ok stmt) s = (map_err backend (exec stmt s).0, (exec stmt s).1)

  -- The rows of a page, read by `readRows` with a bound.
  abbrev pub sample : Result Error Text → ℤ → State → Result Error RowSet × State
  sample (err e) max s = (err e, s)
  sample (ok text) max s = (
    map_err backend ((query text s).0 >>= λ rows. read_rows rows max >>= λ read. ok read.0),
    (query text s).1,
  )

  abbrev pub count : Result Error Text → State → Result Error ℤ × State
  count (err e) s = (err e, s)
  count (ok text) s = (map_err backend (query_count text s).0, (query_count text s).1)

-- `if limit <= 0 { limit = 100 }`
abbrev pub sample_limit : ℤ → ℕ
sample_limit (pos n) = if ltb 0 n then n else 100
sample_limit (negsuc n) = 100

-- The ORDER BY clause of `SampleRows`.
unfoldable pub order_clause : Kind → Page → Result Error Text
order_clause kind page =
    if is_empty page.order_by
    then ok []
    else (quote_ident kind page.order_by >>= λ col.
        ok (codes " ORDER BY " ++ col ++ (if page.desc then codes " DESC" else codes " ASC")))

abbrev pub sample_text : Text → Text → Page → Text
sample_text table order page =
    codes "SELECT * FROM "
    ++ table
    ++ order
    ++ codes " LIMIT "
    ++ decimal (sample_limit page.limit)
    ++ codes " OFFSET "
    ++ decimal_int page.offset

-- The columns of an INSERT, quoted.
unfoldable pub quote_columns : Kind → Values → Result Error (List Text)
quote_columns kind [] = ok []
quote_columns kind ((k, v) ∷ values) = do
  col ← quote_ident kind k
  cols ← quote_columns kind values
  ok (col ∷ cols)

-- The loop of MySQL and SQLite over SET columns or key columns: `col=?`.
unfoldable pub terms : Kind → Values → Result Error (List Text)
terms kind [] = ok []
terms kind ((k, v) ∷ values) = do
  col ← quote_ident kind k
  rest ← terms kind values
  ok ((col ++ codes "=?") ∷ rest)

-- That of PostgreSQL, with the placeholder numbered from `i` on: `col=$i`.
unfoldable pub numbered_terms : Values → ℕ → Result Error (List Text)
numbered_terms [] i = ok []
numbered_terms ((k, v) ∷ values) i = do
  col ← quote_ident Kind.postgres k
  rest ← numbered_terms values (suc i)
  ok ((col ++ codes "=$" ++ decimal i) ∷ rest)

abbrev pub values_of : Values → List Text
values_of [] = []
values_of ((k, v) ∷ values) = v ∷ values_of values
