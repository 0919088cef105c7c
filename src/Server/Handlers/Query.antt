-- ===== src/Server/Handlers/Query.antt =====
-- internal/server/handlers_query.go: the SQL editor's query, with its entries in the history.
pub mod Recorded
use debeasy.Base.{
  ℕ, Bool, true, false, Option, none, some, List, [], ◌∷◌, Result, ok, err, if◌then◌else◌, is_empty,
}
use debeasy.Base.Text.{Text, codes, trim_space}
use debeasy.Base.Int.{ℤ, pos}
use debeasy.Store.{Store}
use debeasy.Store.Connections.{Connection}
use debeasy.Store.History as QueryHistory
use debeasy.Store.History.{HistoryEntry}
use debeasy.Dbx.Driver.{Error, StatementResult}
use debeasy.Dbx.Messages.{error_text}
use debeasy.Server.Request.{Request, form_value, form_int}
use debeasy.Server.Pages.{plain, of_driver, query_results, Response, page}
use debeasy.Server.App.{App, Context, Handler, Env, resolve_conn, operate, user_id}

-- `nullableErr`
abbrev pub nullable_err : Text → Option Text
nullable_err msg = if is_empty msg then none else some msg

-- The entry for a query that could not be run.
abbrev pub failed_entry : ℕ → Connection → Text → Error → HistoryEntry
failed_entry user conn sql e = record {
  user_id = user;
  connection_id = some conn.id;
  sql = sql;
  elapsed_ms = 0;
  rows_affected = pos 0;
  error = some (error_text e);
}

-- The entry for one statement.
abbrev pub result_entry : ℕ → Connection → StatementResult → HistoryEntry
result_entry user conn res = record {
  user_id = user;
  connection_id = some conn.id;
  sql = res.sql;
  elapsed_ms = res.stats.elapsed_ms;
  rows_affected = res.stats.rows_affected;
  error = nullable_err res.error;
}

-- The errors of the history are ignored.
abbrev pub record_entry : HistoryEntry → Text → Store → Store
record_entry e now s = (QueryHistory.append s e now).1

unfoldable pub record_results : ℕ → Connection → List StatementResult → Text → Store → Store
record_results user conn [] now s = s
record_results user conn (res ∷ results) now s =
    record_results user conn results now (record_entry (result_entry user conn res) now s)

module _ {W : Type 0} (env : Env W) where
  abbrev pub queried :
      ℕ → Connection → Text → Result Error (List StatementResult) × App W → Response × App W
  queried user conn sql (err e, a) = (
    page 200 (query_results conn [] (some (of_driver e))),
    record a { store = record_entry (failed_entry user conn sql e) env.now_text a.store },
  )
  queried user conn sql (ok results, a) = (
    page 200 (query_results conn results none),
    record a { store = record_results user conn results env.now_text a.store },
  )

  abbrev pub run_query : Context → Request → Connection → ℕ → App W → Response × App W
  run_query c r conn d a =
      let sql = trim_space (form_value r (codes "sql")) in
      let max_rows = form_int r (codes "max_rows") (pos 1000) in
      if is_empty sql
      then (page 200 (query_results conn [] (some (plain (codes "empty query")))), a)
      else queried (user_id c) conn sql (operate (env.drivers.exec d sql max_rows) a)

  unfoldable pub handle_query : Text → Handler W
  handle_query id c r a = resolve_conn env id (run_query c r) a
