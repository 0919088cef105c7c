-- ===== src/Server/Handlers/Browse.antt =====
-- internal/server/handlers_app.go: the home page, a connection's page, its tree, and the history.
use debeasy.Base.{ℕ, List, Option, none, some, Result, ok, err, if◌then◌else◌, is_empty}
use debeasy.Base.Text.{Text, codes}
use debeasy.Base.Int.{ℤ, pos}
use debeasy.Store
use debeasy.Store.{HistoryRow}
use debeasy.Store.Connections.{Connection}
use debeasy.Store.History as QueryHistory
use debeasy.Dbx.Driver.{Error, Schema, ObjectTree, default_schema}
use debeasy.Dbx.Pool.{GetError}
use debeasy.Server.Request.{value_of, int_param}
use debeasy.Server.Pages.{
  of_store, of_driver, home, connections, home_page, conn_app, conn_error, tree, history, Response,
  page, failure,
}
use debeasy.Server.App.{
  App, Context, Handler, Env, layout, resolve_conn, operate, user_id, get_connection,
  list_connections, pool_get, or_empty,
}

module _ {W : Type 0} (env : Env W) where
  unfoldable pub handle_home : Handler W
  handle_home c r a = (
    page 200
        (home_page (layout env c a (codes "debeasy") home) (or_empty (list_connections env a))),
    a,
  )

  -- The page of an open connection, with what the driver could list.
  abbrev opened : Context → Connection → ℕ → App W → Response × App W
  opened c conn d a =
      let (dbs, a1) = operate (env.drivers.list_databases d) a in
      let (schemas, a2) = operate (env.drivers.list_schemas d conn.database) a1 in
      let def = default_schema (env.drivers.kind d) conn.database schemas.0 in
      (page 200 (conn_app (layout env c a2 conn.name connections) conn dbs.0 schemas.0 def), a2)

  abbrev app_driver : Context → Connection → Result GetError ℕ × App W → Response × App W
  app_driver c conn (err e, a) =
      (page 200 (conn_error (layout env c a conn.name connections) conn e), a)
  app_driver c conn (ok d, a) = opened c conn d a

  abbrev app_connection : Context → ℤ → App W → Result Store.Error Connection → Response × App W
  app_connection c id a (err e) = (failure 404 (of_store e), a)
  app_connection c id a (ok conn) = app_driver c conn (pool_get env a id)

  unfoldable pub handle_connection_app : Text → Handler W
  handle_connection_app id c r a =
      app_connection c (int_param id) a (get_connection env a (int_param id))

  -- The schema of the query, or the driver's default.
  abbrev tree_schema :
      Connection → ℕ → Text → (List Schema × Option Error) × App W → Result Error Text × App W
  tree_schema conn d schema ((schemas, some e), a) = (err e, a)
  tree_schema conn d schema ((schemas, none), a) =
      (ok (default_schema (env.drivers.kind d) conn.database schemas), a)

  abbrev chosen_schema : Connection → ℕ → Text → App W → Result Error Text × App W
  chosen_schema conn d schema a =
      if is_empty schema
      then tree_schema conn d schema (operate (env.drivers.list_schemas d conn.database) a)
      else (ok schema, a)

  abbrev listed : Connection → Text → Result Error ObjectTree × App W → Response × App W
  listed conn schema (err e, a) = (failure 502 (of_driver e), a)
  listed conn schema (ok objects, a) = (page 200 (tree conn schema objects), a)

  abbrev in_schema : Connection → ℕ → Result Error Text × App W → Response × App W
  in_schema conn d (err e, a) = (failure 502 (of_driver e), a)
  in_schema conn d (ok schema, a) =
      listed conn schema (operate (env.drivers.list_objects d conn.database schema) a)

  unfoldable pub handle_tree : Text → Handler W
  handle_tree id c r a =
      resolve_conn env id
        (λ conn d a'.
          in_schema conn d (chosen_schema conn d (value_of r.query (codes "schema")) a'))
        a

  abbrev recent_entries : Result Store.Error (List HistoryRow) → Response
  recent_entries (err e) = failure 500 (of_store e)
  recent_entries (ok entries) = page 200 (history entries)

  unfoldable pub handle_history : Handler W
  handle_history c r a = (recent_entries (QueryHistory.recent a.store (user_id c) (pos 50)), a)
