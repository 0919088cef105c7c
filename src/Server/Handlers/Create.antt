-- ===== src/Server/Handlers/Create.antt =====
-- internal/server/handlers_create.go: the forms that create databases, tables, views and indexes.
use debeasy.Base.{true, Option, none, some, Result, ok, err}
use debeasy.Base.Text.{Text, codes}
use debeasy.Store
use debeasy.Store.Connections.{Connection}
use debeasy.Dbx.Driver.{Error}
use debeasy.Server.Request.{
  form_value, value_of, int_param, parse_create_table_form, index_from_form, database_from_form,
}
use debeasy.Server.Pages.{
  Message, of_store, of_driver, Body, empty_body, create_db, create_table_form, create_view_form,
  create_index_form, Response, page, failure, triggered,
}
use debeasy.Server.App.{App, Handler, Env, resolve_conn, operate, get_connection}

module _ {W : Type 0} (env : Env W) where
  abbrev shown : (Connection → Body) → Result Store.Error Connection → Response
  shown body (err e) = failure 404 (of_store e)
  shown body (ok conn) = page 200 (body conn)

  -- A form for a connection, which need not be open.
  abbrev form_for : Text → (Connection → Body) → App W → Response × App W
  form_for id body a = (shown body (get_connection env a (int_param id)), a)

  -- The form again with the error, or the event that the page listens for.
  abbrev pub answered :
      Response → (Option Message → Body) → Result Error (Unit {0}) × App W → Response × App W
  answered done form (err e, a) = (page 400 (form (some (of_driver e))), a)
  answered done form (ok _, a) = (done, a)

  abbrev refreshed : Response
  refreshed = record (page 204 empty_body) { hx_refresh = true }

  abbrev tree_refresh : Response
  tree_refresh = triggered (codes "tree-refresh")

  unfoldable pub handle_create_db_form : Text → Handler W
  handle_create_db_form id c r a = form_for id (λ conn. create_db conn none) a

  unfoldable pub handle_create_db : Text → Handler W
  handle_create_db id c r a =
      resolve_conn env id
        (λ conn d a'. answered refreshed (create_db conn) (
          operate
            (env.drivers.create_database d (form_value r (codes "name")) (database_from_form r))
            a'))
        a

  unfoldable pub handle_create_table_form : Text → Handler W
  handle_create_table_form id c r a =
      form_for id (λ conn. create_table_form conn (value_of r.query (codes "schema")) none) a

  unfoldable pub handle_create_table : Text → Handler W
  handle_create_table id c r a =
      resolve_conn env id
        (λ conn d a'.
          let def = parse_create_table_form r in
          answered tree_refresh (create_table_form conn def.schema)
            (operate (env.drivers.create_table d def) a'))
        a

  unfoldable pub handle_create_view_form : Text → Handler W
  handle_create_view_form id c r a =
      form_for id (λ conn. create_view_form conn (value_of r.query (codes "schema")) none) a

  unfoldable pub handle_create_view : Text → Handler W
  handle_create_view id c r a =
      resolve_conn env id
        (λ conn d a'.
          let schema = form_value r (codes "schema") in
          answered tree_refresh (create_view_form conn schema) (
            operate
              (env.drivers.create_view d schema (form_value r (codes "name"))
                (form_value r (codes "sql")))
              a'))
        a

  unfoldable pub handle_create_index_form : Text → Handler W
  handle_create_index_form id c r a =
      form_for id
        (λ conn.
          create_index_form conn (value_of r.query (codes "schema"))
            (value_of r.query (codes "table")) none)
        a

  unfoldable pub handle_create_index : Text → Handler W
  handle_create_index id c r a =
      resolve_conn env id
        (λ conn d a'.
          let def = index_from_form r in
          answered tree_refresh (create_index_form conn def.schema def.table)
            (operate (env.drivers.create_index d def) a'))
        a
