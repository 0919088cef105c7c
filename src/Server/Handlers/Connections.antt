-- ===== src/Server/Handlers/Connections.antt =====
-- internal/server/handlers_connections.go: the pages of saved connections.
pub mod Pooled
use debeasy.Base.{
  ℕ, Bool, true, false, not, ◌||◌, Option, none, some, List, [], ◌∷◌, ◌++◌, Result, ok, err,
  if◌then◌else◌, is_empty,
}
use debeasy.Base.Text.{Text, codes, ◌≗◌}
use debeasy.Base.Int.{ℤ, pos}
use debeasy.Base.Decimal.{decimal_int}
use debeasy.Store
use debeasy.Store.{Store}
use debeasy.Store.Connections as Saved
use debeasy.Store.Connections.{Connection}
use debeasy.Dbx.Driver.{Error}
use debeasy.Dbx.Pool.{Pool, evict}
use debeasy.Dbx.Pool
use debeasy.Server.Request.{Request, form_value, connection_from_form, int_param, is_htmx}
use debeasy.Server.Pages.{
  Message, of_store, no_nav, connections, connections_page, connection_form, test_result, Response,
  page, failure, see_other, hx_navigate,
}
use debeasy.Server.App.{
  App, Context, Handler, Env, layout, row_id, user_id, get_connection, list_connections, backend,
}

abbrev pub conn_url : ℤ → Text
conn_url id = codes "/conn/" ++ decimal_int id

abbrev edit_url : ℤ → Text
edit_url id = codes "/connections/" ++ decimal_int id

-- The connection that the empty form starts with.
abbrev new_connection : Connection
new_connection = record {
  id = 0;
  name = [];
  kind = codes "postgres";
  host = [];
  port = pos 0;
  username = [];
  password = [];
  database = [];
  sslmode = [];
  params = [];
  created_by = none;
}

-- The connection that the form describes, for an id; "clear" empties its password.
abbrev pub clears_password : Request → Bool
clears_password r = form_value r (codes "password_clear") ≗ codes "on"

abbrev pub edited : Request → ℤ → Connection
edited r id =
    let c = connection_from_form r in
    record c { id = row_id id; password = if clears_password r then [] else c.password }

abbrev pub updates_password : Request → Bool
updates_password r = not (is_empty (form_value r (codes "password"))) || clears_password r

module _ {W : Type 0} (env : Env W) where
  abbrev connections_list : Context → App W → Result Store.Error (List Connection) → Response
  connections_list c a (err e) = failure 500 (of_store e)
  connections_list c a (ok conns) =
      page 200 (connections_page (layout env c a (codes "Connections") connections) conns)

  unfoldable pub handle_connections_list : Handler W
  handle_connections_list c r a = (connections_list c a (list_connections env a), a)

  unfoldable pub handle_connection_form : Handler W
  handle_connection_form c r a = (
    page 200 (
        connection_form (layout env c a (codes "New connection") connections) (record {
          conn = new_connection;
          is_edit = false;
          error = none;
          action = codes "/connections";
        })),
    a,
  )

  abbrev edit_form : Context → App W → ℤ → Result Store.Error Connection → Response
  edit_form c a id (err e) = failure 404 (of_store e)
  edit_form c a id (ok conn) = page 200 (
      connection_form (layout env c a (codes "Edit connection") connections)
        (record { conn = conn; is_edit = true; error = none; action = edit_url id }))

  unfoldable pub handle_connection_edit_form : Text → Handler W
  handle_connection_edit_form id c r a =
      (edit_form c a (int_param id) (get_connection env a (int_param id)), a)

  abbrev pub created :
      Context → Connection → App W → Result Store.Error Connection × Store → Response × App W
  created c conn a (err e, s) =
      let a' = record a { store = s } in
      (
        page 400 (
            connection_form (layout env c a' (codes "New connection") no_nav) (record {
              conn = conn;
              is_edit = false;
              error = some (of_store e);
              action = codes "/connections";
            })),
        a',
      )
  created c conn a (ok saved, s) = (see_other (conn_url (pos saved.id)), record a { store = s })

  unfoldable pub handle_connection_create : Handler W
  handle_connection_create c r a =
      let conn = connection_from_form r in
      created c conn a (Saved.create a.store env.keyring conn (user_id c) env.nonce)

  abbrev pub evicted : App W → ℤ → App W
  evicted a id = record a { pool = evict a.pool (row_id id) }

  abbrev pub updated :
      Context → ℤ → Connection → App W → Result Store.Error (Unit {0}) × Store → Response × App W
  updated c id conn a (err e, s) =
      let a' = record a { store = s } in
      (
        page 400 (
            connection_form (layout env c a' (codes "Edit connection") no_nav) (record {
              conn = conn;
              is_edit = true;
              error = some (of_store e);
              action = edit_url id;
            })),
        a',
      )
  updated c id conn a (ok _, s) = (see_other (conn_url id), evicted (record a { store = s }) id)

  unfoldable pub handle_connection_update : Text → Handler W
  handle_connection_update id c r a =
      let conn = edited r (int_param id) in
      updated c (int_param id) conn a
        (Saved.update a.store env.keyring conn (updates_password r) env.nonce)

  abbrev pub deleted : Request → App W → Result Store.Error (Unit {0}) × Store → Response × App W
  deleted r a (err e, s) = (failure 500 (of_store e), record a { store = s })
  deleted r a (ok _, s) = (
    if is_htmx r then hx_navigate 204 (codes "/connections") else see_other (codes "/connections"),
    record a { store = s },
  )

  -- The driver is evicted before the connection is deleted.
  unfoldable pub handle_connection_delete : Text → Handler W
  handle_connection_delete id c r a =
      let a' = evicted a (int_param id) in
      deleted r a' (Saved.delete a'.store (row_id (int_param id)))

  abbrev tested : App W → Result Error (Unit {0}) × Pool → Response × App W
  tested a (err e, p) = (page 200 (test_result (some e)), record a { pool = p })
  tested a (ok _, p) = (page 200 (test_result none), record a { pool = p })

  unfoldable pub handle_connection_test : Handler W
  handle_connection_test c r a =
      tested a (Pool.test (backend env a) a.pool (connection_from_form r))
