-- ===== src/Server/Routes.antt =====
-- internal/server/server.go: `routes` and `firstRunRedirect`. A request's path is given as its
-- segments, and a parameter's text is the segment. The files under /static are a parameter.
pub mod Guarded
pub mod Pages
use debeasy.Base.{
  ℕ, Bool, true, false, not, ◌&&◌, ◌||◌, Option, none, some, List, [], ◌∷◌, ◌++◌, Result, ok, err,
  if◌then◌else◌, ◌==◌, is_empty, any,
}
use debeasy.Base.Text.{Text, codes, ◌≗◌}
use debeasy.Store
use debeasy.Store.Users as Accounts
use debeasy.Server.Request.{Request}
use debeasy.Server.Pages.{plain, message, empty_body, Response, page, failure, see_other}
use debeasy.Server.App.{App, Context, Handler, Env}
use debeasy.Server.Middleware.{Access, anyone, users_only, admins_only, guard, chain}
use debeasy.Server.Handlers.Auth.{
  handle_setup_form, handle_setup_submit, handle_login_form, handle_login_submit, handle_logout,
}
use debeasy.Server.Handlers.Users.{
  handle_users_list, handle_user_create, handle_user_set_disabled, handle_user_reset,
}
use debeasy.Server.Handlers.Connections.{
  handle_connections_list, handle_connection_form, handle_connection_edit_form,
  handle_connection_create, handle_connection_update, handle_connection_delete,
  handle_connection_test,
}
use debeasy.Server.Handlers.Query.{handle_query}
use debeasy.Server.Handlers.Browse.{handle_home, handle_connection_app, handle_tree, handle_history}
use debeasy.Server.Handlers.Rows.{
  handle_object_detail, handle_object_data, handle_row_form, handle_row_insert,
  handle_row_edit_form, handle_row_update, handle_row_delete,
}
use debeasy.Server.Handlers.Create.{
  handle_create_db_form, handle_create_db, handle_create_table_form, handle_create_table,
  handle_create_view_form, handle_create_view, handle_create_index_form, handle_create_index,
}

-- A segment of a pattern; `rest` is the `*` at the end of one.
pub data Segment : Type 0 where
  lit : Text → Segment
  param rest : Segment

-- A method, or any of them, for a pattern.
pub record Route (W : Type 0) : Type 0 where
  pub method : Option Text
  pub pattern : List Segment
  pub access : Access
  pub handler : List Text → Handler W

abbrev with_param : Text → Option (List Text) → Option (List Text)
with_param s none = none
with_param s (some params) = some (s ∷ params)

-- The parameters of a path that the pattern matches. A parameter is not empty.
unfoldable pub match_path : List Segment → List Text → Option (List Text)
match_path [] [] = some []
match_path [] (s ∷ path) = none
match_path (p ∷ pattern) [] = none
match_path (lit l ∷ pattern) (s ∷ path) =
    let found = match_path pattern path in if l ≗ s then found else none
match_path (param ∷ pattern) (s ∷ path) =
    let found = match_path pattern path in if is_empty s then none else with_param s found
match_path (rest ∷ pattern) (s ∷ path) = some []

abbrev pub takes_method : Option Text → Text → Bool
takes_method none method = true
takes_method (some m) method = m ≗ method

abbrev id_param : List Segment
id_param = lit (codes "conn") ∷ param ∷ []

abbrev table_params : List Segment → List Segment
table_params more = lit (codes "conn") ∷ param ∷ lit (codes "object") ∷ param ∷ param ∷ more

abbrev create_path : Text → List Segment
create_path what = lit (codes "conn") ∷ param ∷ lit (codes "create") ∷ lit what ∷ []

-- The paths that the redirection to the first set-up leaves alone.
unfoldable pub skips_first_run : List Text → Bool
skips_first_run [] = false
skips_first_run (s ∷ []) = s ≗ codes "setup" || s ≗ codes "healthz"
skips_first_run (s ∷ t ∷ path) = s ≗ codes "static"

module _ {W : Type 0} where
  abbrev get : Access → List Segment → (List Text → Handler W) → Route W
  get access pattern h = record {
    method = some (codes "GET");
    pattern = pattern;
    access = access;
    handler = h;
  }

  abbrev post : Access → List Segment → (List Text → Handler W) → Route W
  post access pattern h = record {
    method = some (codes "POST");
    pattern = pattern;
    access = access;
    handler = h;
  }

  pub not_found : Handler W
  not_found c r a = (failure 404 (plain (codes "404 page not found")), a)

  -- chi answers a method that no route of the path has with an empty body.
  pub not_allowed : Handler W
  not_allowed c r a = (page 405 empty_body, a)

  -- A handler for a pattern with no, one or three parameters.
  abbrev plainly : Handler W → List Text → Handler W
  plainly h params = h

  abbrev pub for_id : (Text → Handler W) → List Text → Handler W
  for_id h (id ∷ []) = h id
  for_id h _ = not_found

  abbrev for_table : (Text → Text → Text → Handler W) → List Text → Handler W
  for_table h (id ∷ schema ∷ name ∷ []) = h id schema name
  for_table h _ = not_found

  -- A route whose pattern matches is taken for its method.
  abbrev pub chosen :
      Route W
      → Text
      → Option (Route W × List Text)
      → Option (List Text)
      → Option (Route W × List Text)
  chosen t method later none = later
  chosen t method later (some params) =
      if takes_method t.method method then some (t, params) else later

  -- The first route for the method and the path, with the parameters.
  unfoldable pub find_route : List (Route W) → Text → List Text → Option (Route W × List Text)
  find_route [] method path = none
  find_route (t ∷ ts) method path =
      chosen t method (find_route ts method path) (match_path t.pattern path)

  abbrev matches : List Text → Route W → Bool
  matches path t = elim (match_path t.pattern path) [ none ↦ false | some params ↦ true ]

  abbrev pub unrouted : Bool → Handler W
  unrouted true = not_allowed
  unrouted false = not_found

  -- What the router calls, behind the gates of the route's group.
  unfoldable pub routed : List (Route W) → List Text → Option (Route W × List Text) → Handler W
  routed ts path (some (t, params)) = guard t.access (t.handler params)
  routed ts path none = unrouted (any (matches path) ts)

  pub handle_healthz : Handler W
  handle_healthz c r a = (page 200 (message (plain (codes "ok"))), a)

module _ {W : Type 0} (env : Env W) (static : Handler W) where
  abbrev public_routes : List (Route W)
  public_routes =
      record {
        method = none;
        pattern = lit (codes "static") ∷ rest ∷ [];
        access = anyone;
        handler = plainly static;
      }
      ∷ get anyone (lit (codes "healthz") ∷ []) (plainly handle_healthz)
      ∷ get anyone (lit (codes "setup") ∷ []) (plainly (handle_setup_form env))
      ∷ post anyone (lit (codes "setup") ∷ []) (plainly (handle_setup_submit env))
      ∷ get anyone (lit (codes "login") ∷ []) (plainly (handle_login_form env))
      ∷ post anyone (lit (codes "login") ∷ []) (plainly (handle_login_submit env))
      ∷ post anyone (lit (codes "logout") ∷ []) (plainly (handle_logout env))
      ∷ []

  -- A fixed segment stands in front of a parameter in its place, as chi prefers it.
  abbrev connection_routes : List (Route W)
  connection_routes =
      get users_only [] (plainly (handle_home env))
      ∷ get users_only (lit (codes "connections") ∷ []) (plainly (handle_connections_list env))
      ∷ get users_only (lit (codes "connections") ∷ lit (codes "new") ∷ [])
          (plainly (handle_connection_form env))
      ∷ post users_only (lit (codes "connections") ∷ []) (plainly (handle_connection_create env))
      ∷ get users_only (lit (codes "connections") ∷ param ∷ lit (codes "edit") ∷ [])
          (for_id (handle_connection_edit_form env))
      ∷ post users_only (lit (codes "connections") ∷ lit (codes "test") ∷ [])
          (plainly (handle_connection_test env))
      ∷ post users_only (lit (codes "connections") ∷ param ∷ [])
          (for_id (handle_connection_update env))
      ∷ post users_only (lit (codes "connections") ∷ param ∷ lit (codes "delete") ∷ [])
          (for_id (handle_connection_delete env))
      ∷ get users_only id_param (for_id (handle_connection_app env))
      ∷ get users_only (lit (codes "conn") ∷ param ∷ lit (codes "tree") ∷ [])
          (for_id (handle_tree env))
      ∷ post users_only (lit (codes "conn") ∷ param ∷ lit (codes "query") ∷ [])
          (for_id (handle_query env))
      ∷ get users_only (lit (codes "conn") ∷ param ∷ lit (codes "history") ∷ [])
          (for_id (λ id. handle_history env))
      ∷ []

  abbrev create_routes : List (Route W)
  create_routes =
      get users_only (create_path (codes "database")) (for_id (handle_create_db_form env))
      ∷ post users_only (create_path (codes "database")) (for_id (handle_create_db env))
      ∷ get users_only (create_path (codes "table")) (for_id (handle_create_table_form env))
      ∷ post users_only (create_path (codes "table")) (for_id (handle_create_table env))
      ∷ get users_only (create_path (codes "view")) (for_id (handle_create_view_form env))
      ∷ post users_only (create_path (codes "view")) (for_id (handle_create_view env))
      ∷ get users_only (create_path (codes "index")) (for_id (handle_create_index_form env))
      ∷ post users_only (create_path (codes "index")) (for_id (handle_create_index env))
      ∷ []

  abbrev table_routes : List (Route W)
  table_routes =
      get users_only (table_params []) (for_table (handle_object_detail env))
      ∷ get users_only (table_params (lit (codes "data") ∷ [])) (for_table (handle_object_data env))
      ∷ get users_only (table_params (lit (codes "row") ∷ lit (codes "new") ∷ []))
          (for_table (handle_row_form env))
      ∷ post users_only (table_params (lit (codes "row") ∷ [])) (for_table (handle_row_insert env))
      ∷ get users_only (table_params (lit (codes "row") ∷ lit (codes "edit") ∷ []))
          (for_table (handle_row_edit_form env))
      ∷ post users_only (table_params (lit (codes "row") ∷ lit (codes "update") ∷ []))
          (for_table (handle_row_update env))
      ∷ post users_only (table_params (lit (codes "row") ∷ lit (codes "delete") ∷ []))
          (for_table (handle_row_delete env))
      ∷ []

  abbrev admin_routes : List (Route W)
  admin_routes =
      get admins_only (lit (codes "users") ∷ []) (plainly (handle_users_list env))
      ∷ post admins_only (lit (codes "users") ∷ []) (plainly (handle_user_create env))
      ∷ post admins_only (lit (codes "users") ∷ param ∷ lit (codes "disable") ∷ [])
          (for_id (handle_user_set_disabled env true))
      ∷ post admins_only (lit (codes "users") ∷ param ∷ lit (codes "enable") ∷ [])
          (for_id (handle_user_set_disabled env false))
      ∷ post admins_only (lit (codes "users") ∷ param ∷ lit (codes "reset") ∷ [])
          (for_id (handle_user_reset env))
      ∷ []

  unfoldable pub routes : List (Route W)
  routes = public_routes ++ (connection_routes ++ (create_routes ++ (table_routes ++ admin_routes)))

  unfoldable pub serve_routes : Request → App W → Response × App W
  serve_routes r a =
      chain env.decode_cookie env.now (routed routes r.path (find_route routes r.method r.path)) r a

  abbrev pub first_run : Request → App W → Result Store.Error ℕ → Response × App W
  first_run r a (err e) = serve_routes r a
  first_run r a (ok n) = if n == 0 then (see_other (codes "/setup"), a) else serve_routes r a

  -- `firstRunRedirect` around the router.
  unfoldable pub serve : Request → App W → Response × App W
  serve r a =
      if skips_first_run r.path then serve_routes r a else first_run r a (Accounts.count a.store)
