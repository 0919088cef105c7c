-- ===== src/Server/Tests.antt =====
-- The theorems on the middleware, at concrete inputs.
use Prim.Native.Nat.{min}
use debeasy.Base.{
  ap, sym, is_empty, ℕ, suc, ◌/◌, ◌≡◌, refl, true, false, List, [], ◌∷◌, none, some, Result, ok,
}
use debeasy.Base.Text.{Text, codes, ◌≗◌, join, is_space, trim_space, trim_left, trim_right}
use debeasy.Base.Decimal.{decimal, decimal_int}
use debeasy.Base.Text.Laws.{≗_refl}
use debeasy.Base.Int.{pos}
use debeasy.Base.Number.{parse_int, scan_digits}
use debeasy.Store.{Store, UserRow, ConnectionRow, empty}
use debeasy.Store.Users.{User, Bcrypt, verify, verify_row, same_name}
use debeasy.Store.Sessions.{session_row, create, insert_session, after_insert}
use debeasy.Store.Connections.{Connection, scan, valid_kind, update, run_update, update_with}
use debeasy.Dbx.Driver.{Error, TableDef, table, sqlite, StatementResult}
use debeasy.Dbx.Pool.{new_pool}
use debeasy.Server.Request.{Request, Fields, value_of, int_param, split_csv, connection_from_form}
use debeasy.Server.Request.Forms.{Field, named, blank, split_csv-join}
use debeasy.Server.Pages.{empty_body, cookie_set, page}
use debeasy.Server.App.{App, Handler, Drivers, Env, anonymous}
use debeasy.Server.Middleware.{admins_only}
use debeasy.Server.Handlers.Users.{handle_user_reset}
use debeasy.Server.Handlers.Auth.{start_session, handle_login_submit}
use debeasy.Server.Handlers.Auth.Cookie.{IsCodec}
use debeasy.Server.Handlers.Auth.Login.{Recognised, handle_login_submit-Recognised}
use debeasy.Server.Handlers.Connections.{handle_connection_update, handle_connection_delete}
use debeasy.Server.Handlers.Connections.Pooled.{
  Updated, save, Unpooled, handle_connection_update-Updated,
}
use debeasy.Server.Handlers.Rows.{insert_values, update_values, update_key}
use debeasy.Server.Handlers.Rows.Forms
use debeasy.Server.Handlers.Rows.Forms.{insert_values-update_values}
use debeasy.Server.Routes.Pages.{app_route, find_route-conn_url}
use debeasy.Server.Routes.{lit, param, Route, for_id, match_path, find_route, routes, serve}
use debeasy.Server.Routes.Guarded.{Served, serve-Served}
use debeasy.Server.RateLimit.{lookup, store, allow, client_ip}
use debeasy.Server.RateLimit.Burst.{allowed, allowed-min}

abbrev root_row : UserRow
root_row = record {
  id = 1;
  username = codes "root";
  password_hash = codes "password1";
  role = codes "admin";
  disabled = false;
  created_at = [];
}

abbrev logged_in : Store
logged_in = record empty {
  users = root_row ∷ [];
  sessions = session_row (codes "sid") (codes "csrf") 1 12000000000 ∷ [];
}

abbrev post_to : List Text → Fields → Request
post_to path form = record {
  method = codes "POST";
  path = path;
  query = [];
  post_form = form;
  cookie = some (codes "sid");
  csrf_header = codes "csrf";
  htmx = [];
  forwarded = [];
  remote = codes "1.2.3.4:5";
}

accepted :
    (password hash : Text)
    → ◌≡◌ {A = Result Text Text} (ok password) (ok hash)
    → (hash ≗ password) ≡ true
accepted password hash h = let same : password ≡ hash = cc in rw same (≗_refl hash)

abbrev identity_hash : Bcrypt
identity_hash = record {
  generate = λ password salt. ok password;
  compare_hash = λ hash password. hash ≗ password;
  accepts = λ password salt hash h. accepted password hash h;
}

abbrev one_table : TableDef
one_table = record {
  ref = record { db = []; schema = codes "main"; name = codes "t" };
  kind = table;
  columns =
      record {
        name = codes "a";
        data_type = codes "int";
        nullable = true;
        default = [];
        is_pk = true;
        ordinal_pos = pos 1;
      }
      ∷ [];
  indexes = [];
  fks = [];
  row_count = pos 0;
  ddl = [];
}

abbrev statement_result : Text → StatementResult
statement_result sql = record {
  sql = sql;
  is_query = false;
  rows = none;
  stats = record { rows_affected = pos 1; elapsed_ms = 2 };
  error = [];
}

abbrev nothing_done {ℓ} : {A : Type ℓ} → A → Unit {0} → Result Error A × Unit {0}
nothing_done x w = (ok x, w)

-- A driver whose database does as it is told.
abbrev willing : Drivers (Unit {0})
willing = record {
  kind = λ d. sqlite;
  list_databases = λ d w. (([], none), w);
  list_schemas = λ d db w. (([], none), w);
  list_objects =
      λ d db schema. nothing_done (record { tables = []; views = []; indexes = []; other = [] });
  describe_table = λ d ref. nothing_done one_table;
  sample_rows =
      λ d ref p. nothing_done (record { columns = []; types = []; rows = []; truncated = false });
  create_database = λ d name opts. nothing_done tt;
  create_table = λ d def. nothing_done tt;
  create_view = λ d schema name sql. nothing_done tt;
  create_index = λ d def. nothing_done tt;
  insert_row = λ d ref values. nothing_done tt;
  update_row = λ d ref pk values. nothing_done tt;
  delete_row = λ d ref pk. nothing_done tt;
  exec = λ d sql max. nothing_done (statement_result sql ∷ []);
}

-- One token every ten seconds.
abbrev slow : ℕ → ℕ
slow span = span / 10000000000

abbrev env : Env (Unit {0})
env = record {
  keyring = none;
  bcrypt = identity_hash;
  drivers = willing;
  dial = λ k c n. ok tt;
  ping = λ d. none;
  decode_cookie = some;
  encode_cookie = λ sid. ok sid;
  refill = slow;
  now = 0;
  later = 1;
  now_text = codes "now";
  salt = 0;
  nonce = ok [];
  new_sid = ok (codes "sid2");
  new_csrf = ok (codes "csrf2");
}

abbrev app : App (Unit {0})
app = record { store = logged_in; pool = new_pool; limiter = []; updates = none; outside = tt }

abbrev static : Handler (Unit {0})
static c r a = (page 200 empty_body, a)

-- The route of `POST /users/2/reset`.
abbrev reset_path : List Text
reset_path = codes "users" ∷ codes "2" ∷ codes "reset" ∷ []

abbrev reset_route : Route (Unit {0})
reset_route = record {
  method = some (codes "POST");
  pattern = lit (codes "users") ∷ param ∷ lit (codes "reset") ∷ [];
  access = admins_only;
  handler = for_id (handle_user_reset env);
}

serve-Served_example :
    Served env static
      (reset_route.handler (codes "2" ∷ []))
      (post_to reset_path [])
      app
      (serve env static (post_to reset_path []) app)
unfolding routes find_route match_path ◌≗◌
serve-Served_example =
    serve-Served env static (post_to reset_path []) app reset_route (codes "2" ∷ []) refl tt

allowed-min_example : allowed slow (codes "1.2.3.4") [] (100 ∷ 200 ∷ 300 ∷ []) ≡ min 10 (suc 2)
unfolding lookup
allowed-min_example =
    allowed-min slow (codes "1.2.3.4") [] 100 (200 ∷ 300 ∷ []) refl (refl, (refl, (refl, tt)))

-- Root's password is that of the row above.
abbrev login : Request
login =
    post_to (codes "login" ∷ [])
      ((codes "username", codes "Root") ∷ (codes "password", codes "password1") ∷ [])

env-IsCodec : IsCodec env
env-IsCodec = record {
  decodes = λ sid v h. ap some (sym (ok_inj h));
  filled = λ sid h. filled_sid h;
}
  where
    ok_inj : {x y : Text} → ◌≡◌ {A = Result Text Text} (ok x) (ok y) → x ≡ y
    ok_inj h = cc

    filled_sid :
        {sid : Text}
        → ◌≡◌ {A = Result Text Text} (ok (codes "sid2")) (ok sid)
        → is_empty sid ≡ false
    filled_sid {sid = sid} h = let same : codes "sid2" ≡ sid = ok_inj h in rw (← same) refl

login_cookie : (handle_login_submit env anonymous login app).0.cookie ≡ cookie_set (codes "sid2")
unfolding handle_login_submit start_session value_of ◌≗◌ verify verify_row same_name create
    insert_session after_insert allow client_ip lookup store empty
login_cookie = refl

handle_login_submit-Recognised_example :
    (u : User) × (verify identity_hash logged_in (codes "Root") (codes "password1") ≡ ok u)
    × Recognised env u (codes "sid2") (handle_login_submit env anonymous login app).1
unfolding value_of ◌≗◌
handle_login_submit-Recognised_example =
    handle_login_submit-Recognised env anonymous login app (codes "sid2") env-IsCodec login_cookie

abbrev shop_row : ConnectionRow
shop_row = record {
  id = 1;
  name = codes "shop";
  kind = codes "sqlite";
  host = [];
  port = pos 0;
  username = [];
  password_enc = none;
  database = codes "shop.db";
  sslmode = [];
  params = [];
  created_by = some 1;
}

abbrev shop_app : App (Unit {0})
shop_app = record app { store = record logged_in { connections = shop_row ∷ [] } }

abbrev shop : Connection
unfolding scan
shop = scan none shop_row

abbrev outcome : Result Error (List StatementResult)
outcome =
    ok (statement_result (codes "DELETE FROM a") ∷ statement_result (codes "DELETE FROM b") ∷ [])

abbrev change : Request
change =
    post_to (codes "connections" ∷ codes "1" ∷ [])
      ((codes "name", codes "shop") ∷ (codes "kind", codes "sqlite") ∷ [])

handle_connection_update-Updated_example :
    Updated env
      (pos 1)
      change
      shop_app
      (save env (pos 1) change shop_app)
      (handle_connection_update env (codes "1") anonymous change shop_app)
    × Unpooled (pos 1) (handle_connection_delete env (codes "1") anonymous change shop_app).1
unfolding parse_int scan_digits
handle_connection_update-Updated_example =
    handle_connection_update-Updated env (codes "1") anonymous change shop_app

-- The outcome of that change is that it is saved.
change_saved : (save env (pos 1) change shop_app).0 ≡ ok tt
unfolding update update_with run_update valid_kind value_of trim_space trim_left trim_right is_space
    ◌≗◌ empty connection_from_form
change_saved = refl

abbrev saved_row : Request
saved_row = post_to [] ((codes "null_a", codes "on") ∷ [])

insert_values-update_values_example :
    (Forms.lookup (insert_values saved_row one_table.columns) (codes "a") ≡ none)
    × (Forms.lookup (update_values saved_row one_table.columns) (codes "a") ≡ some [])
    × (Forms.lookup (update_key saved_row one_table.columns) (codes "a") ≡ some [])
unfolding value_of ◌≗◌
insert_values-update_values_example =
    insert_values-update_values saved_row one_table.columns (codes "a")

abbrev column_fields : List Field
column_fields =
    named (codes " ") (codes "a b") [] ∷ blank (codes " ") ∷ named [] (codes "c") (codes "  ") ∷ []

split_csv-join_example : split_csv (codes " a b, ,c  ") ≡ codes "a b" ∷ codes "c" ∷ []
unfolding join is_space
split_csv-join_example =
    split_csv-join column_fields
      (
        ((refl, tt), ((b'a', codes " b", refl, refl), (b'b', codes " a", refl, refl)), tt),
        (
          (refl, tt),
          ((tt, ((b'c', [], refl, refl), (b'c', [], refl, refl)), (refl, (refl, tt))), tt),
        ),
      )
      ((refl, (refl, (refl, (refl, tt)))), ((refl, tt), ((refl, (refl, (refl, tt))), tt)))

find_route-conn_url_example :
    (find_route (routes env static) (codes "GET") (codes "conn" ∷ codes "42" ∷ [])
      ≡ some (app_route env, codes "42" ∷ []))
    × (int_param (codes "42") ≡ pos 42)
unfolding decimal_int decimal
find_route-conn_url_example = find_route-conn_url env static (pos 42) refl
