-- ===== src/Server/App.antt =====
-- internal/server/server.go and helpers.go: what the handlers share. A handler takes the request's
-- context, the request and the application's state to a response and the state.
use debeasy.Base.{ℕ, Option, none, some, List, [], Result, ok, err, if◌then◌else◌}
use debeasy.Base.Text.{Text}
use debeasy.Base.Int.{ℤ, pos, negsuc}
use debeasy.Crypto.{Aead}
use debeasy.Store
use debeasy.Store.{Store}
use debeasy.Store.Users.{User, Bcrypt, is_admin}
use debeasy.Store.Sessions.{Session}
use debeasy.Store.Connections
use debeasy.Store.Connections.{Connection}
use debeasy.Dbx.Driver.{
  Kind, Error, DatabaseInfo, Schema, ObjectTree, ObjectRef, TableDef, Page, RowSet, DatabaseOpts,
  CreateTableDef, IndexDef, StatementResult,
}
use debeasy.Dbx.Sql.{Values}
use debeasy.Dbx.Pool
use debeasy.Dbx.Pool.{Pool, GetError, Backend}
use debeasy.Updates.{Checker}
use debeasy.Server.RateLimit.{Limiter}
use debeasy.Server.Request.{Request, int_param}
use debeasy.Server.Pages.{
  of_store, of_pool, of_driver, Nav, UpdateNotice, Layout, Response, failure,
}

-- `outside` is the state of the databases behind the drivers.
pub record App (W : Type 0) : Type 0 where
  pub store : Store
  pub pool : Pool
  pub limiter : Limiter
  pub updates : Option Checker
  pub outside : W

-- The values that `withUser` and `withSession` put into the request's context.
pub record Context : Type 0 where
  pub user : Option User
  pub session : Option Session

abbrev pub anonymous : Context
anonymous = record { user = none; session = none }

abbrev pub Handler : Type 0 → Type 0
Handler W = Context → Request → App W → Response × App W

-- `dbx.Driver`: what the driver of a number does to the databases. A `Reply` is what an operation
-- returns, and the databases after it.
abbrev pub Reply : Type 0 → Type 0 → Type 0
Reply W A = W → Result Error A × W

pub record Drivers (W : Type 0) : Type 0 where
  pub kind : ℕ → Kind
  -- A list, and the error that may be beside it.
  pub list_databases : ℕ → W → (List DatabaseInfo × Option Error) × W
  pub list_schemas : ℕ → Text → W → (List Schema × Option Error) × W
  pub list_objects : ℕ → Text → Text → Reply W ObjectTree
  pub describe_table : ℕ → ObjectRef → Reply W TableDef
  pub sample_rows : ℕ → ObjectRef → Page → Reply W RowSet
  pub create_database : ℕ → Text → DatabaseOpts → Reply W (Unit {0})
  pub create_table : ℕ → CreateTableDef → Reply W (Unit {0})
  pub create_view : ℕ → Text → Text → Text → Reply W (Unit {0})
  pub create_index : ℕ → IndexDef → Reply W (Unit {0})
  pub insert_row : ℕ → ObjectRef → Values → Reply W (Unit {0})
  pub update_row : ℕ → ObjectRef → Values → Values → Reply W (Unit {0})
  pub delete_row : ℕ → ObjectRef → Values → Reply W (Unit {0})
  pub exec : ℕ → Text → ℤ → Reply W (List StatementResult)

-- What the server takes from outside; the times, the salt, the nonce and the random texts are those of
-- the request at hand.
pub record Env (W : Type 0) : Type 0 where
  pub keyring : Option Aead
  pub bcrypt : Bcrypt
  pub drivers : Drivers W
  pub dial : Kind → Connection → ℕ → Result Text (Unit {0})
  pub ping : ℕ → Option Text
  pub decode_cookie : Text → Option Text
  pub encode_cookie : Text → Result Text Text
  pub refill : ℕ → ℕ
  pub now : ℕ
  pub later : ℕ
  pub now_text : Text
  pub salt : ℕ
  pub nonce : Result Text Text
  pub new_sid : Result Text Text
  pub new_csrf : Result Text Text

-- Ids start at 1: no row has an id below.
abbrev pub row_id : ℤ → ℕ
row_id (pos n) = n
row_id (negsuc n) = 0

abbrev pub csrf_of : Context → Text
csrf_of c = elim (c.session) [ none ↦ [] | some sess ↦ sess.csrf_token ]

-- `CurrentUser(r).ID`, behind `requireAuth`, which lets no request without a user pass.
abbrev pub user_id : Context → ℕ
user_id c = elim (c.user) [ none ↦ 0 | some u ↦ u.id ]

-- The release that administrators are told of.
abbrev notice : Option Checker → Option User → Option UpdateNotice
notice none user = none
notice (some ch) none = none
notice (some ch) (some u) =
    if is_admin u
    then elim (ch.latest) [
      | none ↦ none
      | some r ↦ some (record { version = r.tag; current = ch.current_version; url = r.url })
    ]
    else none

-- The list, or nothing for an error.
abbrev pub or_empty {ℓ κ} : {E : Type ℓ} {A : Type κ} → Result E (List A) → List A
or_empty (err e) = []
or_empty (ok items) = items

abbrev pub ref_of : Text → Text → ObjectRef
ref_of schema name = record { db = []; schema = schema; name = name }

module _ (W : Type 0) where
  -- What a handler does with the connection and its driver.
  abbrev pub Continue : Type 0
  Continue = Connection → ℕ → App W → Response × App W

  -- And with the table that the URL names.
  abbrev pub ContinueTable : Type 0
  ContinueTable = Connection → ℕ → ObjectRef → TableDef → App W → Response × App W

module _ {W : Type 0} where
  abbrev pub with_pool : App W → Result GetError ℕ × Pool → Result GetError ℕ × App W
  with_pool a (r, p) = (r, record a { pool = p })

  -- An operation of a driver.
  abbrev pub with_outside {ℓ} : {A : Type ℓ} → App W → A × W → A × App W
  with_outside a (r, w) = (r, record a { outside = w })

  abbrev pub operate : {A : Type 0} → (W → A × W) → App W → A × App W
  operate op a = with_outside a (op a.outside)

  abbrev pub with_driver : Connection → Continue W → Result GetError ℕ × App W → Response × App W
  with_driver conn next (err e, a) = (failure 502 (of_pool e), a)
  with_driver conn next (ok d, a) = next conn d a

  abbrev pub with_table :
      Connection
      → ℕ
      → ObjectRef
      → ContinueTable W
      → Result Error TableDef × App W
      → Response × App W
  with_table conn d ref next (err e, a) = (failure 502 (of_driver e), a)
  with_table conn d ref next (ok def, a) = next conn d ref def a

module _ {W : Type 0} (env : Env W) where
  abbrev pub get_connection : App W → ℤ → Result Store.Error Connection
  get_connection a id = Connections.get a.store env.keyring (row_id id)

  abbrev pub list_connections : App W → Result Store.Error (List Connection)
  list_connections a = Connections.list a.store env.keyring

  -- `layout`, with the section that the caller highlights.
  unfoldable pub layout : Context → App W → Text → Nav → Layout
  layout c a title nav = record {
    title = title;
    user = c.user;
    csrf = csrf_of c;
    active_nav = nav;
    connections = or_empty (list_connections a);
    update = notice a.updates c.user;
  }

  abbrev pub backend : App W → Backend
  backend a = record {
    get_connection = λ id. Connections.get a.store env.keyring id;
    dial = env.dial;
    ping = env.ping;
  }

  -- `s.pool.Get`
  abbrev pub pool_get : App W → ℤ → Result GetError ℕ × App W
  pool_get a id = with_pool a (Pool.get (backend a) a.pool (row_id id) env.now env.later)

  abbrev pub with_connection :
      ℤ → Continue W → App W → Result Store.Error Connection → Response × App W
  with_connection id next a (err e) = (failure 404 (of_store e), a)
  with_connection id next a (ok conn) = with_driver conn next (pool_get a id)

  -- `resolveConn`: the connection of the URL, and its open driver.
  unfoldable pub resolve_conn : Text → Continue W → App W → Response × App W
  resolve_conn id next a = let id = int_param id in with_connection id next a (get_connection a id)

  -- `resolveTable`
  unfoldable pub resolve_table : Text → Text → Text → ContinueTable W → App W → Response × App W
  resolve_table id schema name next = resolve_conn id (λ conn d a.
      let ref = ref_of schema name in
      with_table conn d ref next (operate (env.drivers.describe_table d ref) a))
