-- ===== src/Server/Pages.antt =====
-- What the handlers of internal/server answer: a status, the headers they set, and the data that a
-- template gets. The templates' HTML is not part of the model.
use debeasy.Base.{ℕ, Bool, false, Option, List, []}
use debeasy.Base.Text.{Text}
use debeasy.Store
use debeasy.Store.{HistoryRow}
use debeasy.Store.Users.{User}
use debeasy.Store.Connections.{Connection}
use debeasy.Dbx.Driver
use debeasy.Dbx.Driver.{
  DatabaseInfo, Schema, ObjectTree, ObjectRef, TableDef, RowSet, Page, StatementResult,
}
use debeasy.Dbx.Sql.{Values}
use debeasy.Dbx.Pool.{GetError}

-- `err.Error()` of an error of one of the packages, or a text of the handlers' own.
pub data Message : Type 0 where
  plain : Text → Message
  of_store : Store.Error → Message
  of_pool : GetError → Message
  of_driver : Driver.Error → Message

-- `Nav…`
pub data Nav : Type 0 where
  no_nav home connections users : Nav

pub record UpdateNotice : Type 0 where
  pub version : Text
  pub current : Text
  pub url : Text

pub record Layout : Type 0 where
  pub title : Text
  pub user : Option User
  pub csrf : Text
  pub active_nav : Nav
  pub connections : List Connection
  pub update : Option UpdateNotice

pub record ConnectionForm : Type 0 where
  pub conn : Connection
  pub is_edit : Bool
  pub error : Option Message
  pub action : Text

pub record ObjectPage : Type 0 where
  pub conn : Connection
  pub ref : ObjectRef
  pub def : TableDef
  pub rows : RowSet
  pub page : Page
  pub has_more : Bool
  pub has_pk : Bool
  pub pk_cols : List Text
  pub csrf : Text

pub record RowForm : Type 0 where
  pub conn : Connection
  pub ref : ObjectRef
  pub def : TableDef
  pub is_edit : Bool
  pub values : Values
  pub pk_values : Values
  pub error : Option Message
  pub action_url : Text

-- A template with its data, or a text; an error in the data is that of the attempt before.
pub data Body : Type 0 where
  empty_body : Body
  message : Message → Body
  setup_page : Option Message → Body
  login_page : Option Text → Body
  users_page : Layout → List User → Body
  connections_page : Layout → List Connection → Body
  connection_form : Layout → ConnectionForm → Body
  home_page : Layout → List Connection → Body
  conn_app : Layout → Connection → List DatabaseInfo → List Schema → Text → Body
  conn_error : Layout → Connection → GetError → Body
  tree : Connection → Text → ObjectTree → Body
  history : List HistoryRow → Body
  query_results : Connection → List StatementResult → Option Message → Body
  object_detail : Connection → ObjectRef → TableDef → Body
  object_data : ObjectPage → Body
  row_form : RowForm → Body
  create_db : Connection → Option Message → Body
  create_table_form : Connection → Text → Option Message → Body
  create_view_form : Connection → Text → Option Message → Body
  create_index_form : Connection → Text → Text → Option Message → Body
  test_result : Option Driver.Error → Body

-- What happens to the session's cookie: it stays, gets a value, or is cleared.
pub data CookieChange : Type 0 where
  unchanged cleared : CookieChange
  cookie_set : Text → CookieChange

pub record Response : Type 0 where
  pub status : ℕ
  pub location : Text
  pub hx_redirect : Text
  pub hx_trigger : Text
  pub hx_refresh : Bool
  pub cookie : CookieChange
  pub body : Body

-- `Renderer.Render`, or a body that is written at once.
abbrev pub page : ℕ → Body → Response
page status body = record {
  status = status;
  location = [];
  hx_redirect = [];
  hx_trigger = [];
  hx_refresh = false;
  cookie = unchanged;
  body = body;
}

-- `http.Error`
abbrev pub failure : ℕ → Message → Response
failure status msg = page status (message msg)

-- `http.Redirect` with StatusSeeOther, whose body is left out.
abbrev pub see_other : Text → Response
see_other location = record (page 303 empty_body) { location = location }

-- A status without a body, for a script that follows the header.
abbrev pub hx_navigate : ℕ → Text → Response
hx_navigate status path = record (page status empty_body) { hx_redirect = path }

-- `HX-Trigger` and StatusNoContent.
abbrev pub triggered : Text → Response
triggered event = record (page 204 empty_body) { hx_trigger = event }
