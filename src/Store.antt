-- ===== src/Store.antt =====
-- internal/store: the application's own SQLite database. schema.sql's tables are lists of rows in
-- the order of insertion; each SQL statement of the package is a function on them. The table's
-- counter gives the next id, since AUTOINCREMENT never uses an id again. `down` is the error that
-- every statement reports while the database cannot be used.
pub mod Table
pub mod Users
pub mod Sessions
pub mod Connections
pub mod History
use debeasy.Base.{◌≡◌, ℕ, Bool, Option, none, some, List, [], Result, ok, err}
use debeasy.Base.Text.{Text}
use debeasy.Base.Int.{ℤ}

pub record UserRow : Type 0 where
  pub id : ℕ
  pub username : Text
  pub password_hash : Text
  pub role : Text
  pub disabled : Bool
  pub created_at : Text

-- `expires_at` is RFC 3339 in UTC, that is a time in whole seconds.
pub record SessionRow : Type 0 where
  pub id : Text
  pub user_id : ℕ
  pub csrf_token : Text
  pub expires_at : ℕ

pub record ConnectionRow : Type 0 where
  pub id : ℕ
  pub name : Text
  pub kind : Text
  pub host : Text
  pub port : ℤ
  pub username : Text
  pub password_enc : Option Text
  pub database : Text
  pub sslmode : Text
  pub params : Text
  pub created_by : Option ℕ

pub record HistoryRow : Type 0 where
  pub id : ℕ
  pub user_id : ℕ
  pub connection_id : Option ℕ
  pub sql : Text
  pub elapsed_ms : ℕ
  pub rows_affected : ℤ
  pub error : Option Text
  pub created_at : Text

pub record Store : Type 0 where
  pub users : List UserRow
  pub next_user : ℕ
  pub sessions : List SessionRow
  pub connections : List ConnectionRow
  pub next_connection : ℕ
  pub history : List HistoryRow
  pub next_history : ℕ
  pub down : Option Text

-- The package's errors; `database` carries the message of SQLite.
pub data Error : Type 0 where
  user_exists bad_password user_disabled username_or_password password_too_short no_rows : Error
  session_not_found connection_not_found name_required invalid_kind connection_exists : Error
  crypto : Text → Error
  database : Text → Error

-- An empty database, as `Open` leaves it.
unfoldable pub empty : Store
empty = record {
  users = [];
  next_user = 1;
  sessions = [];
  connections = [];
  next_connection = 1;
  history = [];
  next_history = 1;
  down = none;
}

-- What a statement does: the first result with the message while the database is down, else the
-- second.
abbrev pub if_up {ℓ} : {A : Type ℓ} → Option Text → (Text → A) → A → A
if_up none failed done = done
if_up (some msg) failed done = failed msg

pub if_up_cases {ℓ κ} :
    {A : Type ℓ} (P : A → Type κ) (down : Option Text) (failed : Text → A) (done : A)
    → ((msg : Text) → P (failed msg))
    → P done
    → P (if_up down failed done)
if_up_cases P none failed done h k = k
if_up_cases P (some msg) failed done h k = h msg

pub if_up_up {ℓ κ} :
    {A : Type ℓ} (P : A → Type κ) (down : Option Text) (failed : Text → A) (done : A)
    → down ≡ none
    → P done
    → P (if_up down failed done)
if_up_up P none failed done h k = k
if_up_up P (some msg) failed done h k = cc

-- A statement that only reads.
abbrev pub query {ℓ} : {A : Type ℓ} → Store → A → Result Error A
query s a = if_up s.down (λ msg. err (database msg)) (ok a)
