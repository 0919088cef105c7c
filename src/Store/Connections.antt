-- ===== src/Store/Connections.antt =====
-- internal/store/connections.go: saved connections, with their passwords sealed by the keyring, if
-- the store has one. The nonce of a new sealing is an argument.
pub mod Laws
pub mod Updates
mod Tests
use debeasy.Base.{
  ℕ, suc, Bool, true, false, not, ◌&&◌, ◌||◌, Option, none, some, List, [], ◌∷◌, ◌++◌, map, Result,
  ok, err, ◌>>=◌, if◌then◌else◌, ltb, ◌==◌, is_empty, any, find, select,
}
use debeasy.Base.Text.{Text, codes, ◌≗◌, trim_space, contains, leb_text}
use debeasy.Base.Int.{ℤ}
use debeasy.Crypto.{Aead, keyring_seal, keyring_open}
use debeasy.Store.{
  Store, ConnectionRow, HistoryRow, Error, connection_not_found, name_required, invalid_kind,
  connection_exists, crypto, database, if_up, query,
}
use debeasy.Store.Users

pub record Connection : Type 0 where
  pub id : ℕ
  pub name : Text
  pub kind : Text
  pub host : Text
  pub port : ℤ
  pub username : Text
  pub password : Text
  pub database : Text
  pub sslmode : Text
  pub params : Text
  pub created_by : Option ℕ

unfoldable pub valid_kind : Text → Bool
valid_kind k = k ≗ codes "postgres" || (k ≗ codes "mysql" || k ≗ codes "sqlite")

abbrev pub with_id : ℕ → ConnectionRow → Bool
with_id id r = r.id == id

abbrev pub with_name : Text → ConnectionRow → Bool
with_name name r = r.name ≗ name

-- The password column: empty if there is no password or no keyring.
pub seal_password : Option Aead → Text → Result Text Text → Result Error (Option Text)
seal_password none password nonce = ok none
seal_password (some aead) password nonce =
    if is_empty password then ok none else elim (keyring_seal aead password nonce) [
      | ok sealed ↦ ok (some sealed)
      | err e ↦ err (crypto e)
    ]

-- What `scan` makes of the column: a password that cannot be opened is left empty.
pub open_password : Option Aead → Option Text → Text
open_password keyring none = []
open_password none (some enc) = []
open_password (some aead) (some enc) =
    if is_empty enc then [] else elim (keyring_open aead enc) [ some pt ↦ pt | none ↦ [] ]

unfoldable pub scan : Option Aead → ConnectionRow → Connection
unfolding open_password
scan keyring r = record {
  id = r.id;
  name = r.name;
  kind = r.kind;
  host = r.host;
  port = r.port;
  username = r.username;
  password = open_password keyring r.password_enc;
  database = r.database;
  sslmode = r.sslmode;
  params = r.params;
  created_by = r.created_by;
}

abbrev pub found : Option Aead → Option ConnectionRow → Result Error Connection
found keyring none = err connection_not_found
found keyring (some r) = ok (scan keyring r)

unfoldable pub get : Store → Option Aead → ℕ → Result Error Connection
get s keyring id = do row ← query s (find (with_id id) s.connections); found keyring row

-- `ORDER BY name`
insert_by_name : ConnectionRow → List ConnectionRow → List ConnectionRow
insert_by_name r [] = r ∷ []
insert_by_name r (x ∷ xs) =
    let later = insert_by_name r xs in if leb_text r.name x.name then r ∷ x ∷ xs else x ∷ later

sort_by_name : List ConnectionRow → List ConnectionRow
sort_by_name [] = []
sort_by_name (r ∷ rs) = insert_by_name r (sort_by_name rs)

unfoldable pub list : Store → Option Aead → Result Error (List Connection)
unfolding insert_by_name sort_by_name
list s keyring = query s (map (scan keyring) (sort_by_name s.connections))

abbrev pub new_row : Store → Connection → Text → Option Text → Option ℕ → ConnectionRow
new_row s c name enc by = record {
  id = s.next_connection;
  name = name;
  kind = c.kind;
  host = c.host;
  port = c.port;
  username = c.username;
  password_enc = enc;
  database = c.database;
  sslmode = c.sslmode;
  params = c.params;
  created_by = by;
}

abbrev pub add_row : Store → ConnectionRow → Store
add_row s r = record s {
  connections = s.connections ++ r ∷ [];
  next_connection = suc s.next_connection;
}

-- `created_by` is NULL or an existing user.
references_user : Store → Option ℕ → Bool
references_user s none = true
references_user s (some id) = any (Users.with_id id) s.users

abbrev unique_violation : Text
unique_violation = codes "UNIQUE constraint failed: connections.name"

pub insert_connection : Store → ConnectionRow → Result Text ℕ × Store
insert_connection s r =
    if_up s.down (λ msg. (err msg, s))
      (if any (with_name r.name) s.connections
        then (err unique_violation, s)
        else if references_user s r.created_by
        then (ok r.id, add_row s r)
        else (err (codes "FOREIGN KEY constraint failed"), s))

abbrev insert_error : Text → Error
insert_error msg = if contains msg (codes "UNIQUE") then connection_exists else database msg

pub created : Option Aead → Result Text ℕ × Store → Result Error Connection × Store
created keyring (err msg, s) = (err (insert_error msg), s)
created keyring (ok id, s) = (get s keyring id, s)

-- What `Create` does with the sealed password.
pub create_with :
    Store
    → Option Aead
    → Connection
    → Text
    → ℕ
    → Result Error (Option Text)
    → Result Error Connection × Store
create_with s keyring c name created_by (err e) = (err e, s)
create_with s keyring c name created_by (ok enc) =
    let by = if ltb 0 created_by then some created_by else none in
    created keyring (insert_connection s (new_row s c name enc by))

unfoldable pub create :
    Store → Option Aead → Connection → ℕ → Result Text Text → Result Error Connection × Store
unfolding seal_password insert_connection references_user created create_with
create s keyring c created_by nonce =
    let name = trim_space c.name in
    if is_empty name
    then (err name_required, s)
    else if not (valid_kind c.kind)
    then (err invalid_kind, s)
    else create_with s keyring c name created_by (seal_password keyring c.password nonce)

-- The columns that both forms of the UPDATE set; the one without a password keeps the column.
abbrev pub set_row : Connection → Text → Option (Option Text) → ConnectionRow → ConnectionRow
set_row c name enc r = record {
  id = r.id;
  name = name;
  kind = c.kind;
  host = c.host;
  port = c.port;
  username = c.username;
  password_enc = elim enc [ none ↦ r.password_enc | some e ↦ e ];
  database = c.database;
  sslmode = c.sslmode;
  params = c.params;
  created_by = r.created_by;
}

abbrev pub set_where : ℕ → (ConnectionRow → ConnectionRow) → List ConnectionRow → List ConnectionRow
set_where id f = map (λ r. if with_id id r then f r else r)

-- The name must not be that of another row, where the updated row is there at all.
abbrev pub takes_name : Store → ℕ → Text → Bool
takes_name s id name =
    any (with_id id) s.connections
    && any (λ r. not (with_id id r) && with_name name r) s.connections

unfoldable pub run_update :
    Store → Connection → Text → Option (Option Text) → Result Error (Unit {0}) × Store
run_update s c name enc =
    if_up s.down (λ msg. (err (database msg), s))
      (if takes_name s c.id name
        then (err (database unique_violation), s)
        else (ok tt, record s { connections = set_where c.id (set_row c name enc) s.connections }))

unfoldable pub update_with :
    Store → Connection → Text → Result Error (Option Text) → Result Error (Unit {0}) × Store
update_with s c name (err e) = (err e, s)
update_with s c name (ok enc) = run_update s c name (some enc)

unfoldable pub update :
    Store → Option Aead → Connection → Bool → Result Text Text → Result Error (Unit {0}) × Store
unfolding seal_password run_update update_with
update s keyring c update_password nonce =
    let name = trim_space c.name in
    if not (valid_kind c.kind)
    then (err invalid_kind, s)
    else if update_password
    then update_with s c name (seal_password keyring c.password nonce)
    else run_update s c name none

-- `ON DELETE SET NULL`
abbrev forget : ℕ → HistoryRow → HistoryRow
forget id h = record h {
  connection_id = elim h.connection_id [ none ↦ none | some c ↦ if c == id then none else some c ];
}

unfoldable pub delete : Store → ℕ → Result Error (Unit {0}) × Store
delete s id =
    if_up s.down (λ msg. (err (database msg), s))
      (
        ok tt,
        record s {
          connections = select (λ r. not (with_id id r)) s.connections;
          history = map (forget id) s.history;
        },
      )
