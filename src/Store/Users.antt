-- ===== src/Store/Users.antt =====
-- internal/store/users.go. The bcrypt package is a parameter; the salt that it draws and the time
-- of the insertion are arguments.
pub mod Laws
pub mod Accounts
pub mod Changes
mod Tests
use debeasy.Base.{
  ℕ, suc, ◌≡◌, Bool, true, false, not, ◌&&◌, ◌||◌, Option, none, some, List, [], ◌∷◌, ◌++◌, map,
  Result, ok, err, ◌>>=◌, if◌then◌else◌, ltb, leb, ◌==◌, length, is_empty, any, find, ◌+◌,
}
use debeasy.Base.Text.{Text, codes, ◌≗◌, trim_space, byte_length, contains}
use debeasy.Store.{
  Store, UserRow, Error, user_exists, bad_password, user_disabled, username_or_password,
  password_too_short, no_rows, crypto, database, if_up, query,
}

pub record User : Type 0 where
  pub id : ℕ
  pub username : Text
  pub role : Text
  pub disabled : Bool
  pub created_at : Text

unfoldable pub is_admin : User → Bool
is_admin u = u.role ≗ codes "admin"

-- golang.org/x/crypto/bcrypt: a hash for a password and a salt, or an error (a password longer than
-- 72 bytes), and the comparison. A hash that was generated accepts its password.
pub record Bcrypt : Type 0 where
  pub generate : Text → ℕ → Result Text Text
  pub compare_hash : Text → Text → Bool
  pub accepts :
      (password : Text) (salt : ℕ) (hash : Text)
      → generate password salt ≡ ok hash
      → compare_hash hash password ≡ true

-- `COLLATE NOCASE` folds the ASCII letters.
abbrev pub fold_case : ℕ → ℕ
fold_case c = if leb b'A' c && leb c b'Z' then c + 32 else c

unfoldable pub same_name : Text → Text → Bool
same_name a b = map fold_case a ≗ map fold_case b

abbrev pub user_of : UserRow → User
user_of r = record {
  id = r.id;
  username = r.username;
  role = r.role;
  disabled = r.disabled;
  created_at = r.created_at;
}

abbrev pub or_no_rows {ℓ} : {A : Type ℓ} → Option A → Result Error A
or_no_rows none = err no_rows
or_no_rows (some a) = ok a

abbrev pub with_id : ℕ → UserRow → Bool
with_id id r = r.id == id

abbrev pub named : Text → UserRow → Bool
named name r = same_name r.username name

unfoldable pub count : Store → Result Error ℕ
count s = query s (length s.users)

unfoldable pub get : Store → ℕ → Result Error User
get s id = do row ← query s (find (with_id id) s.users); r ← or_no_rows row; ok (user_of r)

unfoldable pub find_by_username : Store → Text → Result Error User
find_by_username s name = do
  row ← query s (find (named name) s.users)
  r ← or_no_rows row
  ok (user_of r)

unfoldable pub list : Store → Result Error (List User)
list s = query s (map user_of s.users)

-- Any other role becomes "user".
abbrev pub known_role : Text → Text
known_role role = if role ≗ codes "admin" || role ≗ codes "user" then role else codes "user"

-- SQLite's message for a second row with the same key.
abbrev unique_violation : Text
unique_violation = codes "UNIQUE constraint failed: users.username"

-- `strings.Contains(err.Error(), "UNIQUE")`
abbrev insert_error : Text → Error
insert_error msg = if contains msg (codes "UNIQUE") then user_exists else database msg

abbrev pub new_row : Store → Text → Text → Text → Text → UserRow
new_row s username hash role now = record {
  id = s.next_user;
  username = username;
  password_hash = hash;
  role = role;
  disabled = false;
  created_at = now;
}

abbrev pub add_row : Store → UserRow → Store
add_row s r = record s { users = s.users ++ r ∷ []; next_user = suc s.next_user }

-- The INSERT: it fails if a row has the same name; the id is the table's next one.
unfoldable pub insert_user : Store → Text → Text → Text → Text → Result Text ℕ × Store
insert_user s username hash role now =
    if_up s.down (λ msg. (err msg, s))
      (if any (named username) s.users
        then (err unique_violation, s)
        else (ok s.next_user, add_row s (new_row s username hash role now)))

-- What `Create` makes of the INSERT's outcome.
unfoldable pub created : Result Text ℕ × Store → Result Error User × Store
created (err msg, s) = (err (insert_error msg), s)
created (ok id, s) = (get s id, s)

module _ (bcrypt : Bcrypt) where
  open bcrypt use {generate, compare_hash}

  -- What `Create` does with the hash.
  unfoldable pub create_with :
      Store → Text → Text → Text → Result Text Text → Result Error User × Store
  create_with s username role now (err msg) = (err (crypto msg), s)
  create_with s username role now (ok hash) = created (insert_user s username hash role now)

  unfoldable pub create : Store → Text → Text → Text → ℕ → Text → Result Error User × Store
  create s username password role salt now =
      let name = trim_space username in
      if is_empty name || ltb (byte_length password) 8
      then (err username_or_password, s)
      else create_with s name (known_role role) now (generate password salt)

  -- The checks on the row that the name selects.
  unfoldable pub verify_row : Text → UserRow → Result Error User
  verify_row password r =
      if r.disabled
      then err user_disabled
      else if compare_hash r.password_hash password
      then ok (user_of r)
      else err bad_password

  abbrev verify_found : Text → Option UserRow → Result Error User
  verify_found password none = err bad_password
  verify_found password (some r) = verify_row password r

  unfoldable pub verify : Store → Text → Text → Result Error User
  verify s username password = do
    row ← query s (find (named username) s.users)
    verify_found password row

  -- `UPDATE users SET … WHERE id=?`
  abbrev update_where : ℕ → (UserRow → UserRow) → List UserRow → List UserRow
  update_where id f = map (λ r. if with_id id r then f r else r)

  pub set_disabled : Store → ℕ → Bool → Result Error (Unit {0}) × Store
  set_disabled s id disabled =
      if_up s.down (λ msg. (err (database msg), s))
        (
          ok tt,
          record s { users = update_where id (λ r. record r { disabled = disabled }) s.users },
        )

  -- What `ResetPassword` does with the hash.
  unfoldable pub reset_with : Store → ℕ → Result Text Text → Result Error (Unit {0}) × Store
  reset_with s id (err msg) = (err (crypto msg), s)
  reset_with s id (ok hash) =
      if_up s.down (λ msg. (err (database msg), s))
        (
          ok tt,
          record s { users = update_where id (λ r. record r { password_hash = hash }) s.users },
        )

  unfoldable pub reset_password : Store → ℕ → Text → ℕ → Result Error (Unit {0}) × Store
  reset_password s id password salt =
      if ltb (byte_length password) 8
      then (err password_too_short, s)
      else reset_with s id (generate password salt)
