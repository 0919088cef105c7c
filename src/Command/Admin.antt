-- ===== src/Command/Admin.antt =====
-- cmd/debeasy/admin.go: `debeasy admin create` and `debeasy admin reset-password`, from their parsed
-- flags on. What the user types on the standard input and the opening of the store are arguments.
pub mod Accounts
mod Tests
use debeasy.Base.{
  ℕ, Bool, true, false, not, ◌&&◌, ◌||◌, Option, none, some, List, [], ◌∷◌, ◌++◌, Result, ok, err,
  map_err, ◌>>=◌, if◌then◌else◌, ltb, ◌==◌, is_empty, find,
}
use debeasy.Base.Text.{Text, codes, ◌≗◌, trim_right, byte_length}
use debeasy.Base.Decimal.{decimal}
use debeasy.Store
use debeasy.Store.{Store, user_exists}
use debeasy.Store.Users
use debeasy.Store.Users.{User, Bcrypt}

pub record AdminFlags : Type 0 where
  pub username : Text
  pub password : Text
  pub password_stdin : Bool
  pub role : Text
  pub if_not_exists : Bool

pub data AdminError : Type 0 where
  username_required : AdminError
  bad_role : AdminError
  stdin_failed : Text → AdminError
  password_short : AdminError
  open_failed : Text → AdminError
  already_exists : Text → AdminError
  not_found : Text → Store.Error → AdminError
  of_store : Store.Error → AdminError

-- The cut set "\r\n".
abbrev is_line_end : ℕ → Bool
is_line_end c = c == 13 || c == 10

unfoldable pub read_password : Text → Bool → Result Text Text → Result AdminError Text
read_password literal false stdin = ok literal
read_password literal true (err e) = err (stdin_failed e)
read_password literal true (ok input) = ok (trim_right is_line_end input)

abbrev long_enough : Text → Result AdminError Text
long_enough pwd = if ltb (byte_length pwd) 8 then err password_short else ok pwd

-- What both commands check before they open the store: the password that they use.
unfoldable pub create_password : AdminFlags → Result Text Text → Result AdminError Text
create_password f stdin =
    if is_empty f.username
    then err username_required
    else if not (f.role ≗ codes "admin") && not (f.role ≗ codes "user")
    then err bad_role
    else read_password f.password f.password_stdin stdin >>= long_enough

unfoldable pub reset_password_text : AdminFlags → Result Text Text → Result AdminError Text
reset_password_text f stdin =
    if is_empty f.username
    then err username_required
    else read_password f.password f.password_stdin stdin >>= long_enough

abbrev is_administrator : User → Bool
is_administrator u = u.role ≗ codes "admin"

-- What a command prints, or its error, and the store.
abbrev pub Outcome : Type 0
Outcome = Result AdminError Text × Store

abbrev create_error : Text → Store.Error → AdminError
create_error name user_exists = already_exists name
create_error name e = of_store e

abbrev pub created : Text → Result Store.Error User × Store → Outcome
created name (err e, s) = (err (create_error name e), s)
created name (ok u, s) = (
  ok (
      codes "created user id="
      ++ (decimal u.id
          ++ (codes " username=" ++ (u.username ++ (codes " role=" ++ (u.role ++ codes "\n")))))),
  s,
)

module _ (bcrypt : Bcrypt) (salt : ℕ) (now : Text) where
  abbrev pub create_now : AdminFlags → Text → Store → Outcome
  create_now f pwd s = created f.username (Users.create bcrypt s f.username pwd f.role salt now)

  abbrev pub unless_found : AdminFlags → Text → Store → Option User → Outcome
  unless_found f pwd s (some u) =
      (ok (codes "admin already exists (" ++ (u.username ++ codes ") — skipping\n")), s)
  unless_found f pwd s none = create_now f pwd s

  abbrev pub unless_listed : AdminFlags → Text → Store → Result Store.Error (List User) → Outcome
  unless_listed f pwd s (err e) = (err (of_store e), s)
  unless_listed f pwd s (ok users) = unless_found f pwd s (find is_administrator users)

  abbrev pub create_opened : AdminFlags → Text → Store → Outcome
  create_opened f pwd s =
      if f.if_not_exists then unless_listed f pwd s (Users.list s) else create_now f pwd s

  abbrev pub create_with : AdminFlags → Store → Option Text → Result AdminError Text → Outcome
  create_with f s fault (err e) = (err e, s)
  create_with f s (some e) (ok pwd) = (err (open_failed e), s)
  create_with f s none (ok pwd) = create_opened f pwd s

  -- `runAdminCreate`; `fault` is the error of `openStoreForCLI`.
  unfoldable pub run_admin_create : AdminFlags → Result Text Text → Option Text → Store → Outcome
  run_admin_create f stdin fault s = create_with f s fault (create_password f stdin)

  abbrev pub reset_done : User → Result Store.Error (Unit {0}) × Store → Outcome
  reset_done u (err e, s) = (err (of_store e), s)
  reset_done u (ok _, s) = (
    ok (
        codes "password reset for user "
        ++ (u.username ++ (codes " (id=" ++ (decimal u.id ++ codes ")\n")))),
    s,
  )

  abbrev pub reset_found : AdminFlags → Text → Store → Result Store.Error User → Outcome
  reset_found f pwd s (err e) = (err (not_found f.username e), s)
  reset_found f pwd s (ok u) = reset_done u (Users.reset_password bcrypt s u.id pwd salt)

  abbrev pub reset_with : AdminFlags → Store → Option Text → Result AdminError Text → Outcome
  reset_with f s fault (err e) = (err e, s)
  reset_with f s (some e) (ok pwd) = (err (open_failed e), s)
  reset_with f s none (ok pwd) = reset_found f pwd s (Users.find_by_username s f.username)

  -- `runAdminResetPassword`
  unfoldable pub run_admin_reset_password :
      AdminFlags → Result Text Text → Option Text → Store → Outcome
  run_admin_reset_password f stdin fault s = reset_with f s fault (reset_password_text f stdin)
