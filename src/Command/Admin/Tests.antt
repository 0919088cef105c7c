-- ===== src/Command/Admin/Tests.antt =====
-- The administrator commands on a small store.
use debeasy.Base.{◌≡◌, ◌⊎◌, refl, true, false, [], ◌∷◌, none, Result, ok}
use debeasy.Base.Text.{Text, codes, ◌≗◌, trim_space, trim_left, trim_right, is_space, byte_length}
use debeasy.Base.Text.Laws.{≗_refl}
use debeasy.Base.Decimal.{decimal}
use debeasy.Store.{Store, empty}
use debeasy.Store.Users.{
  Bcrypt, same_name, create, create_with, insert_user, created, get, list, find_by_username,
  reset_password, reset_with,
}
use debeasy.Store.Users.Laws.{IsValid}
use debeasy.Command.Admin.{
  AdminFlags, read_password, create_password, reset_password_text, run_admin_create,
  run_admin_reset_password,
}
use debeasy.Command.Admin.Accounts.{
  Skipped, Usable, run_admin_create-Usable, Reset, run_admin_reset_password-Reset,
}

accepted :
    (password hash : Text)
    → ◌≡◌ {A = Result Text Text} (ok password) (ok hash)
    → (hash ≗ password) ≡ true
accepted password hash h = let same : password ≡ hash = cc in rw same (≗_refl hash)

abbrev identity_hash : Bcrypt
identity_hash = record {
  generate = λ password salt. ok password;
  compare_hash = λ hash password. hash ≗ password;
  accepts = λ password salt hash h. accepted password hash h;
}

abbrev flags : AdminFlags
flags = record {
  username = codes "root";
  password = [];
  password_stdin = true;
  role = codes "admin";
  if_not_exists = true;
}

abbrev typed : Result Text Text
typed = ok (codes "secret-1\r\n")

abbrev with_root : Store
unfolding empty
with_root = record empty {
  users =
      record {
        id = 1;
        username = codes "root";
        password_hash = codes "secret-1";
        role = codes "admin";
        disabled = false;
        created_at = codes "now";
      }
      ∷ [];
  next_user = 2;
}

abbrev created_text : Text
created_text = codes "created user id=1 username=root role=admin\n"

empty-IsValid : IsValid empty
unfolding empty
empty-IsValid = record { names = tt; ids = tt; fresh = tt; roles = tt }

run_admin_create-Usable_example :
    Skipped identity_hash 0 (codes "now") flags empty with_root
    ⊎ ((pwd : Text) × (create_password flags typed ≡ ok pwd)
        × Usable identity_hash 0 (codes "now") flags empty with_root pwd)
unfolding run_admin_create create_password read_password create create_with insert_user created get
    list trim_space trim_left trim_right is_space byte_length ◌≗◌ same_name empty decimal
run_admin_create-Usable_example =
    run_admin_create-Usable identity_hash 0 (codes "now") flags empty with_root typed none
      created_text empty-IsValid refl

-- The same account with another password before.
abbrev with_other : Store
with_other = record with_root {
  users =
      record {
        id = 1;
        username = codes "root";
        password_hash = codes "forgotten";
        role = codes "admin";
        disabled = false;
        created_at = codes "now";
      }
      ∷ [];
}

run_admin_reset_password-Reset_example :
    (pwd : Text) × (reset_password_text flags typed ≡ ok pwd)
    × Reset identity_hash 0 flags with_other with_root pwd
unfolding run_admin_reset_password reset_password_text read_password find_by_username reset_password
    reset_with trim_left trim_right byte_length ◌≗◌ same_name empty decimal
run_admin_reset_password-Reset_example =
    run_admin_reset_password-Reset identity_hash 0 (codes "now") flags with_other with_root typed
      none (codes "password reset for user root (id=1)\n") refl
