-- ===== src/Store/Users/Tests.antt =====
-- The theorems on users, at concrete inputs.
use debeasy.Base.{◌≡◌, ◌≢◌, refl, true, false, [], ◌∷◌, find, some, Result, ok, err}
use debeasy.Base.Text.{Text, codes, ◌≗◌, trim_space, trim_left, trim_right, is_space, byte_length}
use debeasy.Base.Text.Laws.{≗_refl}
use debeasy.Store.{Store, UserRow, empty, user_disabled}
use debeasy.Store.Users.{
  Bcrypt, same_name, named, user_of, create, created, create_with, insert_user, get, verify,
  verify_row, set_disabled,
}
use debeasy.Store.Users.Laws.{IsValid, creates, step, user_step-IsValid}
use debeasy.Store.Users.Accounts.{verify-create, verify_sound}
use debeasy.Store.Users.Changes.{verify-set_disabled}

accepted :
    (password hash : Text)
    → ◌≡◌ {A = Result Text Text} (ok password) (ok hash)
    → (hash ≗ password) ≡ true
accepted password hash h = let same : password ≡ hash = cc in rw same (≗_refl hash)

-- A hash that is the password itself.
abbrev identity_hash : Bcrypt
identity_hash = record {
  generate = λ password salt. ok password;
  compare_hash = λ hash password. hash ≗ password;
  accepts = λ password salt hash h. accepted password hash h;
}

abbrev ann_row : UserRow
ann_row = record {
  id = 1;
  username = codes "Ann";
  password_hash = codes "password1";
  role = codes "admin";
  disabled = false;
  created_at = codes "now";
}

abbrev with_ann : Store
with_ann = record empty { users = ann_row ∷ []; next_user = 2 }

empty-IsValid : IsValid empty
unfolding empty
empty-IsValid = record { names = tt; ids = tt; fresh = tt; roles = tt }

user_step-IsValid_example : IsValid (
    step identity_hash empty
      (creates (codes " Ann") (codes "password1") (codes "admin") 0 (codes "now")))
user_step-IsValid_example =
    user_step-IsValid identity_hash empty
      (creates (codes " Ann") (codes "password1") (codes "admin") 0 (codes "now")) empty-IsValid

verify-create_example :
    verify identity_hash with_ann (codes "ANN") (codes "password1") ≡ ok (user_of ann_row)
unfolding create create_with insert_user created get trim_space trim_left trim_right is_space
    byte_length ◌≗◌ same_name empty
verify-create_example =
    verify-create identity_hash empty with_ann (codes " Ann") (codes "password1") (codes "admin") 0
      (codes "now") (user_of ann_row) (codes "ANN") empty-IsValid refl refl

verify_sound_example :
    (r : UserRow) × (find (named (codes "ann")) (ann_row ∷ []) ≡ some r)
    × (same_name r.username (codes "ann") ≡ true)
    × (r.disabled ≡ false)
    × ((r.password_hash ≗ codes "password1") ≡ true)
    × (user_of ann_row ≡ user_of r)
unfolding verify verify_row same_name ◌≗◌ empty
verify_sound_example =
    verify_sound identity_hash with_ann (codes "ann") (codes "password1") (user_of ann_row) refl

abbrev without_ann : Store
without_ann = record empty { users = record ann_row { disabled = true } ∷ []; next_user = 2 }

verify-set_disabled_example :
    ((ann_row.id ≡ 1)
      → verify identity_hash without_ann (codes "ann") (codes "password1") ≡ err user_disabled)
    × ((ann_row.id ≢ 1)
        → verify identity_hash without_ann (codes "ann") (codes "password1")
          ≡ verify identity_hash with_ann (codes "ann") (codes "password1"))
unfolding set_disabled same_name ◌≗◌ empty
verify-set_disabled_example =
    verify-set_disabled identity_hash with_ann without_ann 1 (codes "ann") (codes "password1")
      ann_row refl refl

abbrev reset_ann : Store
reset_ann = record empty {
  users = record ann_row { password_hash = codes "password2" } ∷ [];
  next_user = 2;
}
