-- ===== src/Command/Admin/Accounts.antt =====
-- What the administrator commands of cmd/debeasy/admin.go leave behind.
use debeasy.Base.{
  ℕ, ◌≡◌, refl, sym, ap, ◌∙◌, ◌⊎◌, inl, inr, Bool, true, false, Option, none, some, List, [],
  Result, ok, err, >>=-eq-ok, ◌>>=◌, find, if◌then◌else◌,
}
use debeasy.Base.Text.{Text, trim_space}
use debeasy.Store
use debeasy.Store.{Store, UserRow, query, if_up, no_rows, database}
use debeasy.Store.Users
use debeasy.Store.Users.{User, Bcrypt, same_name, named, user_of, verify, or_no_rows}
use debeasy.Store.Users.Laws.{IsValid}
use debeasy.Store.Users.Accounts.{verify-create}
use debeasy.Store.Users.Changes.{verify-reset_password}
use debeasy.Command.Admin.{
  AdminFlags, AdminError, create_password, reset_password_text, is_administrator, Outcome, created,
  create_now, unless_found, unless_listed, create_with, run_admin_create, reset_done, reset_found,
  reset_with, run_admin_reset_password,
}

module _ (bcrypt : Bcrypt) (salt : ℕ) (now : Text) (f : AdminFlags) (s s' : Store) where
  -- The command was told to skip, found an administrator, and left the store as it was.
  abbrev pub Skipped : Type 0
  Skipped =
      (f.if_not_exists ≡ true)
      × (u : User) × (users : List User) × (Users.list s ≡ ok users)
      × (find is_administrator users ≡ some u)
      × (s' ≡ s)

  -- The account can be used with the password that the command was given.
  abbrev pub Usable : Text → Type 0
  Usable pwd =
      (u : User) × ((login : Text)
        → same_name (trim_space f.username) login ≡ true
        → verify bcrypt s' login pwd ≡ ok u)

  created_ok :
      (name out : Text) (p : Result Store.Error User × Store)
      → created name p ≡ (ok out, s')
      → (u : User) × (p ≡ (ok u, s'))
  created_ok name out (err e, x) h = cc
  created_ok name out (ok u, x) h = (u, ap (λ (q : Outcome). (ok u, q.1)) h)

  now-Usable :
      (pwd out : Text) → IsValid s → create_now bcrypt salt now f pwd s ≡ (ok out, s') → Usable pwd
  now-Usable pwd out v h =
      let (u, made) =
        created_ok f.username out (Users.create bcrypt s f.username pwd f.role salt now) h in
      (
        u,
        λ login same. verify-create bcrypt s s' f.username pwd f.role salt now u login v made same,
      )

  found-Usable :
      (told : f.if_not_exists ≡ true) (pwd out : Text) (users : List User) (o : Option User)
      → IsValid s
      → Users.list s ≡ ok users
      → find is_administrator users ≡ o
      → unless_found bcrypt salt now f pwd s o ≡ (ok out, s')
      → Skipped ⊎ Usable pwd
  found-Usable told pwd out users (some u) v l e h =
      inl (told, u, users, l, e, ap (λ (q : Outcome). q.1) (sym h))
  found-Usable told pwd out users none v l e h = inr (now-Usable pwd out v h)

  listed-Usable :
      (told : f.if_not_exists ≡ true) (pwd out : Text) (r : Result Store.Error (List User))
      → IsValid s
      → Users.list s ≡ r
      → unless_listed bcrypt salt now f pwd s r ≡ (ok out, s')
      → Skipped ⊎ Usable pwd
  listed-Usable told pwd out (err e) v l h = cc
  listed-Usable told pwd out (ok users) v l h =
      found-Usable told pwd out users (find is_administrator users) v l refl h

  opened-Usable :
      (pwd out : Text) (b : Bool)
      → f.if_not_exists ≡ b
      → IsValid s
      → (if b
          then unless_listed bcrypt salt now f pwd s (Users.list s)
          else create_now bcrypt salt now f pwd s)
        ≡ (ok out, s')
      → Skipped ⊎ Usable pwd
  opened-Usable pwd out true told v h = listed-Usable told pwd out (Users.list s) v refl h
  opened-Usable pwd out false told v h = inr (now-Usable pwd out v h)

  with-Usable :
      (out : Text) (fault : Option Text) (r : Result AdminError Text)
      → IsValid s
      → create_with bcrypt salt now f s fault r ≡ (ok out, s')
      → Skipped ⊎ ((pwd : Text) × (r ≡ ok pwd) × Usable pwd)
  with-Usable out fault (err e) v h = cc
  with-Usable out (some e) (ok pwd) v h = cc
  with-Usable out none (ok pwd) v h = elim (opened-Usable pwd out f.if_not_exists refl v h) [
    | inl x ↦ inl x
    | inr x ↦ inr (pwd, refl, x)
  ]

-- When `debeasy admin create` succeeds, it was told to skip where there is an administrator, there is one,
-- and the store is as it was; or whoever gives the new account's name, in upper or lower case, and the password that the
-- command took is verified.
pub run_admin_create-Usable :
    (bcrypt : Bcrypt) (salt : ℕ) (now : Text) (f : AdminFlags) (s s' : Store)
    (stdin : Result Text Text) (fault : Option Text) (out : Text)
    → IsValid s
    → run_admin_create bcrypt salt now f stdin fault s ≡ (ok out, s')
    → Skipped bcrypt salt now f s s'
      ⊎ ((pwd : Text) × (create_password f stdin ≡ ok pwd) × Usable bcrypt salt now f s s' pwd)
run_admin_create-Usable bcrypt salt now f s s' stdin fault out v h =
    with-Usable bcrypt salt now f s s' out fault (create_password f stdin) v
      (unfold run_admin_create in h)

up_ok :
    {A : Type 0} (down : Option Text) (x y : A)
    → if_up down (λ msg. err (database msg)) (ok x) ≡ ok y
    → x ≡ y
up_ok none x y h = cc
up_ok (some msg) x y h = cc

some_row : (o : Option UserRow) (r : UserRow) → or_no_rows o ≡ ok r → o ≡ some r
some_row none r h = cc
some_row (some x) r h = cc

-- The row behind a user that was found by name.
found_row :
    (s : Store) (name : Text) (u : User)
    → Users.find_by_username s name ≡ ok u
    → (r : UserRow) × (find (named name) s.users ≡ some r) × (user_of r ≡ u)
found_row s name u h = rows (find (named name) s.users) refl (unfold Users.find_by_username in h)
  where
    last : {x y : User} → ◌≡◌ {A = Result Store.Error User} (ok x) (ok y) → x ≡ y
    last e = cc

    rows :
        (o : Option UserRow)
        → find (named name) s.users ≡ o
        → (query s o >>= λ row. or_no_rows row >>= λ r. ok (user_of r)) ≡ ok u
        → (r : UserRow) × (find (named name) s.users ≡ some r) × (user_of r ≡ u)
    rows o e k =
        let (row, a, k1) = >>=-eq-ok (query s o) _ k in
        let (r, b, k2) = >>=-eq-ok (or_no_rows row) _ k1 in
        (r, e ∙ (up_ok s.down o row a ∙ some_row row r b), last k2)

module _ (bcrypt : Bcrypt) (salt : ℕ) (f : AdminFlags) (s s' : Store) where
  -- The account of that name, and the password that it now has.
  abbrev pub Reset : Text → Type 0
  Reset pwd =
      (u : User) × (Users.find_by_username s f.username ≡ ok u)
      × (u.disabled ≡ false → verify bcrypt s' f.username pwd ≡ ok u)

  reset_done-ok :
      (u : User) (out : Text) (p : Result Store.Error (Unit {0}) × Store)
      → reset_done bcrypt salt [] u p ≡ (ok out, s')
      → p ≡ (ok tt, s')
  reset_done-ok u out (err e, x) h = cc
  reset_done-ok u out (ok _, x) h = ap (λ (q : Outcome). (ok tt, q.1)) h

  found-Reset :
      (pwd out : Text) (r : Result Store.Error User)
      → Users.find_by_username s f.username ≡ r
      → reset_found bcrypt salt [] f pwd s r ≡ (ok out, s')
      → Reset pwd
  found-Reset pwd out (err e) e' h = cc
  found-Reset pwd out (ok u) e h =
      let (r, row, same) = found_row s f.username u e in
      let done = reset_done-ok u out (Users.reset_password bcrypt s u.id pwd salt) h in
      let good = (verify-reset_password bcrypt s s' u.id f.username pwd pwd salt r row done).0 in
      (
        u,
        e,
        λ enabled.
            good (ap (λ (x : User). x.id) same) (ap (λ (x : User). x.disabled) same ∙ enabled)
            ∙ ap (λ x. ok x) same,
      )

  with-Reset :
      (out : Text) (fault : Option Text) (r : Result AdminError Text)
      → reset_with bcrypt salt [] f s fault r ≡ (ok out, s')
      → (pwd : Text) × (r ≡ ok pwd) × Reset pwd
  with-Reset out fault (err e) h = cc
  with-Reset out (some e) (ok pwd) h = cc
  with-Reset out none (ok pwd) h =
      (pwd, refl, found-Reset pwd out (Users.find_by_username s f.username) refl h)

-- When `debeasy admin reset-password` succeeds, there is an account of that name, and unless it is
-- disabled, the name and the password that the command took are verified as that account's.
pub run_admin_reset_password-Reset :
    (bcrypt : Bcrypt) (salt : ℕ) (now : Text) (f : AdminFlags) (s s' : Store)
    (stdin : Result Text Text) (fault : Option Text) (out : Text)
    → run_admin_reset_password bcrypt salt now f stdin fault s ≡ (ok out, s')
    → (pwd : Text) × (reset_password_text f stdin ≡ ok pwd) × Reset bcrypt salt f s s' pwd
run_admin_reset_password-Reset bcrypt salt now f s s' stdin fault out h =
    with-Reset bcrypt salt f s s' out fault (reset_password_text f stdin)
      (unfold run_admin_reset_password in h)
