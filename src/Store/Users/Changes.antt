-- ===== src/Store/Users/Changes.antt =====
-- What `SetDisabled` and `ResetPassword` of internal/store/users.go change for `Verify`.
use mathlib.Core.Option
use debeasy.Base.{
  ℕ, ◌≡◌, ◌≢◌, refl, sym, ap, ◌∙◌, Bool, true, false, List, [], ◌∷◌, map, none, some, Result, ok,
  err, arith, find, if◌then◌else◌, Bool-cases, inl, inr,
}
use debeasy.Base.Text.{Text}
use debeasy.Store.{Store, UserRow, user_disabled}
use debeasy.Store.Users.{
  Bcrypt, user_of, same_name, with_id, named, update_where, set_disabled, reset_with,
  reset_password, verify, verify_row,
}

find-map :
    (p : UserRow → Bool) (g : UserRow → UserRow) (rs : List UserRow)
    → ((r : UserRow) → p (g r) ≡ p r)
    → find p (map g rs) ≡ Option.map g (find p rs)
find-map p g [] h = refl
find-map p g (r ∷ rs) h = elim (Bool-cases (p r)) [
  | inl e ↦ rw (h r, e) refl
  | inr e ↦ rw (h r, e) (find-map p g rs h)
]

module _ (bcrypt : Bcrypt) where
  open bcrypt use {generate, compare_hash, accepts}

  abbrev updated : ℕ → (UserRow → UserRow) → UserRow → UserRow
  updated id f r = if with_id id r then f r else r

  abbrev changed : Store → ℕ → (UserRow → UserRow) → Store
  changed s id f = record s { users = update_where bcrypt id f s.users }

  updated-username :
      (id : ℕ) (f : UserRow → UserRow) (r : UserRow)
      → (f r).username ≡ r.username
      → (updated id f r).username ≡ r.username
  updated-username id f r h = elim (Bool-cases (with_id id r)) [
    | inl e ↦ rw e h
    | inr e ↦ rw e refl
  ]

  -- After an update that keeps the names, a login meets the updated row.
  verify-changed :
      (s : Store) (id : ℕ) (f : UserRow → UserRow) (login password : Text) (r : UserRow)
      → ((x : UserRow) → (f x).username ≡ x.username)
      → s.down ≡ none
      → find (named login) s.users ≡ some r
      → verify bcrypt (changed s id f) login password ≡ verify_row bcrypt password (updated id f r)
  unfolding verify
  verify-changed s id f login password r k up e =
      rw
        (
          up,
          find-map (named login) (updated id f) s.users
              (λ x. ap (λ (n : Text). same_name n login) (updated-username id f x (k x))),
          e,
        )
        refl

  verify_unchanged :
      (s : Store) (login password : Text) (r : UserRow)
      → s.down ≡ none
      → find (named login) s.users ≡ some r
      → verify bcrypt s login password ≡ verify_row bcrypt password r
  unfolding verify
  verify_unchanged s login password r up e = rw (up, e) refl

  -- What a change does to the login of its own user and to the others'.
  verify_change :
      (s : Store) (id : ℕ) (f : UserRow → UserRow) (login password : Text) (r : UserRow)
      → ((x : UserRow) → (f x).username ≡ x.username)
      → s.down ≡ none
      → find (named login) s.users ≡ some r
      → ((r.id ≡ id)
          → verify bcrypt (changed s id f) login password ≡ verify_row bcrypt password (f r))
        × ((r.id ≢ id)
            → verify bcrypt (changed s id f) login password ≡ verify bcrypt s login password)
  verify_change s id f login password r k up e =
      let new = verify-changed s id f login password r k up e in
      let old = verify_unchanged s login password r up e in
      (
        λ same. new ∙ ap (verify_row bcrypt password) (ground arith),
        λ other. new ∙ (ap (verify_row bcrypt password) (ground arith) ∙ sym old),
      )

  set_disabled_ok :
      (s s' : Store) (id : ℕ) (d : Bool)
      → set_disabled bcrypt s id d ≡ (ok tt, s')
      → (s.down ≡ none) × (s' ≡ changed s id (λ r. record r { disabled = d }))
  unfolding set_disabled
  set_disabled_ok s s' id d h = (ground arith, ground arith)

  -- Disabling a user shuts that account out whatever the password, and changes nothing for the
  -- others.
  pub verify-set_disabled :
      (s s' : Store) (id : ℕ) (login password : Text) (r : UserRow)
      → find (named login) s.users ≡ some r
      → set_disabled bcrypt s id true ≡ (ok tt, s')
      → ((r.id ≡ id) → verify bcrypt s' login password ≡ err user_disabled)
        × ((r.id ≢ id) → verify bcrypt s' login password ≡ verify bcrypt s login password)
  unfolding verify_row
  verify-set_disabled s s' id login password r e h =
      let (up, same) = set_disabled_ok s s' id true h in
      rw same
        (verify_change s id (λ x. record x { disabled = true }) login password r (λ x. refl) up e)

  reset_with_ok :
      (s s' : Store) (id : ℕ) (outcome : Result Text Text)
      → reset_with bcrypt s id outcome ≡ (ok tt, s')
      → (hash : Text) × (outcome ≡ ok hash)
        × (s.down ≡ none)
        × (s' ≡ changed s id (λ r. record r { password_hash = hash }))
  unfolding reset_with
  reset_with_ok s s' id (err msg) h = cc
  reset_with_ok s s' id (ok hash) h = (hash, refl, ground arith, ground arith)

  reset_password_ok :
      (s s' : Store) (id : ℕ) (password : Text) (salt : ℕ)
      → reset_password bcrypt s id password salt ≡ (ok tt, s')
      → reset_with bcrypt s id (generate password salt) ≡ (ok tt, s')
  unfolding reset_password
  reset_password_ok s s' id password salt h = ground arith

  accepted_row :
      (password hash : Text) (r : UserRow)
      → r.disabled ≡ false
      → compare_hash hash password ≡ true
      → verify_row bcrypt password (record r { password_hash = hash }) ≡ ok (user_of r)
  unfolding verify_row
  accepted_row password hash r h k = ground arith

  -- A reset makes the new password good for that user, unless disabled, and changes nothing for the
  -- others.
  pub verify-reset_password :
      (s s' : Store) (id : ℕ) (login password other : Text) (salt : ℕ) (r : UserRow)
      → find (named login) s.users ≡ some r
      → reset_password bcrypt s id password salt ≡ (ok tt, s')
      → ((r.id ≡ id) → r.disabled ≡ false → verify bcrypt s' login password ≡ ok (user_of r))
        × ((r.id ≢ id) → verify bcrypt s' login other ≡ verify bcrypt s login other)
  verify-reset_password s s' id login password other salt r e h =
      let (hash, made, up, same) =
        reset_with_ok s s' id (generate password salt)
          (reset_password_ok s s' id password salt h) in
      let change = λ (p : Text).
        verify_change s id (λ x. record x { password_hash = hash }) login p r (λ x. refl) up e in
      rw same (
        λ own enabled.
            (change password).0 own
            ∙ accepted_row password hash r enabled (accepts password salt hash made),
        (change other).1,
      )
