-- ===== src/Store/Users/Accounts.antt =====
-- What accounts promise: `Create`, `Verify`, `SetDisabled` and `ResetPassword` of
-- internal/store/users.go taken together.
use debeasy.Base.{
  ℕ, ◌≡◌, ◌≢◌, refl, sym, ap, ◌∙◌, ◌↔◌, Bool, true, false, List, [], ◌∷◌, map, none, some, Result,
  ok, err, arith, any, find, if◌then◌else◌, Option-cases, inl, inr,
}
use mathlib.Core.Path.{ap₂}
use debeasy.Base.Text.{Text, trim_space}
use debeasy.Base.Text.Laws.{≗_iff}
use debeasy.Store.{Store, UserRow, Error, username_or_password}
use debeasy.Store.Table.{find-append, find_sound}
use debeasy.Store.Users.{
  User, Bcrypt, user_of, fold_case, same_name, with_id, named, known_role, new_row, add_row,
  insert_user, created, create_with, create, verify, verify_row, get,
}
use debeasy.Store.Users.Laws.{IsValid, no_fresh_id}

-- A row that no test of the old rows meets, and that is found by it.
same_name_iff : (a b : Text) → (same_name a b ≡ true) ↔ (map fold_case a ≡ map fold_case b)
unfolding same_name
same_name_iff a b = ≗_iff _ _

-- Names that agree with one name agree with one another.
same_name_join : (a b c : Text) → same_name a c ≡ true → same_name b c ≡ true → same_name a b ≡ true
same_name_join a b c h k =
    (same_name_iff a b).1 ((same_name_iff a c).0 h ∙ sym ((same_name_iff b c).0 k))

none_named :
    (rs : List UserRow) (name login : Text)
    → same_name name login ≡ true
    → any (named name) rs ≡ false
    → any (named login) rs ≡ false
none_named [] name login h k = refl
none_named (r ∷ rs) name login h k =
    ground (arith, same_name_join r.username name login, none_named rs name login h)

ok-injective : {A : Type 0} {a b : A} → ◌≡◌ {A = Result Error A} (ok a) (ok b) → a ≡ b
ok-injective h = cc

unless_err :
    (b : Bool) (e : Error) (s : Store) {s' : Store} {y : Result Error User × Store} {u : User}
    → (if b then (err e, s) else y) ≡ (ok u, s')
    → y ≡ (ok u, s')
unless_err true e s h = cc
unless_err false e s h = h

module _ (bcrypt : Bcrypt) where
  open bcrypt use {generate, compare_hash, accepts}

  created_ok :
      (s : Store) (p : Result Text ℕ × Store) (u : User) (s' : Store)
      → created p ≡ (ok u, s')
      → (id : ℕ) × (p.0 ≡ ok id) × (p.1 ≡ s') × (get s' id ≡ ok u)
  unfolding created
  created_ok s (err msg, t) u s' h = cc
  created_ok s (ok id, t) u s' h =
      let same : t ≡ s' = cc in
      (id, refl, same, rw (← same) (ap (λ (q : Result Error User × Store). q.0) h))

  insert_user_ok :
      (s : Store) (username hash role now : Text) (id : ℕ)
      → (insert_user s username hash role now).0 ≡ ok id
      → (s.down ≡ none)
        × (any (named username) s.users ≡ false)
        × (insert_user s username hash role now
            ≡ (ok id, add_row s (new_row s username hash role now)))
        × (id ≡ s.next_user)
  unfolding insert_user
  insert_user_ok s username hash role now id h =
      (ground arith, ground arith, ground arith, ground arith)

  get_new :
      (s : Store) (r : UserRow)
      → s.down ≡ none
      → IsValid s
      → r.id ≡ s.next_user
      → get (add_row s r) s.next_user ≡ ok (user_of r)
  unfolding get
  get_new s r up v e =
      rw
        (
          up,
          find-append (with_id s.next_user) s.users r (no_fresh_id s.next_user s.users v.fresh)
              (ground arith),
        )
        refl

  -- What a successful `Create` has done, from the outcome of the hash.
  abbrev Added : Store → Text → Text → Text → Text → User → Store → Type 0
  Added s username hash role now u s' =
      (s.down ≡ none)
      × (any (named username) s.users ≡ false)
      × (s' ≡ add_row s (new_row s username hash role now))
      × (u ≡ user_of (new_row s username hash role now))

  create_with_ok :
      (s s' : Store) (username role now : Text) (outcome : Result Text Text) (u : User)
      → IsValid s
      → create_with bcrypt s username role now outcome ≡ (ok u, s')
      → (hash : Text) × (outcome ≡ ok hash) × Added s username hash role now u s'
  unfolding create_with
  create_with_ok s s' username role now (err msg) u v h = cc
  create_with_ok s s' username role now (ok hash) u v h =
      let (id, e0, e1, g) = created_ok s (insert_user s username hash role now) u s' h in
      let (up, free, ins, eid) = insert_user_ok s username hash role now id e0 in
      let row = new_row s username hash role now in
      let added : s' ≡ add_row s row = sym e1 ∙ ap (λ (q : Result Text ℕ × Store). q.1) ins in
      let found : ◌≡◌ {A = Result Error User} (ok u) (ok (user_of row)) =
        sym g ∙ (ap₂ get added eid ∙ get_new s row up v refl) in
      (hash, refl, (up, free, added, ok-injective found))

  create_ok :
      (s s' : Store) (username password role : Text) (salt : ℕ) (now : Text) (u : User)
      → IsValid s
      → create bcrypt s username password role salt now ≡ (ok u, s')
      → (hash : Text) × (generate password salt ≡ ok hash)
        × Added s (trim_space username) hash (known_role role) now u s'
  unfolding create
  create_ok s s' username password role salt now u v h =
      create_with_ok s s' (trim_space username) (known_role role) now (generate password salt) u v
        (unless_err _ username_or_password s h)

  -- A created account can be used at once: whoever gives its name, in upper or lower case, and its
  -- password is verified as the user that `Create` returned.
  pub verify-create :
      (s s' : Store) (username password role : Text) (salt : ℕ) (now : Text) (u : User)
      (login : Text)
      → IsValid s
      → create bcrypt s username password role salt now ≡ (ok u, s')
      → same_name (trim_space username) login ≡ true
      → verify bcrypt s' login password ≡ ok u
  unfolding verify verify_row
  verify-create s s' username password role salt now u login v h same =
      let (hash, made, (up, free, added, eu)) =
        create_ok s s' username password role salt now u v h in
      let name = trim_space username in
      let row = new_row s name hash (known_role role) now in
      let found =
        find-append (named login) s.users row (none_named s.users name login same free) same in
      rw (added, eu, up, found, accepts password salt hash made) refl

  verify_row_ok :
      (password : Text) (r : UserRow) (u : User)
      → verify_row bcrypt password r ≡ ok u
      → (r.disabled ≡ false) × (compare_hash r.password_hash password ≡ true) × (u ≡ user_of r)
  unfolding verify_row
  verify_row_ok password r u h = (ground arith, ground arith, ground arith)

  verify-none :
      (s : Store) (login password : Text) (u : User)
      → find (named login) s.users ≡ none
      → verify bcrypt s login password ≢ ok u
  unfolding verify
  verify-none s login password u e h = ground arith

  verify-some :
      (s : Store) (login password : Text) (u : User) (r : UserRow)
      → find (named login) s.users ≡ some r
      → verify bcrypt s login password ≡ ok u
      → (s.down ≡ none) × (verify_row bcrypt password r ≡ ok u)
  unfolding verify
  verify-some s login password u r e h = (ground arith, ground arith)

  -- `Verify` succeeds only for a user with that name who is not disabled and whose hash accepts the
  -- password, and returns that user.
  pub verify_sound :
      (s : Store) (login password : Text) (u : User)
      → verify bcrypt s login password ≡ ok u
      → (r : UserRow) × (find (named login) s.users ≡ some r)
        × (same_name r.username login ≡ true)
        × (r.disabled ≡ false)
        × (compare_hash r.password_hash password ≡ true)
        × (u ≡ user_of r)
  unfolding verify
  verify_sound s login password u h = elim (Option-cases (find (named login) s.users)) [
    | inl e ↦ absurd (verify-none s login password u e h)
    | inr (r, e) ↦
        let (up, row) = verify-some s login password u r e h in
        let (enabled, accepted, same) = verify_row_ok password r u row in
        (r, e, find_sound (named login) s.users e, enabled, accepted, same)
  ]
