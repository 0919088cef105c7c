-- ===== src/Store/Users/Laws.antt =====
-- The table of users keeps its invariant under every operation of internal/store/users.go.
use debeasy.Base.{
  ◌⊎◌, true, ℕ, suc, ◌<◌, ◌≡◌, refl, ◌∙◌, Bool, false, ◌||◌, List, [], ◌∷◌, map, Result, ok, err,
  arith, any, ◌==◌, ltb, is_empty, if◌then◌else◌, All, All-append, Bool-cases, inl, inr, if_cases,
}
use debeasy.Base.Text.{Text, codes, ◌≗◌, trim_space, byte_length}
use debeasy.Base.Text.Laws.{≗_iff}
use debeasy.Store.{Store, UserRow, if_up_cases}
use debeasy.Store.Table.{Distinct, Distinct-append}
use debeasy.Store.Users.{
  Bcrypt, same_name, with_id, named, known_role, new_row, add_row, insert_user, created,
  create_with, create, set_disabled, reset_with, reset_password,
}

abbrev pub same_username : UserRow → UserRow → Bool
same_username a b = same_name a.username b.username

abbrev pub same_id : UserRow → UserRow → Bool
same_id a b = a.id == b.id

abbrev pub IsKnownRole : Text → Type 0
IsKnownRole role = (role ≡ codes "admin") ⊎ (role ≡ codes "user")

-- No two users have one name, upper and lower case being alike, or one id; ids are below the
-- counter; and every role is "admin" or "user".
pub record IsValid (s : Store) : Type 0 where
  pub names : Distinct same_username s.users
  pub ids : Distinct same_id s.users
  pub fresh : All (λ r. r.id < s.next_user) s.users
  pub roles : All (λ r. IsKnownRole r.role) s.users

-- The state behind a result is valid.
abbrev LeavesValid {ℓ} : {A : Type ℓ} → A × Store → Type 0
LeavesValid p = IsValid p.1

known_role-IsKnownRole : (role : Text) → IsKnownRole (known_role role)
known_role-IsKnownRole role =
    if_cases IsKnownRole (role ≗ codes "admin" || role ≗ codes "user")
      (λ e.
        either (role ≗ codes "admin") (role ≗ codes "user") e (≗_iff role (codes "admin")).0
          (≗_iff role (codes "user")).0)
      (λ _. inr refl)
  where
    either :
        (a b : Bool)
        → (a || b) ≡ true
        → (a ≡ true → role ≡ codes "admin")
        → (b ≡ true → role ≡ codes "user")
        → IsKnownRole role
    either true b e f g = inl (f refl)
    either false b e f g = inr (g e)

below_suc : (n : ℕ) (rs : List UserRow) → All (λ r. r.id < n) rs → All (λ r. r.id < suc n) rs
below_suc n [] h = tt
below_suc n (r ∷ rs) (h, hs) = (omega arith, below_suc n rs hs)

pub no_fresh_id : (n : ℕ) (rs : List UserRow) → All (λ r. r.id < n) rs → any (with_id n) rs ≡ false
no_fresh_id n [] h = refl
no_fresh_id n (r ∷ rs) (h, hs) = ground (arith, no_fresh_id n rs hs)

add_row-IsValid :
    (s : Store) (username hash role now : Text)
    → IsValid s
    → any (named username) s.users ≡ false
    → IsKnownRole role
    → IsValid (add_row s (new_row s username hash role now))
add_row-IsValid s username hash role now v h k =
    let r = new_row s username hash role now in
    record {
      names = Distinct-append same_username s.users r v.names h;
      ids = Distinct-append same_id s.users r v.ids (no_fresh_id s.next_user s.users v.fresh);
      fresh =
          All-append (λ r. r.id < suc s.next_user) s.users (r ∷ [])
            (below_suc s.next_user s.users v.fresh) (omega arith, tt);
      roles = All-append (λ r. IsKnownRole r.role) s.users (r ∷ []) v.roles (k, tt);
    }

-- An update that keeps a row's name, id and role.
abbrev Keeps : (UserRow → UserRow) → Type 0
Keeps f = (r : UserRow) → ((f r).username ≡ r.username) × ((f r).id ≡ r.id) × ((f r).role ≡ r.role)

any-map_same :
    (same : UserRow → UserRow → Bool) (f : UserRow → UserRow) (x : UserRow) (rs : List UserRow)
    → ((a b : UserRow) → same (f a) (f b) ≡ same a b)
    → any (same (f x)) (map f rs) ≡ any (same x) rs
any-map_same same f x [] h = refl
any-map_same same f x (r ∷ rs) h = rw (h x r, any-map_same same f x rs h)

Distinct-map :
    (same : UserRow → UserRow → Bool) (f : UserRow → UserRow) (rs : List UserRow)
    → ((a b : UserRow) → same (f a) (f b) ≡ same a b)
    → Distinct same rs
    → Distinct same (map f rs)
Distinct-map same f [] h d = tt
Distinct-map same f (r ∷ rs) h (d, ds) =
    (any-map_same same f r rs h ∙ d, Distinct-map same f rs h ds)

All-map :
    (P : UserRow → Type 0) (f : UserRow → UserRow) (rs : List UserRow)
    → ((r : UserRow) → P r → P (f r))
    → All P rs
    → All P (map f rs)
All-map P f [] h a = tt
All-map P f (r ∷ rs) h (a, as') = (h r a, All-map P f rs h as')

map-IsValid :
    (s : Store) (f : UserRow → UserRow)
    → Keeps f
    → IsValid s
    → IsValid (record s { users = map f s.users })
map-IsValid s f k v = record {
  names = Distinct-map same_username f s.users (λ a b. rw ((k a).0, (k b).0)) v.names;
  ids = Distinct-map same_id f s.users (λ a b. rw ((k a).1, (k b).1)) v.ids;
  fresh = All-map (λ r. r.id < s.next_user) f s.users (λ r h. rw (k r).1 h) v.fresh;
  roles = All-map (λ r. IsKnownRole r.role) f s.users (λ r h. rw (k r).2 h) v.roles;
}

where_Keeps :
    (id : ℕ) (f : UserRow → UserRow) → Keeps f → Keeps (λ r. if with_id id r then f r else r)
where_Keeps id f k r = elim (Bool-cases (with_id id r)) [
  | inl e ↦ rw e (k r)
  | inr e ↦ rw e (refl, refl, refl)
]

-- The operations that write the table.
pub data Call : Type 0 where
  creates : Text → Text → Text → ℕ → Text → Call
  disables : ℕ → Bool → Call
  resets : ℕ → Text → ℕ → Call

module _ (bcrypt : Bcrypt) where
  open bcrypt use {generate}

  pub step : Store → Call → Store
  step s (creates username password role salt now) =
      (create bcrypt s username password role salt now).1
  step s (disables id disabled) = (set_disabled bcrypt s id disabled).1
  step s (resets id password salt) = (reset_password bcrypt s id password salt).1

  insert_user-IsValid :
      (s : Store) (username hash role now : Text)
      → IsValid s
      → IsKnownRole role
      → IsValid (insert_user s username hash role now).1
  unfolding insert_user
  insert_user-IsValid s username hash role now v k =
      if_up_cases LeavesValid s.down _ _ (λ msg. v)
        (if_cases LeavesValid (any (named username) s.users) (λ _. v)
          λ free. add_row-IsValid s username hash role now v free k)

  created-IsValid : (p : Result Text ℕ × Store) → IsValid p.1 → IsValid (created p).1
  unfolding created
  created-IsValid (err msg, s) v = v
  created-IsValid (ok id, s) v = v

  create_with-IsValid :
      (s : Store) (username role now : Text) (hash : Result Text Text)
      → IsValid s
      → IsKnownRole role
      → IsValid (create_with bcrypt s username role now hash).1
  unfolding create_with
  create_with-IsValid s username role now (err msg) v k = v
  create_with-IsValid s username role now (ok hash) v k =
      created-IsValid (insert_user s username hash role now)
        (insert_user-IsValid s username hash role now v k)

  create-IsValid :
      (s : Store) (username password role : Text) (salt : ℕ) (now : Text)
      → IsValid s
      → IsValid (create bcrypt s username password role salt now).1
  unfolding create
  create-IsValid s username password role salt now v =
      if_cases LeavesValid (is_empty (trim_space username) || ltb (byte_length password) 8) (λ _. v)
        λ _.
          create_with-IsValid s (trim_space username) (known_role role) now (generate password salt)
            v (known_role-IsKnownRole role)

  set_disabled-IsValid :
      (s : Store) (id : ℕ) (d : Bool) → IsValid s → IsValid (set_disabled bcrypt s id d).1
  unfolding set_disabled
  set_disabled-IsValid s id d v =
      if_up_cases LeavesValid s.down _ _ (λ msg. v)
        (map-IsValid s _ (where_Keeps id _ (λ r. (refl, refl, refl))) v)

  reset_with-IsValid :
      (s : Store) (id : ℕ) (hash : Result Text Text)
      → IsValid s
      → IsValid (reset_with bcrypt s id hash).1
  unfolding reset_with
  reset_with-IsValid s id (err msg) v = v
  reset_with-IsValid s id (ok hash) v =
      if_up_cases LeavesValid s.down _ _ (λ msg. v)
        (map-IsValid s _ (where_Keeps id _ (λ r. (refl, refl, refl))) v)

  reset_password-IsValid :
      (s : Store) (id : ℕ) (password : Text) (salt : ℕ)
      → IsValid s
      → IsValid (reset_password bcrypt s id password salt).1
  unfolding reset_password
  reset_password-IsValid s id password salt v =
      if_cases LeavesValid (ltb (byte_length password) 8) (λ _. v)
        λ _. reset_with-IsValid s id (generate password salt) v

  -- Every operation keeps user names unique (upper and lower case being alike), ids unique and below
  -- the counter, and every role "admin" or "user", whether it succeeds or fails.
  pub user_step-IsValid : (s : Store) (c : Call) → IsValid s → IsValid (step s c)
  unfolding step
  user_step-IsValid s (creates username password role salt now) =
      create-IsValid s username password role salt now
  user_step-IsValid s (disables id disabled) = set_disabled-IsValid s id disabled
  user_step-IsValid s (resets id password salt) = reset_password-IsValid s id password salt
