-- ===== src/Server/Middleware/Gates.antt =====
-- Which requests reach a handler: internal/server/middleware.go.
use debeasy.Base.{
  ℕ, ◌≡◌, refl, ◌⊎◌, inl, inr, Bool, true, false, not, ◌||◌, Option, some, Result, ok, err,
  if_cases, Bool-cases, is_empty, if◌then◌else◌,
}
use debeasy.Base.Text.{Text, ◌≗◌}
use debeasy.Base.Text.Laws.{≗_iff}
use debeasy.Store.{Store, Error}
use debeasy.Store.Users
use debeasy.Store.Users.{User, is_admin}
use debeasy.Store.Sessions
use debeasy.Store.Sessions.{Session}
use debeasy.Server.Request.{Request}
use debeasy.Server.Pages.{Response}
use debeasy.Server.App.{App, Context, anonymous, Handler}
use debeasy.Server.Middleware.{
  session_id, with_user, with_session, session_middleware, unauthenticated, admin_required,
  bad_token, Access, anyone, users_only, admins_only, require_auth, require_admin, guard, is_safe,
  csrf_token, csrf_middleware, chain, admin_route,
}

-- A request that only reads, or that carries the session's token.
abbrev pub HasToken : Request → Session → Type 0
HasToken r sess = (is_safe r.method ≡ true) ⊎ (csrf_token r ≡ sess.csrf_token)

abbrev pub known : User → Session → Context
known u sess = record { user = some u; session = some sess }

-- Whom a group lets pass.
abbrev pub MayUse : Access → User → Type 0
MayUse anyone u = Unit
MayUse users_only u = Unit
MayUse admins_only u = is_admin u ≡ true

-- A group that is closed to strangers.
abbrev pub IsClosed : Access → Type 0
IsClosed anyone = ⊥
IsClosed users_only = Unit
IsClosed admins_only = Unit

module _ {W : Type 0} (decode : Text → Option Text) (now : ℕ) where
  -- The application after the look-up of the session, which removes one that has expired.
  abbrev pub looked_up : Request → App W → App W
  looked_up r a =
      let sid = session_id decode r in
      if is_empty sid then a else record a { store = (Sessions.get a.store sid now).1 }

  -- The answer is a redirection to the login page or a refusal, and nothing else has happened.
  abbrev pub Refused : Request → App W → Response × App W → Type 0
  Refused r a q =
      ((q.0 ≡ unauthenticated r) ⊎ ((q.0 ≡ admin_required) ⊎ (q.0 ≡ bad_token)))
      × (q.1 ≡ looked_up r a)

  -- The handler ran for a user whose session is alive, whose account is enabled and whom the group
  -- lets pass.
  abbrev pub Admitted : Access → Handler W → Request → App W → Response × App W → Type 0
  Admitted access h r a q =
      (sess : Session) × (u : User) × (s : Store) × (Sessions.get a.store (session_id decode r) now
        ≡ (ok sess, s))
      × (Users.get s sess.user_id ≡ ok u)
      × (u.disabled ≡ false)
      × MayUse access u
      × HasToken r sess
      × (q ≡ h (known u sess) r (record a { store = s }))

module _ {W : Type 0} (access : Access) (closed : IsClosed access) (h : Handler W) where
  abbrev tail : Handler W
  tail = csrf_middleware (guard access h)

  guard-anonymous :
      (acc : Access)
      → IsClosed acc
      → (r : Request) (a : App W) → guard acc h anonymous r a ≡ (unauthenticated r, a)
  unfolding require_auth
  guard-anonymous anyone x r a = elim x [ ]
  guard-anonymous users_only _ r a = refl
  guard-anonymous admins_only _ r a = refl

  tail-anonymous : (r : Request) (a : App W) → tail anonymous r a ≡ (unauthenticated r, a)
  unfolding csrf_middleware
  tail-anonymous r a =
      if_cases (λ q. q ≡ (unauthenticated r, a)) (is_safe r.method)
        (λ _. guard-anonymous access closed r a) (λ _. guard-anonymous access closed r a)

  -- What the inner gates do for a known user.
  abbrev Passed : Access → User → Session → Request → App W → Response × App W → Type 0
  Passed acc u sess r a q =
      (((q.0 ≡ admin_required) ⊎ (q.0 ≡ bad_token)) × (q.1 ≡ a))
      ⊎ (MayUse acc u × HasToken r sess × (q ≡ h (known u sess) r a))

  guard-Passed :
      (acc : Access) (u : User) (sess : Session) (r : Request) (a : App W)
      → HasToken r sess
      → Passed acc u sess r a (guard acc h (known u sess) r a)
  unfolding require_auth require_admin
  guard-Passed anyone u sess r a t = inr (tt, t, refl)
  guard-Passed users_only u sess r a t = inr (tt, t, refl)
  guard-Passed admins_only u sess r a t =
      if_cases (Passed admins_only u sess r a) (is_admin u) (λ e. inr (e, t, refl))
        (λ _. inl (inl refl, refl))

  tail-Passed :
      (u : User) (sess : Session) (r : Request) (a : App W)
      → Passed access u sess r a (tail (known u sess) r a)
  unfolding csrf_middleware
  tail-Passed u sess r a =
      if_cases (Passed access u sess r a) (is_safe r.method)
        (λ e. guard-Passed access u sess r a (inl e))
        (λ _.
          if_cases (Passed access u sess r a)
            (is_empty (csrf_token r) || not (csrf_token r ≗ sess.csrf_token))
            (λ _. inl (inr refl, refl))
            (λ e.
              guard-Passed access u sess r a
                (inr ((≗_iff (csrf_token r) sess.csrf_token).0 (same _ _ e)))))
    where
      same : (a b : Bool) → (a || not b) ≡ false → b ≡ true
      same true b e = cc
      same false true e = refl
      same false false e = cc

  module _ (decode : Text → Option Text) (now : ℕ) (r : Request) (a : App W) where
    -- The outcome, by the application that the session's look-up leaves.
    abbrev Outcome : App W → Response × App W → Type 0
    Outcome a1 q =
        (((q.0 ≡ unauthenticated r) ⊎ ((q.0 ≡ admin_required) ⊎ (q.0 ≡ bad_token))) × (q.1 ≡ a1))
        ⊎ Admitted decode now access h r a q

    anonymous-Outcome : (a1 : App W) → Outcome a1 (tail anonymous r a1)
    anonymous-Outcome a1 = rw (tail-anonymous r a1) (inl (inl refl, refl))

    user_Outcome :
        (sess : Session) (s : Store) (m : Result Error User)
        → Sessions.get a.store (session_id decode r) now ≡ (ok sess, s)
        → Users.get s sess.user_id ≡ m
        → Outcome (record a { store = s }) (with_user tail r sess (record a { store = s }) m)
    user_Outcome sess s (err e) g k = anonymous-Outcome (record a { store = s })
    user_Outcome sess s (ok u) g k =
        let a1 = record a { store = s } in
        if_cases (Outcome a1) u.disabled (λ _. anonymous-Outcome a1)
          (λ enabled. admitted (tail-Passed u sess r a1) enabled)
      where
        admitted :
            Passed access u sess r
              (record a { store = s })
              (tail (known u sess) r (record a { store = s }))
            → u.disabled ≡ false
            → Outcome (record a { store = s }) (tail (known u sess) r (record a { store = s }))
        admitted (inl (x, e)) enabled = inl (inr x, e)
        admitted (inr (may, t, e)) enabled = inr (sess, u, s, g, k, enabled, may, t, e)

    session_Outcome :
        (p : Result Error Session × Store)
        → Sessions.get a.store (session_id decode r) now ≡ p
        → Outcome (record a { store = p.1 }) (with_session tail r a p)
    session_Outcome (err e, s) g = anonymous-Outcome (record a { store = s })
    session_Outcome (ok sess, s) g = user_Outcome sess s (Users.get s sess.user_id) g refl

-- Every request to a route that is closed to strangers is refused or redirected to the login page,
-- and nothing happens but the removal of its session where that has expired; or its cookie gives a live
-- session whose user is enabled (and an administrator, for an administrators' route) and, unless it
-- only reads, it carries the session's token: then the handler runs, for that user.
pub chain-Admitted :
    {W : Type 0} (decode : Text → Option Text) (now : ℕ) (access : Access) (h : Handler W)
    (r : Request) (a : App W)
    → IsClosed access
    → Refused decode now r a (chain decode now (guard access h) r a)
      ⊎ Admitted decode now access h r a (chain decode now (guard access h) r a)
unfolding chain session_middleware
chain-Admitted decode now access h r a closed = elim (Bool-cases (is_empty (session_id decode r))) [
  | inl e ↦ rw e (anonymous-Outcome access closed h decode now r a a)
  | inr e ↦ rw e (
      session_Outcome access closed h decode now r a
        (Sessions.get a.store (session_id decode r) now) refl)
]

-- So for the chain in front of the administrators' handlers.
pub admin_route-Admitted :
    {W : Type 0} (decode : Text → Option Text) (now : ℕ) (h : Handler W) (r : Request) (a : App W)
    → Refused decode now r a (admin_route decode now h r a)
      ⊎ Admitted decode now admins_only h r a (admin_route decode now h r a)
unfolding admin_route
admin_route-Admitted decode now h r a = chain-Admitted decode now admins_only h r a tt
