-- ===== src/Server/Routes/Guarded.antt =====
-- Which requests reach which handlers: internal/server/server.go.
use debeasy.Base.{
  ℕ, ◌≡◌, refl, ap, ◌∙◌, ◌⊎◌, inl, inr, Bool, true, false, ◌&&◌, Option, some, none, Result, ok,
  err, List, [], ◌∷◌, if_cases, Bool-cases, if◌then◌else◌, any, all, ◌==◌, ==_iff,
}
use debeasy.Base.Text.{Text, codes, ◌≗◌}
use debeasy.Base.Text.Laws.{≗_iff}
use debeasy.Store.{Error}
use debeasy.Store.Users as Accounts
use debeasy.Server.Request.{Request}
use debeasy.Server.Pages.{Response, see_other}
use debeasy.Server.App.{App, Handler, Env}
use debeasy.Server.Middleware.{Access, anyone, users_only, admins_only}
use debeasy.Server.Middleware.Gates.{Refused, Admitted, IsClosed, chain-Admitted}
use debeasy.Server.Routes.{
  Segment, lit, param, rest, Route, match_path, takes_method, find_route, chosen, routed, routes,
  serve_routes, skips_first_run, serve, first_run,
}

-- Whom the first segment of a path is for: the pages in front of the login, the administration of
-- users, and everything else.
abbrev pub segment_access : Text → Access
segment_access s =
    if any (λ p. p ≗ s)
      (codes "static" ∷ codes "healthz" ∷ codes "setup" ∷ codes "login" ∷ codes "logout" ∷ [])
    then anyone
    else if codes "users" ≗ s
    then admins_only
    else users_only

abbrev pub access_of : List Text → Access
access_of [] = users_only
access_of (s ∷ path) = segment_access s

abbrev same_access : Access → Access → Bool
same_access anyone anyone = true
same_access users_only users_only = true
same_access admins_only admins_only = true
same_access _ _ = false

same_access_sound : (x y : Access) → same_access x y ≡ true → x ≡ y
same_access_sound anyone anyone h = refl
same_access_sound anyone users_only h = cc
same_access_sound anyone admins_only h = cc
same_access_sound users_only anyone h = cc
same_access_sound users_only users_only h = refl
same_access_sound users_only admins_only h = cc
same_access_sound admins_only anyone h = cc
same_access_sound admins_only users_only h = cc
same_access_sound admins_only admins_only h = refl

-- A pattern that starts with a fixed segment, for the group of that segment.
abbrev starts_fixed : List Segment → Access → Bool
starts_fixed [] access = same_access access users_only
starts_fixed (lit s ∷ pattern) access = same_access access (segment_access s)
starts_fixed (param ∷ pattern) access = false
starts_fixed (rest ∷ pattern) access = false

unmatched :
    {A : Type 0} (o : Option A) {x : A} (b : Bool)
    → b ≡ false
    → (if b then o else none) ≡ some x
    → ⊥
unmatched o true k e = cc
unmatched o false k e = cc

match-access :
    (pattern : List Segment) (path params : List Text) (access : Access)
    → starts_fixed pattern access ≡ true
    → match_path pattern path ≡ some params
    → access ≡ access_of path
unfolding match_path
match-access [] [] params access h e = same_access_sound access users_only h
match-access [] (s ∷ path) params access h e = cc
match-access (p ∷ pattern) [] params access h e = cc
match-access (lit l ∷ pattern) (s ∷ path) params access h e = elim (Bool-cases (l ≗ s)) [
  | inl k ↦ same_access_sound access (segment_access l) h ∙ ap segment_access ((≗_iff l s).0 k)
  | inr k ↦ absurd (unmatched _ (l ≗ s) k e)
]
match-access (param ∷ pattern) (s ∷ path) params access h e = cc
match-access (rest ∷ pattern) (s ∷ path) params access h e = cc

module _ {W : Type 0} where
  -- Every route is in the group of its first segment.
  abbrev all_fixed : List (Route W) → Bool
  all_fixed = all (λ t. starts_fixed t.pattern t.access)

  chosen-access :
      (x t : Route W) (method : Text) (path params : List Text)
      (later : Option (Route W × List Text))
      → starts_fixed x.pattern x.access ≡ true
      → (later ≡ some (t, params) → t.access ≡ access_of path)
      → (m : Option (List Text)) → match_path x.pattern path ≡ m
      → chosen x method later m ≡ some (t, params)
      → t.access ≡ access_of path
  chosen-access x t method path params later h l none k e = l e
  chosen-access x t method path params later h l (some ps) k e =
      taken (takes_method x.method method) e
    where
      taken :
          (b : Bool)
          → ◌≡◌ {A = Option (Route W × List Text)}
              (if b then some (x, ps) else later)
              (some (t, params))
          → t.access ≡ access_of path
      taken true e =
          let same : x ≡ t = cc in rw (← same) (match-access x.pattern path ps x.access h k)
      taken false e = l e

  find_route-access :
      (ts : List (Route W)) (method : Text) (path : List Text) (t : Route W) (params : List Text)
      → all_fixed ts ≡ true
      → find_route ts method path ≡ some (t, params)
      → t.access ≡ access_of path
  unfolding find_route
  find_route-access [] method path t params h e = cc
  find_route-access (x ∷ xs) method path t params h e =
      let (h0, h1) = both (starts_fixed x.pattern x.access) (all_fixed xs) h in
      chosen-access x t method path params (find_route xs method path) h0
        (find_route-access xs method path t params h1) (match_path x.pattern path) refl e
    where
      both : (a b : Bool) → (a && b) ≡ true → (a ≡ true) × (b ≡ true)
      both true true h = (refl, refl)
      both true false h = cc
      both false b h = cc

module _ {W : Type 0} (env : Env W) (static : Handler W) where
  routes_fixed : all_fixed (routes env static) ≡ true
  unfolding routes ◌≗◌
  routes_fixed = refl

  -- What becomes of a request for a handler: the redirection to the first set-up while there is no
  -- user, a refusal, or the handler's answer to a known user.
  abbrev pub Served : Handler W → Request → App W → Response × App W → Type 0
  Served h r a q =
      ((q ≡ (see_other (codes "/setup"), a)) × (Accounts.count a.store ≡ ok 0))
      ⊎ (Refused env.decode_cookie env.now r a q
          ⊎ Admitted env.decode_cookie env.now (access_of r.path) h r a q)

  module _ (r : Request) (a : App W) (t : Route W) (params : List Text) where
    serve_routes-Served :
        find_route (routes env static) r.method r.path ≡ some (t, params)
        → IsClosed (access_of r.path)
        → Served (t.handler params) r a (serve_routes env static r a)
    unfolding serve_routes routed
    serve_routes-Served e closed =
        let acc = find_route-access (routes env static) r.method r.path t params (routes_fixed) e in
        rw (e, acc)
          (inr (
            chain-Admitted env.decode_cookie env.now (access_of r.path) (t.handler params) r a
              closed))

    first_run-Served :
        (n : Result Error ℕ)
        → Accounts.count a.store ≡ n
        → find_route (routes env static) r.method r.path ≡ some (t, params)
        → IsClosed (access_of r.path)
        → Served (t.handler params) r a (first_run env static r a n)
    first_run-Served (err e) k f closed = serve_routes-Served f closed
    first_run-Served (ok n) k f closed =
        if_cases (Served (t.handler params) r a) (n == 0)
          (λ e. inl (refl, k ∙ ap (λ m. ok m) ((==_iff n 0).0 e)))
          (λ _. serve_routes-Served f closed)

-- A request that a route is there for, and whose path is none of those in front of the login: while there
-- is no user, it is redirected to the set-up, and nothing happens; or it is refused or sent to the
-- login, and nothing happens but the removal of its session where that has expired; or its cookie gives
-- a live session of an enabled user (an administrator, for a path under /users), it carries the session's
-- token unless it only reads, and the route's handler answers it, for that user.
pub serve-Served :
    {W : Type 0} (env : Env W) (static : Handler W) (r : Request) (a : App W) (t : Route W)
    (params : List Text)
    → find_route (routes env static) r.method r.path ≡ some (t, params)
    → IsClosed (access_of r.path)
    → Served env static (t.handler params) r a (serve env static r a)
unfolding serve
serve-Served env static r a t params f closed =
    if_cases (Served env static (t.handler params) r a) (skips_first_run r.path)
      (λ _. serve_routes-Served env static r a t params f closed)
      (λ _. first_run-Served env static r a t params (Accounts.count a.store) refl f closed)
