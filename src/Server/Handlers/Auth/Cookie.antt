-- ===== src/Server/Handlers/Auth/Cookie.antt =====
-- What a request with the cookie of a session is served as: sessionMiddleware of
-- internal/server/middleware.go, with the look-up of the session.
use debeasy.Base.{
  ℕ, ◌+◌, ◌*◌, ◌/◌, ◌≤◌, ◌≡◌, refl, ap, ◌∙◌, Bool, true, false, some, Result, ok, err, is_empty,
  find, none, ◌<◌, if◌then◌else◌, at, if_no,
}
use debeasy.Base.Text.{Text}
use debeasy.Store
use debeasy.Store.{Store}
use debeasy.Store.Users as Accounts
use debeasy.Store.Users.{User}
use debeasy.Store.Sessions
use debeasy.Store.Sessions.{Session, second, session, session_row, has_sid}
use debeasy.Server.Request.{Request}
use debeasy.Server.Pages.{Response}
use debeasy.Server.App.{App, Context, anonymous, Handler, Env}
use debeasy.Server.Middleware.{
  decoded, cookie_sid, session_id, with_session, with_user, session_middleware,
}
use debeasy.Server.Handlers.Auth.{session_ttl}

-- What the server relies on: the cookie codec decodes what it has encoded, and a random id is not empty.
pub record IsCodec {W : Type 0} (env : Env W) : Type 0 where
  pub decodes : (sid v : Text) → env.encode_cookie sid ≡ ok v → env.decode_cookie v ≡ some sid
  pub filled : (sid : Text) → env.new_sid ≡ ok sid → is_empty sid ≡ false

module _ {W : Type 0} (env : Env W) where
  -- The context of a request with a live session, by its account.
  abbrev pub context_of : Session → Result Store.Error User → Context
  context_of sess (err e) = anonymous
  context_of sess (ok u) =
      if u.disabled then anonymous else record { user = some u; session = some sess }

  -- The end of a session that starts now, in whole seconds.
  abbrev pub session_end : ℕ
  session_end = (env.now + session_ttl) / second * second

  abbrev pub Middleware : Type 0
  Middleware = Handler W → Request → ℕ → App W → Response × App W

  -- `sessionMiddleware`, of a request at some later time, in whatever state the application is then.
  abbrev pub middleware : Middleware
  middleware next r later b = session_middleware env.decode_cookie later next r b

  -- The session of an account, as long as its row is in the table.
  abbrev pub WhileStored : User → Text → Text → Text → Type 0
  WhileStored u v sid csrf =
      (next : Handler W) (r : Request) (later : ℕ) (b : App W)
      → r.cookie ≡ some v
      → b.store.down ≡ none
      → find (has_sid sid) b.store.sessions
        ≡ some (session_row sid csrf u.id (env.now + session_ttl))
      → (later ≤ session_end
          → middleware next r later b
            ≡ next (context_of (session sid csrf u.id session_end) (Accounts.get b.store u.id)) r b)
        × (session_end < later
            → middleware next r later b
              ≡ next anonymous r (record b { store = (Sessions.get b.store sid later).1 }))

  -- The same cookie, once the row is gone.
  abbrev pub OnceGone : Text → Text → Type 0
  OnceGone v sid =
      (next : Handler W) (r : Request) (later : ℕ) (b : App W)
      → r.cookie ≡ some v
      → b.store.down ≡ none
      → find (has_sid sid) b.store.sessions ≡ none
      → middleware next r later b ≡ next anonymous r b

  -- With the cookie of a session, the middleware is the look-up of the session.
  pub middleware-cookie :
      (v sid : Text) (next : Handler W) (r : Request) (later : ℕ) (b : App W)
      → IsCodec env
      → env.new_sid ≡ ok sid
      → env.encode_cookie sid ≡ ok v
      → r.cookie ≡ some v
      → middleware next r later b ≡ with_session next r b (Sessions.get b.store sid later)
  unfolding session_middleware
  middleware-cookie v sid next r later b codec e encoded cookie =
      let id : session_id env.decode_cookie r ≡ sid =
        ap (cookie_sid env.decode_cookie) cookie ∙ ap decoded (codec.decodes sid v encoded) in
      let found = with_session next r b (Sessions.get b.store sid later) in
      let Is : Response × App W → Type 0 = λ q. q ≡ found in
      at Is
        (λ x.
          if is_empty x
          then next anonymous r b
          else with_session next r b (Sessions.get b.store x later))
        id (if_no Is _ (codec.filled sid e) refl)

  pub with_user-context_of :
      (next : Handler W) (r : Request) (sess : Session) (b : App W) (u : Result Store.Error User)
      → with_user next r sess b u ≡ next (context_of sess u) r b
  with_user-context_of next r sess b (err e) = refl
  with_user-context_of next r sess b (ok u) = either u.disabled
    where
      either :
          (disabled : Bool)
          → (if disabled
              then next anonymous r b
              else next (record { user = some u; session = some sess }) r b)
            ≡ next
                (if disabled then anonymous else record { user = some u; session = some sess })
                r
                b
      either true = refl
      either false = refl
