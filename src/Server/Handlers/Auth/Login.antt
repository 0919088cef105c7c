-- ===== src/Server/Handlers/Auth/Login.antt =====
-- What a login is good for: internal/server/handlers_auth.go with the session's look-up of
-- internal/server/middleware.go.
use debeasy.Base.{
  ◌+◌, ◌≡◌, refl, sym, ap, ◌∙◌, Bool, true, false, some, Result, ok, err, map_err, find,
}
use debeasy.Base.Text.{Text, codes}
use debeasy.Store
use debeasy.Store.{Store}
use debeasy.Store.Users as Accounts
use debeasy.Store.Users.{User}
use debeasy.Store.Sessions
use debeasy.Store.Sessions.{Session, second, session, session_row, has_sid}
use debeasy.Store.Sessions.Laws.{create_ok, get_live, get_expired, get_missing, find-create}
use debeasy.Server.RateLimit.{Limiter, allow, client_ip}
use debeasy.Server.Request.{Request, form_value}
use debeasy.Server.Pages.{Message, plain, cookie_set}
use debeasy.Server.App.{App, Context, Env}
use debeasy.Server.Middleware.{with_session}
use debeasy.Server.Handlers.Auth.{
  session_ttl, with_session_row, start_session, redirected, next_or_home, login_checked,
  login_limited, handle_login_submit,
}
use debeasy.Server.Handlers.Auth.Cookie.{
  IsCodec, session_end, WhileStored, OnceGone, middleware-cookie, with_user-context_of,
}

module _ {W : Type 0} (env : Env W) where
  -- The cookie and the session behind it.
  abbrev pub Started : User → App W → Text → App W → Type 0
  Started u a v a' =
      (sid : Text) × (csrf : Text) × (sess : Session) × (env.new_sid ≡ ok sid)
      × (env.encode_cookie sid ≡ ok v)
      × (Sessions.create a.store u.id session_ttl env.now (ok sid) (ok csrf) ≡ (ok sess, a'.store))

  redirected-cookie_set :
      (location v : Text) (p : Result Message Text × App W)
      → (redirected env location p).0.cookie ≡ cookie_set v
      → p ≡ (ok v, (redirected env location p).1)
  redirected-cookie_set location v (err e, a) h = cc
  redirected-cookie_set location v (ok x, a) h = let same : x ≡ v = cc in rw same refl

  with_session_row-ok :
      (a a' : App W) (v : Text) (p : Result Store.Error Session × Store)
      → with_session_row env a p ≡ (ok v, a')
      → (sess : Session) × (p ≡ (ok sess, a'.store)) × (env.encode_cookie sess.id ≡ ok v)
  with_session_row-ok a a' v (err e, s) h = cc
  with_session_row-ok a a' v (ok sess, s) h =
      (sess, stored, encoded (env.encode_cookie sess.id) (ap (λ p. p.0) h))
    where
      stored : ◌≡◌ {A = Result Store.Error Session × Store} (ok sess, s) (ok sess, a'.store)
      stored = ap (λ q. (ok sess, q.1.store)) h

      encoded : (o : Result Text Text) → map_err plain o ≡ ok v → o ≡ ok v
      encoded (err e) k = cc
      encoded (ok w) k = cc

  started :
      (u : User) (a a' : App W) (v : Text) (sid csrf : Result Text Text)
      → env.new_sid ≡ sid
      → with_session_row env a (Sessions.create a.store u.id session_ttl env.now sid csrf)
        ≡ (ok v, a')
      → Started u a v a'
  unfolding Sessions.create
  started u a a' v (err x) csrf e h = cc
  started u a a' v (ok id) (err x) e h = cc
  started u a a' v (ok id) (ok token) e h =
      let p = Sessions.create a.store u.id session_ttl env.now (ok id) (ok token) in
      let (sess, made, encoded) = with_session_row-ok a a' v p h in
      let (_, _, _, _, same) =
        create_ok a.store a'.store u.id session_ttl env.now id token sess made in
      (id, token, sess, e, ap (λ x. env.encode_cookie x.id) (sym same) ∙ encoded, made)

  abbrev pub Recognised : User → Text → App W → Type 0
  Recognised u v a' =
      (sid : Text) × (csrf : Text) × (find (has_sid sid) a'.store.sessions
        ≡ some (session_row sid csrf u.id (env.now + session_ttl)))
      × WhileStored env u v sid csrf
      × OnceGone env v sid

  Started-Recognised :
      (u : User) (a a' : App W) (v : Text) → IsCodec env → Started u a v a' → Recognised u v a'
  Started-Recognised u a a' v codec (sid, csrf, sess, e, encoded, made) =
      let exp = env.now + session_ttl in
      (
        sid,
        csrf,
        find-create a.store a'.store u.id session_ttl env.now sid csrf sess made,
        λ next r later b cookie up found.
            let looked = middleware-cookie env v sid next r later b codec e encoded cookie in
            (
              λ live.
                  looked
                  ∙ (ap (with_session next r b)
                        (get_live b.store u.id exp later sid csrf up found live)
                      ∙ with_user-context_of env next r (session sid csrf u.id (session_end env)) b
                          (Accounts.get b.store u.id)),
              λ gone.
                  looked
                  ∙ ap (with_session next r b)
                      (get_expired b.store u.id exp later sid csrf up found gone),
            ),
        λ next r later b cookie up missing.
            middleware-cookie env v sid next r later b codec e encoded cookie
            ∙ ap (with_session next r b) (get_missing b.store later sid up missing),
      )

  login-Started :
      (r : Request) (a : App W) (v : Text) (m : Result Store.Error User)
      → (login_checked env r a m).0.cookie ≡ cookie_set v
      → (u : User) × (m ≡ ok u) × Started u a v (login_checked env r a m).1
  login-Started r a v (err e) h = cc
  login-Started r a v (ok u) h =
      let to = next_or_home (form_value r (codes "next")) in
      let q = start_session env u a in
      let e = redirected-cookie_set to v q h in
      (
        u,
        refl,
        started u a (redirected env to q).1 v env.new_sid env.new_csrf refl
            (unfold start_session in e),
      )

  limited-Started :
      (r : Request) (a : App W) (v : Text) (p : Bool × Limiter)
      → (login_limited env r a p).0.cookie ≡ cookie_set v
      → (u : User) × (Accounts.verify env.bcrypt a.store
            (form_value r (codes "username"))
            (form_value r (codes "password"))
          ≡ ok u)
        × Started u a v (login_limited env r a p).1
  limited-Started r a v (false, l) h = cc
  limited-Started r a v (true, l) h = login-Started r (record a { limiter = l }) v _ h

-- A login that sets a cookie was with the name and the password of an enabled account, and leaves a row
-- of a session of that account in the table. Whatever else happens to the application, each later request
-- with the cookie, while the database can be used: as long as the row is there and the session has not
-- ended (in whole seconds), it is served as the account, as the table of users then has it, or, if the
-- account is disabled by then or gone, as anonymous; after the end, or once the row is gone, it is
-- anonymous.
pub handle_login_submit-Recognised :
    {W : Type 0} (env : Env W) (c : Context) (r : Request) (a : App W) (v : Text)
    → IsCodec env
    → (handle_login_submit env c r a).0.cookie ≡ cookie_set v
    → (u : User) × (Accounts.verify env.bcrypt a.store
          (form_value r (codes "username"))
          (form_value r (codes "password"))
        ≡ ok u)
      × Recognised env u v (handle_login_submit env c r a).1
unfolding handle_login_submit
handle_login_submit-Recognised env c r a v codec h =
    let (u, checked, s) =
      limited-Started env r a v
        (allow env.refill a.limiter (client_ip r.forwarded r.remote) env.now) h in
    (u, checked, Started-Recognised env u a (handle_login_submit env c r a).1 v codec s)
