-- ===== src/Server/Handlers/Auth.antt =====
-- internal/server/handlers_auth.go: the first account, the login and the logout. The attributes of
-- the cookies are left out.
pub mod Cookie
pub mod Login
use debeasy.Base.{
  ℕ, ◌*◌, Bool, true, false, not, Option, none, some, List, [], ◌∷◌, Result, ok, err, map_err,
  if◌then◌else◌, ltb, ◌==◌, is_empty,
}
use debeasy.Base.Text.{Text, codes, ◌≗◌}
use debeasy.Store
use debeasy.Store.{Store, user_disabled}
use debeasy.Store.Users as Accounts
use debeasy.Store.Users.{User}
use debeasy.Store.Sessions
use debeasy.Store.Sessions.{Session}
use debeasy.Server.RateLimit.{Limiter, allow, client_ip}
use debeasy.Server.Request.{Request, form_value}
use debeasy.Server.Pages.{
  Message, plain, of_store, Response, CookieChange, cookie_set, cleared, setup_page, login_page,
  page, failure, see_other,
}
use debeasy.Server.App.{App, Context, Handler, Env}

-- `30*24*time.Hour`
abbrev pub session_ttl : ℕ
session_ttl = 30 * 24 * 3600000000000

abbrev with_cookie : CookieChange → Response → Response
with_cookie change r = record r { cookie = change }

-- `if next == "" || next[0] != '/'`
abbrev pub next_or_home : Text → Text
next_or_home [] = codes "/"
next_or_home (c ∷ s) = if c == b'/' then c ∷ s else codes "/"

abbrev login_message : Store.Error → Text
login_message user_disabled = codes "your account is disabled"
login_message _ = codes "invalid credentials"

module _ {W : Type 0} (env : Env W) where
  -- `startSession`: the session and its cookie, or the error.
  abbrev pub with_session_row :
      App W → Result Store.Error Session × Store → Result Message Text × App W
  with_session_row a (err e, s) = (err (of_store e), record a { store = s })
  with_session_row a (ok sess, s) =
      (map_err plain (env.encode_cookie sess.id), record a { store = s })

  unfoldable pub start_session : User → App W → Result Message Text × App W
  start_session u a =
      with_session_row a (Sessions.create a.store u.id session_ttl env.now env.new_sid env.new_csrf)

  abbrev pub redirected : Text → Result Message Text × App W → Response × App W
  redirected location (err e, a) = (failure 500 e, a)
  redirected location (ok v, a) = (with_cookie (cookie_set v) (see_other location), a)

  abbrev pub setup_form : Result Store.Error ℕ → Response
  setup_form (err e) = failure 500 (of_store e)
  setup_form (ok n) = if ltb 0 n then see_other (codes "/login") else page 200 (setup_page none)

  unfoldable pub handle_setup_form : Handler W
  handle_setup_form c r a = (setup_form (Accounts.count a.store), a)

  abbrev pub setup_created : App W → Result Store.Error User × Store → Response × App W
  setup_created a (err e, s) = (page 400 (setup_page (some (of_store e))), record a { store = s })
  setup_created a (ok u, s) = redirected (codes "/") (start_session u (record a { store = s }))

  abbrev pub setup_submit : Request → App W → Result Store.Error ℕ → Response × App W
  setup_submit r a (err e) = (failure 500 (of_store e), a)
  setup_submit r a (ok n) =
      let password = form_value r (codes "password") in
      if ltb 0 n
      then (failure 403 (plain (codes "setup already completed")), a)
      else if not (password ≗ form_value r (codes "confirm"))
      then (page 400 (setup_page (some (plain (codes "passwords don't match")))), a)
      else setup_created a (
          Accounts.create env.bcrypt a.store (form_value r (codes "username")) password
            (codes "admin") env.salt env.now_text)

  unfoldable pub handle_setup_submit : Handler W
  handle_setup_submit c r a = setup_submit r a (Accounts.count a.store)

  abbrev login_form : Option User → Response
  login_form none = page 200 (login_page none)
  login_form (some u) = see_other (codes "/")

  unfoldable pub handle_login_form : Handler W
  handle_login_form c r a = (login_form c.user, a)

  abbrev pub login_checked : Request → App W → Result Store.Error User → Response × App W
  login_checked r a (err e) = (page 401 (login_page (some (login_message e))), a)
  login_checked r a (ok u) =
      redirected (next_or_home (form_value r (codes "next"))) (start_session u a)

  abbrev pub login_limited : Request → App W → Bool × Limiter → Response × App W
  login_limited r a (false, l) = (
    failure 429 (plain (codes "too many attempts — try again in a minute")),
    record a { limiter = l },
  )
  login_limited r a (true, l) =
      login_checked r (record a { limiter = l })
        (Accounts.verify env.bcrypt a.store (form_value r (codes "username"))
          (form_value r (codes "password")))

  unfoldable pub handle_login_submit : Handler W
  handle_login_submit c r a =
      login_limited r a (allow env.refill a.limiter (client_ip r.forwarded r.remote) env.now)

  abbrev pub forgotten : App W → Option Session → App W
  forgotten a none = a
  forgotten a (some sess) = record a { store = (Sessions.delete a.store sess.id).1 }

  unfoldable pub handle_logout : Handler W
  handle_logout c r a = (with_cookie cleared (see_other (codes "/login")), forgotten a c.session)
