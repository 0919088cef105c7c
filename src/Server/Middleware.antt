-- ===== src/Server/Middleware.antt =====
-- internal/server/middleware.go: sessions and the gates in front of the handlers.
pub mod Gates
use debeasy.Base.{
  ℕ, Bool, not, ◌||◌, Option, none, some, [], Result, ok, err, if◌then◌else◌, is_empty,
}
use debeasy.Base.Text.{Text, codes, ◌≗◌}
use debeasy.Store.{Store, Error}
use debeasy.Store.Users
use debeasy.Store.Users.{User, is_admin}
use debeasy.Store.Sessions
use debeasy.Store.Sessions.{Session}
use debeasy.Server.Request.{Request, form_value, is_htmx}
use debeasy.Server.Pages.{Response, plain, failure, see_other, hx_navigate}
use debeasy.Server.App.{App, Context, anonymous, Handler}

abbrev pub decoded : Option Text → Text
decoded none = []
decoded (some sid) = sid

abbrev pub cookie_sid : (Text → Option Text) → Option Text → Text
cookie_sid decode none = []
cookie_sid decode (some v) = decoded (decode v)

-- The cookie codec gives the session id, or nothing for a cookie that it did not encode.
abbrev pub session_id : (Text → Option Text) → Request → Text
session_id decode r = cookie_sid decode r.cookie

abbrev pub unauthenticated : Request → Response
unauthenticated r =
    if is_htmx r then hx_navigate 401 (codes "/login") else see_other (codes "/login")

abbrev pub admin_required : Response
admin_required = failure 403 (plain (codes "admin required"))

abbrev pub bad_token : Response
bad_token = failure 403 (plain (codes "invalid CSRF token"))

-- Who may use a route: `routes` of internal/server/server.go has three groups of them.
pub data Access : Type 0 where
  anyone users_only admins_only : Access

abbrev pub is_safe : Text → Bool
is_safe method = method ≗ codes "GET" || (method ≗ codes "HEAD" || method ≗ codes "OPTIONS")

abbrev pub csrf_token : Request → Text
csrf_token r = if is_empty r.csrf_header then form_value r (codes "csrf_token") else r.csrf_header

module _ {W : Type 0} where
  abbrev pub with_user :
      Handler W → Request → Session → App W → Result Error User → Response × App W
  with_user next r sess a (err e) = next anonymous r a
  with_user next r sess a (ok u) =
      if u.disabled
      then next anonymous r a
      else next (record { user = some u; session = some sess }) r a

  abbrev pub with_session :
      Handler W → Request → App W → Result Error Session × Store → Response × App W
  with_session next r a (err e, s) = next anonymous r (record a { store = s })
  with_session next r a (ok sess, s) =
      with_user next r sess (record a { store = s }) (Users.get s sess.user_id)

  unfoldable pub session_middleware :
      (Text → Option Text) → ℕ → Handler W → Request → App W → Response × App W
  session_middleware decode now next r a =
      let sid = session_id decode r in
      if is_empty sid
      then next anonymous r a
      else with_session next r a (Sessions.get a.store sid now)

  abbrev pub for_user : Handler W → Context → Request → App W → Option User → Response × App W
  for_user next c r a none = (unauthenticated r, a)
  for_user next c r a (some u) = next c r a

  unfoldable pub require_auth : Handler W → Handler W
  require_auth next c r a = for_user next c r a c.user

  abbrev pub for_admin : Handler W → Context → Request → App W → Option User → Response × App W
  for_admin next c r a none = (admin_required, a)
  for_admin next c r a (some u) = if is_admin u then next c r a else (admin_required, a)

  unfoldable pub require_admin : Handler W → Handler W
  require_admin next c r a = for_admin next c r a c.user

  abbrev pub with_token : Handler W → Context → Request → App W → Option Session → Response × App W
  with_token next c r a none = next c r a
  with_token next c r a (some sess) =
      let token = csrf_token r in
      if is_empty token || not (token ≗ sess.csrf_token) then (bad_token, a) else next c r a

  unfoldable pub csrf_middleware : Handler W → Handler W
  csrf_middleware next c r a =
      if is_safe r.method then next c r a else with_token next c r a c.session

  -- The chain in front of every handler, as `routes` of internal/server/server.go puts it together.
  unfoldable pub chain : (Text → Option Text) → ℕ → Handler W → Request → App W → Response × App W
  chain decode now h = session_middleware decode now (csrf_middleware h)

  -- The gates of a group.
  abbrev pub guard : Access → Handler W → Handler W
  guard anyone h = h
  guard users_only h = require_auth h
  guard admins_only h = require_auth (require_admin h)

  unfoldable pub admin_route :
      (Text → Option Text) → ℕ → Handler W → Request → App W → Response × App W
  admin_route decode now h = chain decode now (guard admins_only h)
