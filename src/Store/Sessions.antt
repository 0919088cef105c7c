-- ===== src/Store/Sessions.antt =====
-- internal/store/sessions.go. Times are in nanoseconds and are arguments; the table keeps whole
-- seconds. The two random texts of a new session are arguments, an error if the system's source
-- fails.
pub mod Laws
pub mod Invariant
mod Tests
use debeasy.Base.{
  ℕ, ◌+◌, ◌*◌, ◌/◌, Bool, true, false, not, ◌||◌, Option, none, some, List, [], ◌∷◌, ◌++◌, Result,
  ok, err, ◌>>=◌, map_err, if◌then◌else◌, ltb, any, find, select,
}
use debeasy.Base.Text.{Text, codes, ◌≗◌}
use debeasy.Store.{Store, SessionRow, Error, session_not_found, crypto, database, if_up, query}
use debeasy.Store.Users.{with_id}

pub record Session : Type 0 where
  pub id : Text
  pub user_id : ℕ
  pub csrf_token : Text
  pub expires_at : ℕ

abbrev pub second : ℕ
second = 1000000000

abbrev pub has_sid : Text → SessionRow → Bool
has_sid id r = r.id ≗ id

abbrev pub add_session : Store → SessionRow → Store
add_session s r = record s { sessions = s.sessions ++ r ∷ [] }

-- The INSERT: the id is the primary key, and the user must exist.
unfoldable pub insert_session : Store → SessionRow → Result Error (Unit {0}) × Store
insert_session s r =
    if_up s.down (λ msg. (err (database msg), s))
      (if any (has_sid r.id) s.sessions
        then (err (database (codes "UNIQUE constraint failed: sessions.id")), s)
        else if any (with_id r.user_id) s.users
        then (ok tt, add_session s r)
        else (err (database (codes "FOREIGN KEY constraint failed")), s))

abbrev pub session_row : Text → Text → ℕ → ℕ → SessionRow
session_row id csrf user_id exp = record {
  id = id;
  user_id = user_id;
  csrf_token = csrf;
  expires_at = exp / second;
}

abbrev pub session : Text → Text → ℕ → ℕ → Session
session id csrf user_id exp = record {
  id = id;
  user_id = user_id;
  csrf_token = csrf;
  expires_at = exp;
}

unfoldable pub after_insert :
    Session → Result Error (Unit {0}) × Store → Result Error Session × Store
after_insert sess (err e, s) = (err e, s)
after_insert sess (ok _, s) = (ok sess, s)

unfoldable pub create :
    Store → ℕ → ℕ → ℕ → Result Text Text → Result Text Text → Result Error Session × Store
unfolding insert_session after_insert
create s user_id ttl now (err e) csrf = (err (crypto e), s)
create s user_id ttl now (ok id) (err e) = (err (crypto e), s)
create s user_id ttl now (ok id) (ok csrf) =
    let exp = now + ttl in
    after_insert (session id csrf user_id exp) (insert_session s (session_row id csrf user_id exp))

abbrev without : Text → List SessionRow → List SessionRow
without id = select (λ r. not (has_sid id r))

-- A row that has expired is deleted on sight.
get_row : Store → Text → ℕ → Option SessionRow → Result Error Session × Store
get_row s id now none = (err session_not_found, s)
get_row s id now (some r) =
    if ltb (r.expires_at * second) now
    then (err session_not_found, record s { sessions = without id s.sessions })
    else (ok (session r.id r.csrf_token r.user_id (r.expires_at * second)), s)

unfoldable pub get : Store → Text → ℕ → Result Error Session × Store
unfolding get_row
get s id now =
    if_up s.down (λ msg. (err (database msg), s)) (get_row s id now (find (has_sid id) s.sessions))

unfoldable pub delete : Store → Text → Result Error (Unit {0}) × Store
delete s id =
    if_up s.down (λ msg. (err (database msg), s))
      (ok tt, record s { sessions = without id s.sessions })

-- `expires_at < ?`: texts of one fixed format, in the order of the times.
unfoldable pub purge_expired : Store → ℕ → Result Error (Unit {0}) × Store
purge_expired s now =
    if_up s.down (λ msg. (err (database msg), s))
      (
        ok tt,
        record s { sessions = select (λ r. not (ltb r.expires_at (now / second))) s.sessions },
      )
