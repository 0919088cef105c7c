-- ===== src/Store/Sessions/Tests.antt =====
-- The theorems on sessions, at concrete inputs.
use debeasy.Base.{◌≡◌, ◌≤◌, ◌<◌, refl, false, [], ◌∷◌, ok, err}
use debeasy.Base.Text.{codes, ◌≗◌}
use debeasy.Store.{Store, UserRow, empty, session_not_found}
use debeasy.Store.Sessions.{session, session_row, create, get, insert_session, after_insert}
use debeasy.Store.Sessions.Laws.{get-create-session}
use debeasy.Store.Sessions.Invariant.{IsValid, gets, step, session_step-IsValid}

abbrev ann_row : UserRow
ann_row = record {
  id = 1;
  username = codes "ann";
  password_hash = [];
  role = codes "user";
  disabled = false;
  created_at = [];
}

abbrev with_ann : Store
with_ann = record empty { users = ann_row ∷ [] }

-- Logged in until second 12, asked for at half a second past 2 for ten seconds.
abbrev logged_in : Store
logged_in = record with_ann {
  sessions = session_row (codes "sid") (codes "csrf") 1 12500000000 ∷ [];
}

logged_in-IsValid : IsValid logged_in
logged_in-IsValid = record { ids = (refl, tt); owners = (refl, tt) }

get-create-session_example :
    ((12000000000 ≤ 12000000000)
      → get logged_in (codes "sid") 12000000000
        ≡ (ok (session (codes "sid") (codes "csrf") 1 12000000000), logged_in))
    × ((12000000000 < 12000000000)
        → (get logged_in (codes "sid") 12000000000).0 ≡ err session_not_found)
unfolding create insert_session after_insert ◌≗◌ empty
get-create-session_example =
    get-create-session with_ann logged_in 1 10000000000 2500000000 12000000000 (codes "sid")
      (codes "csrf") (session (codes "sid") (codes "csrf") 1 12500000000) refl

session_step-IsValid_example : IsValid (step logged_in (gets (codes "sid") 13000000000))
session_step-IsValid_example =
    session_step-IsValid logged_in (gets (codes "sid") 13000000000) logged_in-IsValid
