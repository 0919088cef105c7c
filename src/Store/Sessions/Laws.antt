-- ===== src/Store/Sessions/Laws.antt =====
-- What sessions promise: internal/store/sessions.go.
use debeasy.Base.{
  ℕ, ◌+◌, ◌*◌, ◌/◌, ◌≤◌, ◌<◌, ◌≡◌, ◌≢◌, refl, sym, ap, ◌∙◌, Bool, true, false, not, List, [], ◌∷◌,
  Option, none, some, Result, ok, err, arith, any, find, select, if◌then◌else◌, ltb, Bool-cases,
  inl, inr,
}
use debeasy.Base.Text.{Text, ◌≗◌}
use debeasy.Base.Text.Laws.{≗_iff, ≗_refl}
use debeasy.Store.{Store, SessionRow, Error, session_not_found}
use debeasy.Store.Table.{Distinct, find-append}
use debeasy.Store.Users.{with_id}
use debeasy.Store.Sessions.{
  Session, second, session, session_row, has_sid, add_session, create, without, get_row, get,
  delete, purge_expired,
}

pub create_ok :
    (s s' : Store) (user_id ttl now : ℕ) (id csrf : Text) (sess : Session)
    → create s user_id ttl now (ok id) (ok csrf) ≡ (ok sess, s')
    → (s.down ≡ none)
      × (any (has_sid id) s.sessions ≡ false)
      × (any (with_id user_id) s.users ≡ true)
      × (s' ≡ add_session s (session_row id csrf user_id (now + ttl)))
      × (sess ≡ session id csrf user_id (now + ttl))
unfolding create
create_ok s s' user_id ttl now id csrf sess h =
    (ground arith, ground arith, ground arith, ground arith, ground arith)

-- A new session is found, with its token and user, up to the whole second in which it expires, and
-- from then on it is not.
pub get-create-session :
    (s s' : Store) (user_id ttl now later : ℕ) (id csrf : Text) (sess : Session)
    → create s user_id ttl now (ok id) (ok csrf) ≡ (ok sess, s')
    → let end = (now + ttl) / second * second in
      ((later ≤ end) → get s' id later ≡ (ok (session id csrf user_id end), s'))
      × ((end < later) → (get s' id later).0 ≡ err session_not_found)
unfolding get
get-create-session s s' user_id ttl now later id csrf sess h =
    let (up, new, known, same, _) = create_ok s s' user_id ttl now id csrf sess h in
    let row = session_row id csrf user_id (now + ttl) in
    let found = find-append (has_sid id) s.sessions row new (≗_refl id) in
    rw (same, up, found) (λ live. ground arith, λ gone. ground arith)

-- What `Get` does with a session that is in the table, and with one that is not.
pub get_live :
    (s : Store) (user_id exp now : ℕ) (id csrf : Text)
    → s.down ≡ none
    → find (has_sid id) s.sessions ≡ some (session_row id csrf user_id exp)
    → now ≤ exp / second * second
    → get s id now ≡ (ok (session id csrf user_id (exp / second * second)), s)
unfolding get
get_live s user_id exp now id csrf up found live = rw (up, found) (ground arith)

pub get_expired :
    (s : Store) (user_id exp now : ℕ) (id csrf : Text)
    → s.down ≡ none
    → find (has_sid id) s.sessions ≡ some (session_row id csrf user_id exp)
    → exp / second * second < now
    → get s id now ≡ (err session_not_found, (get s id now).1)
unfolding get
get_expired s user_id exp now id csrf up found gone = rw (up, found) (ground arith)

pub get_missing :
    (s : Store) (now : ℕ) (id : Text)
    → s.down ≡ none
    → find (has_sid id) s.sessions ≡ none
    → get s id now ≡ (err session_not_found, s)
unfolding get
get_missing s now id up missing = rw (up, missing) refl

-- The row of a new session is in the table.
pub find-create :
    (s s' : Store) (user_id ttl now : ℕ) (id csrf : Text) (sess : Session)
    → create s user_id ttl now (ok id) (ok csrf) ≡ (ok sess, s')
    → find (has_sid id) s'.sessions ≡ some (session_row id csrf user_id (now + ttl))
find-create s s' user_id ttl now id csrf sess h =
    let (up, new, known, same, _) = create_ok s s' user_id ttl now id csrf sess h in
    ap (λ (t : Store). find (has_sid id) t.sessions) same
    ∙ find-append (has_sid id) s.sessions (session_row id csrf user_id (now + ttl)) new (≗_refl id)

-- What `Get` returns, from the row that it finds.
answer : ℕ → Option SessionRow → Result Error Session
answer now none = err session_not_found
answer now (some r) =
    if ltb (r.expires_at * second) now
    then err session_not_found
    else ok (session r.id r.csrf_token r.user_id (r.expires_at * second))

get_row-answer :
    (s : Store) (id : Text) (now : ℕ) (o : Option SessionRow)
    → (get_row s id now o).0 ≡ answer now o
unfolding get_row answer
get_row-answer s id now none = refl
get_row-answer s id now (some r) = ground arith

get-answer :
    (s : Store) (id : Text) (now : ℕ)
    → s.down ≡ none
    → (get s id now).0 ≡ answer now (find (has_sid id) s.sessions)
unfolding get
get-answer s id now up = rw up (get_row-answer _ id now _)

find-without_self : (id : Text) (rs : List SessionRow) → find (has_sid id) (without id rs) ≡ none
find-without_self id [] = refl
find-without_self id (r ∷ rs) = ground (arith, find-without_self id rs)

find-without_other :
    (id other : Text) (rs : List SessionRow)
    → other ≢ id
    → find (has_sid other) (without id rs) ≡ find (has_sid other) rs
find-without_other id other [] h = refl
find-without_other id other (r ∷ rs) h =
    ground (arith, ≗_iff r.id id, ≗_iff r.id other, find-without_other id other rs h)

delete_ok :
    (s s' : Store) (id : Text)
    → delete s id ≡ (ok tt, s')
    → (s.down ≡ none) × (s' ≡ record s { sessions = without id s.sessions })
unfolding delete
delete_ok s s' id h = (ground arith, ground arith)

-- After a deletion the session is gone, and the others are as they were.
pub get-delete :
    (s s' : Store) (id other : Text) (now : ℕ)
    → delete s id ≡ (ok tt, s')
    → ((get s' id now).0 ≡ err session_not_found)
      × (other ≢ id → (get s' other now).0 ≡ (get s other now).0)
unfolding answer
get-delete s s' id other now h =
    let (up, same) = delete_ok s s' id h in
    let t = record s { sessions = without id s.sessions } in
    rw same (
      get-answer t id now up ∙ ap (answer now) (find-without_self id s.sessions),
      λ ne.
          get-answer t other now up
          ∙ (ap (answer now) (find-without_other id other s.sessions ne)
              ∙ sym (get-answer s other now up)),
    )

-- Every session has its own id.
abbrev pub same_sid : SessionRow → SessionRow → Bool
same_sid a b = a.id ≗ b.id

abbrev lives : ℕ → SessionRow → Bool
lives now r = not (ltb r.expires_at (now / second))

find-none : (p : SessionRow → Bool) (rs : List SessionRow) → any p rs ≡ false → find p rs ≡ none
find-none p [] h = refl
find-none p (r ∷ rs) h = ground (arith, find-none p rs)

any-select_none :
    (p q : SessionRow → Bool) (rs : List SessionRow)
    → any p rs ≡ false
    → any p (select q rs) ≡ false
any-select_none p q [] h = refl
any-select_none p q (r ∷ rs) h = ground (arith, any-select_none p q rs)

others_differ :
    (id : Text) (r : SessionRow) (rs : List SessionRow)
    → has_sid id r ≡ true
    → any (same_sid r) rs ≡ false
    → any (has_sid id) rs ≡ false
others_differ id r [] h k = refl
others_differ id r (x ∷ rs) h k =
    ground (arith, ≗_iff r.id id, ≗_iff r.id x.id, ≗_iff x.id id, others_differ id r rs h)

answer-purged :
    (id : Text) (now later : ℕ) (rs : List SessionRow)
    → Distinct same_sid rs
    → now ≤ later
    → answer later (find (has_sid id) (select (lives now) rs)) ≡ answer later (find (has_sid id) rs)
unfolding answer
answer-purged id now later [] d le = refl
answer-purged id now later (r ∷ rs) (d, ds) le = elim (Bool-cases (has_sid id r)) [
  | inr miss ↦ ground (arith, answer-purged id now later rs ds le)
  | inl hit ↦
      let alone = others_differ id r rs hit d in
      ground (
        arith,
        find-none (has_sid id) (select (lives now) rs)
            (any-select_none (has_sid id) (lives now) rs alone),
      )
]

purge_ok :
    (s s' : Store) (now : ℕ)
    → purge_expired s now ≡ (ok tt, s')
    → (s.down ≡ none) × (s' ≡ record s { sessions = select (lives now) s.sessions })
unfolding purge_expired
purge_ok s s' now h = (ground arith, ground arith)

-- The janitor's purge cannot be observed: it removes only sessions that `Get` refuses from then on.
pub get-purge_expired :
    (s s' : Store) (id : Text) (now later : ℕ)
    → Distinct same_sid s.sessions
    → now ≤ later
    → purge_expired s now ≡ (ok tt, s')
    → (get s' id later).0 ≡ (get s id later).0
get-purge_expired s s' id now later d le h =
    let (up, same) = purge_ok s s' now h in
    let t = record s { sessions = select (lives now) s.sessions } in
    rw same (
      get-answer t id later up
      ∙ (answer-purged id now later s.sessions d le ∙ sym (get-answer s id later up)))
