-- ===== src/Store/Sessions/Invariant.antt =====
-- The table of sessions keeps its invariant under every operation of internal/store/sessions.go.
use debeasy.Base.{
  ℕ, ◌*◌, ◌≡◌, refl, Bool, true, false, not, List, [], ◌∷◌, Option, none, some, Result, ok, err,
  any, find, select, ltb, All, All-append, if_cases, arith,
}
use debeasy.Base.Text.{Text}
use debeasy.Store.{Store, UserRow, SessionRow, Error, if_up_cases}
use debeasy.Store.Table.{Distinct, Distinct-append}
use debeasy.Store.Users
use debeasy.Store.Sessions.{
  Session, second, has_sid, insert_session, after_insert, create, get_row, get, delete,
  purge_expired,
}
use debeasy.Store.Sessions.Laws.{same_sid}

abbrev HasUser : List UserRow → SessionRow → Type 0
HasUser users r = any (Users.with_id r.user_id) users ≡ true

-- Every session has its own id and belongs to an existing user.
pub record IsValid (s : Store) : Type 0 where
  pub ids : Distinct same_sid s.sessions
  pub owners : All (HasUser s.users) s.sessions

abbrev LeavesValid {ℓ} : {A : Type ℓ} → A × Store → Type 0
LeavesValid p = IsValid p.1

any-select_none :
    (p q : SessionRow → Bool) (rs : List SessionRow)
    → any p rs ≡ false
    → any p (select q rs) ≡ false
any-select_none p q [] h = refl
any-select_none p q (r ∷ rs) h = ground (arith, any-select_none p q rs)

Distinct-select :
    (q : SessionRow → Bool) (rs : List SessionRow)
    → Distinct same_sid rs
    → Distinct same_sid (select q rs)
Distinct-select q [] d = tt
Distinct-select q (r ∷ rs) (d, ds) =
    if_cases (Distinct same_sid) (q r)
      (λ _. (any-select_none (same_sid r) q rs d, Distinct-select q rs ds))
      λ _. Distinct-select q rs ds

All-select :
    (P : SessionRow → Type 0) (q : SessionRow → Bool) (rs : List SessionRow)
    → All P rs
    → All P (select q rs)
All-select P q [] a = tt
All-select P q (r ∷ rs) (a, as') =
    if_cases (All P) (q r) (λ _. (a, All-select P q rs as')) λ _. All-select P q rs as'

select-IsValid :
    (s : Store) (q : SessionRow → Bool)
    → IsValid s
    → IsValid (record s { sessions = select q s.sessions })
select-IsValid s q v = record {
  ids = Distinct-select q s.sessions v.ids;
  owners = All-select (HasUser s.users) q s.sessions v.owners;
}

insert_session-IsValid : (s : Store) (r : SessionRow) → IsValid s → IsValid (insert_session s r).1
unfolding insert_session
insert_session-IsValid s r v =
    if_up_cases LeavesValid s.down _ _ (λ msg. v)
      (if_cases LeavesValid (any (has_sid r.id) s.sessions) (λ _. v)
        λ new.
          if_cases LeavesValid (any (Users.with_id r.user_id) s.users)
            (λ known. record {
              ids = Distinct-append same_sid s.sessions r v.ids new;
              owners = All-append (HasUser s.users) s.sessions (r ∷ []) v.owners (known, tt);
            })
            λ _. v)

after_insert-IsValid :
    (sess : Session) (p : Result Error (Unit {0}) × Store)
    → IsValid p.1
    → IsValid (after_insert sess p).1
unfolding after_insert
after_insert-IsValid sess (ok _, s) v = v
after_insert-IsValid sess (err e, s) v = v

create-IsValid :
    (s : Store) (user_id ttl now : ℕ) (id csrf : Result Text Text)
    → IsValid s
    → IsValid (create s user_id ttl now id csrf).1
unfolding create
create-IsValid s user_id ttl now (err e) csrf v = v
create-IsValid s user_id ttl now (ok id) (err e) v = v
create-IsValid s user_id ttl now (ok id) (ok csrf) v =
    after_insert-IsValid _ _ (insert_session-IsValid s _ v)

get_row-IsValid :
    (s : Store) (id : Text) (now : ℕ) (o : Option SessionRow)
    → IsValid s
    → IsValid (get_row s id now o).1
unfolding get_row
get_row-IsValid s id now none v = v
get_row-IsValid s id now (some r) v =
    if_cases LeavesValid (ltb (r.expires_at * second) now)
      (λ _. select-IsValid s (λ x. not (has_sid id x)) v) λ _. v

-- The operations on the table.
pub data Call : Type 0 where
  creates : ℕ → ℕ → ℕ → Result Text Text → Result Text Text → Call
  gets : Text → ℕ → Call
  deletes : Text → Call
  purges : ℕ → Call

pub step : Store → Call → Store
step s (creates user_id ttl now id csrf) = (create s user_id ttl now id csrf).1
step s (gets id now) = (get s id now).1
step s (deletes id) = (delete s id).1
step s (purges now) = (purge_expired s now).1

-- Every operation, a look-up that drops an expired session included, keeps session ids unique and
-- every session's user in the table of users, whether it succeeds or fails.
pub session_step-IsValid : (s : Store) (c : Call) → IsValid s → IsValid (step s c)
unfolding step get delete purge_expired
session_step-IsValid s (creates user_id ttl now id csrf) v =
    create-IsValid s user_id ttl now id csrf v
session_step-IsValid s (gets id now) v =
    if_up_cases LeavesValid s.down _ _ (λ msg. v)
      (get_row-IsValid s id now (find (has_sid id) s.sessions) v)
session_step-IsValid s (deletes id) v =
    if_up_cases LeavesValid s.down _ _ (λ msg. v) (select-IsValid s (λ x. not (has_sid id x)) v)
session_step-IsValid s (purges now) v =
    if_up_cases LeavesValid s.down _ _ (λ msg. v) (select-IsValid s _ v)
