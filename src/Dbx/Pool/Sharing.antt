-- ===== src/Dbx/Pool/Sharing.antt =====
-- Which driver a caller of internal/dbx/pool.go gets, and when it is closed.
use mathlib.Core.Option
use debeasy.Base.{
  ℕ, ◌≡◌, ◌≢◌, refl, ap, ◌∙◌, true, not, Option, none, some, List, [], ◌∷◌, ◌++◌, map, ok, err, All,
  any, Bool, false, arith, ◌==◌, find, select, Option-cases, inl, inr,
}
use debeasy.Store.Table.{find-append}
use debeasy.Dbx.Pool.{
  Entry, Pool, nil_map, entries_of, with_conn, remove, touch_entry, touch_all, touch, close,
  get_pooled, add_entry, placed, commit, evict, stop, close_all,
}
use debeasy.Dbx.Pool.Invariant.{none_found}

-- The connection's entry in the pool has the driver.
abbrev pub Holds : Pool → ℕ → ℕ → Type 0
Holds p id d = (e : Entry) × (find (with_conn id) (entries_of p.drivers) ≡ some e) × (e.driver ≡ d)

find-touch :
    (id now : ℕ) (es : List Entry)
    → find (with_conn id) (map (touch_entry id now) es)
      ≡ Option.map (touch_entry id now) (find (with_conn id) es)
find-touch id now [] = refl
find-touch id now (e ∷ es) = ground (arith, find-touch id now es)

touch_driver : (id now : ℕ) (e : Entry) → (touch_entry id now e).driver ≡ e.driver
touch_driver id now e = ground arith

touched_Holds :
    (p : Pool) (id now : ℕ) (e : Entry) (o : Option (List Entry))
    → find (with_conn id) (entries_of o) ≡ some e
    → Holds (record p { drivers = touch_all id now o }) id e.driver
touched_Holds p id now e none h = cc
touched_Holds p id now e (some es) h = (
  touch_entry id now e,
  find-touch id now es ∙ ap (Option.map (touch_entry id now)) h,
  touch_driver id now e,
)

added_Holds :
    (p p' : Pool) (id d now r : ℕ) (o : Option (List Entry))
    → find (with_conn id) (entries_of o) ≡ none
    → add_entry o id d now p ≡ (ok r, p')
    → Holds p' id r
added_Holds p p' id d now r none h k = cc
added_Holds p p' id d now r (some es) h k =
    let new : Entry = record { driver = d; conn_id = id; last_used = now } in
    let shape : p' ≡ record p { drivers = some (es ++ new ∷ []) } = cc in
    let same : d ≡ r = cc in
    (new, rw shape (find-append (with_conn id) es new (none_found id es h) (self id)), same)
  where
    self : (n : ℕ) → (n == n) ≡ true
    self n = ground arith

placed-Holds :
    (p p' : Pool) (id d now r : ℕ) (o : Option Entry)
    → find (with_conn id) (entries_of p.drivers) ≡ o
    → placed p id d now o ≡ (ok r, p')
    → Holds p' id r
placed-Holds p p' id d now r none h k = added_Holds p p' id d now r p.drivers h k
placed-Holds p p' id d now r (some e) h k =
    let shape : p' ≡ touch id now (close d p) = cc in
    let same : e.driver ≡ r = cc in
    rw (shape, ← same) (touched_Holds (close d p) id now e p.drivers h)

commit-Holds : (p p' : Pool) (id d now r : ℕ) → commit p id d now ≡ (ok r, p') → Holds p' id r
unfolding commit
commit-Holds p p' id d now r h =
    placed-Holds p p' id d now r (find (with_conn id) (entries_of p.drivers)) refl h

-- Two calls of `Get` that race for one connection end with the same driver: whichever commits first
-- settles it, and the other one's own driver is closed.
pub commit-commit :
    (p p' : Pool) (id first second now later r : ℕ)
    → commit p id first now ≡ (ok r, p')
    → ((commit p' id second later).0 ≡ ok r)
      × ((commit p' id second later).1.opened ≡ remove second p'.opened)
commit-commit p p' id first second now later r h =
    let (e, f, same) = commit-Holds p p' id first now r h in
    (unfold commit in rw (f, same) refl, unfold commit in rw f refl)

-- What a `Get` has returned is what the next one finds in the pool, without opening a driver.
pub get_pooled-commit :
    (p p' : Pool) (id d now later r : ℕ)
    → commit p id d now ≡ (ok r, p')
    → get_pooled p' id later ≡ (some r, touch id later p')
get_pooled-commit p p' id d now later r h =
    let (e, f, same) = commit-Holds p p' id d now r h in unfold get_pooled in rw (f, same) refl

find-select :
    (id : ℕ) (es : List Entry) → find (with_conn id) (select (λ x. not (with_conn id x)) es) ≡ none
find-select id [] = refl
find-select id (e ∷ es) = ground (arith, find-select id es)

find_other :
    (id other : ℕ) (es : List Entry)
    → other ≢ id
    → find (with_conn other) (select (λ x. not (with_conn id x)) es) ≡ find (with_conn other) es
find_other id other [] h = refl
find_other id other (e ∷ es) h = ground (arith, find_other id other es h)

-- After `Evict` the pool has no driver for the connection, and every other connection's entry is the
-- one it was.
pub get_pooled-evict :
    (p : Pool) (id now : ℕ)
    → ((get_pooled (evict p id) id now).0 ≡ none)
      × ((other : ℕ)
          → other ≢ id
          → find (with_conn other) (entries_of (evict p id).drivers)
            ≡ find (with_conn other) (entries_of p.drivers))
get_pooled-evict p id now = elim (Option-cases (find (with_conn id) (entries_of p.drivers))) [
  | inl h ↦ (unfold get_pooled evict in rw (h, h) refl, λ other ne. unfold evict in rw h refl)
  | inr (e, h) ↦ (
    unfold get_pooled evict in rw (h, find-select id (entries_of p.drivers)) refl,
    λ other ne. unfold evict in rw h (find_other id other (entries_of p.drivers) ne),
  )
]

-- No entry of a pool has the driver.
abbrev pub IsUnheld : ℕ → List Entry → Type 0
IsUnheld d es = All (λ e. (e.driver == d) ≡ false) es

abbrev pub is_open : ℕ → List ℕ → Bool
is_open d opened = any (λ x. x == d) opened

is_open-remove :
    (d other : ℕ) (opened : List ℕ)
    → (other == d) ≡ false
    → is_open d (remove other opened) ≡ is_open d opened
unfolding remove
is_open-remove d other [] h = refl
is_open-remove d other (x ∷ opened) h = ground (arith, is_open-remove d other opened h)

is_open-close_all :
    (d : ℕ) (es : List Entry) (opened : List ℕ)
    → IsUnheld d es
    → is_open d (close_all es opened) ≡ is_open d opened
unfolding close_all
is_open-close_all d [] opened h = refl
is_open-close_all d (e ∷ es) opened (h, hs) =
    is_open-close_all d es (remove e.driver opened) hs ∙ is_open-remove d e.driver opened h

-- A `Get` that opened its driver before `Stop` and takes the lock after it writes to the nil map: it
-- panics, the pool has no entry, and the driver, which no entry had, is open then as it was before.
pub commit-stop :
    (p : Pool) (id d now : ℕ)
    → is_open d p.opened ≡ true
    → IsUnheld d (entries_of p.drivers)
    → let (r, p') = commit (stop p) id d now in
      (r ≡ err nil_map) × (p'.drivers ≡ none) × (is_open d p'.opened ≡ true)
unfolding commit stop
commit-stop p id d now h unheld =
    (refl, refl, is_open-close_all d (entries_of p.drivers) p.opened unheld ∙ h)
