-- ===== src/Dbx/Pool/Invariant.antt =====
-- Who holds the open drivers while calls of `Get`, `Evict`, `Stop` and the collector of
-- internal/dbx/pool.go interleave: the pool, a `Get` between its two locked parts, or nobody.
use debeasy.Base.{
  ℕ, ◌+◌, ◌≤◌, ◌≡◌, refl, subst, ◌∙◌, Bool, true, false, not, none, some, List, [], ◌∷◌, ◌++◌, map,
  Result, ok, err, arith, if◌then◌else◌, ltb, ◌==◌, find, select, any, Bool-cases, inl, inr,
}
use debeasy.Store.Table.{Distinct}
use debeasy.Dbx.Pool.{
  Entry, Pool, GetError, entries_of, with_conn, remove, close, touch_entry, get_pooled, commit,
  opening, evict, close_all, evict_idle, stop,
}

abbrev pub one : ℕ → ℕ → ℕ
one d x = if x == d then 1 else 0

-- How often a driver stands in a list, and in the pool's entries.
abbrev pub count : ℕ → List ℕ → ℕ
count d [] = 0
count d (x ∷ xs) = one d x + count d xs

abbrev pub held : ℕ → List Entry → ℕ
held d [] = 0
held d (e ∷ es) = one d e.driver + held d es

abbrev pub same_conn : Entry → Entry → Bool
same_conn a b = a.conn_id == b.conn_id

-- The pool, the drivers that calls of `Get` hold while it is not locked, and those that a panicking
-- `Get` left behind.
pub record World : Type 0 where
  pub pool : Pool
  pub pending : List ℕ
  pub leaked : List ℕ

pub data Event : Type 0 where
  hit : ℕ → ℕ → Event
  dialled : Event
  ping_failed : ℕ → Event
  committed : ℕ → ℕ → ℕ → Event
  evicted : ℕ → Event
  collected : ℕ → Event
  stopped : Event

abbrev pub leak : ℕ → Result GetError ℕ → List ℕ → List ℕ
leak d (ok _) leaked = leaked
leak d (err _) leaked = d ∷ leaked

-- One step; the events of a `Get` need a driver that one of them holds.
unfoldable pub step : World → Event → World
step w (hit id now) = record w { pool = (get_pooled w.pool id now).1 }
step w dialled = record w { pool = opening w.pool; pending = w.pool.next_driver ∷ w.pending }
step w (ping_failed d) =
    if ltb 0 (count d w.pending)
    then record w { pool = close d w.pool; pending = remove d w.pending }
    else w
step w (committed id d now) =
    if ltb 0 (count d w.pending)
    then record {
      pool = (commit w.pool id d now).1;
      pending = remove d w.pending;
      leaked = leak d (commit w.pool id d now).0 w.leaked;
    }
    else w
step w (evicted id) = record w { pool = evict w.pool id }
step w (collected now) = record w { pool = (evict_idle w.pool now).1 }
step w stopped = record w { pool = stop w.pool }

unfoldable pub run : World → List Event → World
run w [] = w
run w (e ∷ es) = run (step w e) es

-- Every open driver is held exactly once, a number that was not given out is not open, and no
-- connection has two entries.
pub record IsValid (w : World) : Type 0 where
  pub balanced :
      (d : ℕ)
      → count d w.pool.opened
        ≡ held d (entries_of w.pool.drivers) + (count d w.pending + count d w.leaked)
  pub once : (d : ℕ) → count d w.pool.opened ≤ 1
  pub fresh : (d : ℕ) → w.pool.next_driver ≤ d → count d w.pool.opened ≡ 0
  pub keys : Distinct same_conn (entries_of w.pool.drivers)

pub count-remove :
    (d x : ℕ) (xs : List ℕ) → 1 ≤ count x xs → count d (remove x xs) + one d x ≡ count d xs
unfolding remove
count-remove d x [] h = absurd (omega (arith, h))
count-remove d x (y ∷ ys) h = ground (arith, count-remove d x ys)

pub held-touch : (d id now : ℕ) (es : List Entry) → held d (map (touch_entry id now) es) ≡ held d es
held-touch d id now [] = refl
held-touch d id now (e ∷ es) = ground (arith, held-touch d id now es)

pub held-append :
    (d : ℕ) (es : List Entry) (e : Entry) → held d (es ++ e ∷ []) ≡ held d es + one d e.driver
held-append d [] e = omega arith
held-append d (x ∷ es) e = omega (arith, held-append d es e)

pub held-select :
    (d : ℕ) (p : Entry → Bool) (es : List Entry)
    → held d (select (λ e. not (p e)) es) + held d (select p es) ≡ held d es
held-select d p [] = refl
held-select d p (e ∷ es) = elim (Bool-cases (p e)) [
  | inl h ↦ rw h (omega (arith, held-select d p es))
  | inr h ↦ rw h (omega (arith, held-select d p es))
]

pub count-close_all :
    (es : List Entry) (opened : List ℕ)
    → ((d : ℕ) → held d es ≤ count d opened)
    → (d : ℕ) → count d (close_all es opened) + held d es ≡ count d opened
unfolding close_all
count-close_all [] opened h d = omega arith
count-close_all (e ∷ es) opened h d =
    let there : 1 ≤ count e.driver opened = self e.driver (h e.driver) in
    let ih =
      count-close_all es (remove e.driver opened)
        (λ x. omega (arith, h x, count-remove x e.driver opened there)) d in
    omega (arith, ih, count-remove d e.driver opened there)
  where
    self : (x : ℕ) → one x x + held x es ≤ count x opened → 1 ≤ count x opened
    self x k = ground arith

any-touch :
    (a : Entry) (id now : ℕ) (es : List Entry)
    → any (same_conn (touch_entry id now a)) (map (touch_entry id now) es) ≡ any (same_conn a) es
any-touch a id now [] = refl
any-touch a id now (e ∷ es) = ground (arith, any-touch a id now es)

pub keys-touch :
    (id now : ℕ) (es : List Entry)
    → Distinct same_conn es
    → Distinct same_conn (map (touch_entry id now) es)
keys-touch id now [] k = tt
keys-touch id now (e ∷ es) (k, ks) = (any-touch e id now es ∙ k, keys-touch id now es ks)

any-select : (q p : Entry → Bool) (es : List Entry) → any q es ≡ false → any q (select p es) ≡ false
any-select q p [] h = refl
any-select q p (e ∷ es) h = ground (arith, any-select q p es)

pub keys-select :
    (p : Entry → Bool) (es : List Entry) → Distinct same_conn es → Distinct same_conn (select p es)
keys-select p [] k = tt
keys-select p (e ∷ es) (k, ks) = elim (Bool-cases (p e)) [
  | inl h ↦ rw h ((any-select (same_conn e) p es k, keys-select p es ks))
  | inr h ↦ rw h (keys-select p es ks)
]

-- No entry of a connection, by the search for it.
pub none_found :
    (id : ℕ) (es : List Entry) → find (with_conn id) es ≡ none → any (with_conn id) es ≡ false
none_found id [] h = refl
none_found id (e ∷ es) h = ground (arith, none_found id es)

absent_held :
    (d id : ℕ) (es : List Entry)
    → any (with_conn id) es ≡ false
    → held d (select (λ x. not (with_conn id x)) es) ≡ held d es
absent_held d id [] h = refl
absent_held d id (e ∷ es) h = ground (arith, absent_held d id es)

pub held-evict :
    (d id : ℕ) (es : List Entry) (e : Entry)
    → Distinct same_conn es
    → find (with_conn id) es ≡ some e
    → held d (select (λ x. not (with_conn id x)) es) + one d e.driver ≡ held d es
held-evict d id [] e k h = cc
held-evict d id (x ∷ es) e (k, ks) h = elim (Bool-cases (with_conn id x)) [
  | inl m ↦
      let same : x ≡ e = ground arith in
      let gone : any (with_conn id) es ≡ false = absent id x es m k in
      rw (m, absent_held d id es gone, ← same) (omega arith)
  | inr m ↦ rw m (omega (arith, held-evict d id es e ks (ground arith)))
]
  where
    absent :
        (id : ℕ) (x : Entry) (es : List Entry)
        → with_conn id x ≡ true
        → any (same_conn x) es ≡ false
        → any (with_conn id) es ≡ false
    absent id x [] m k = refl
    absent id x (y ∷ ys) m k = ground (arith, absent id x ys m)

pub find-held :
    (id : ℕ) (es : List Entry) (e : Entry) → find (with_conn id) es ≡ some e → 1 ≤ held e.driver es
find-held id [] e h = cc
find-held id (x ∷ es) e h = elim (Bool-cases (with_conn id x)) [
  | inl m ↦
      let same : x ≡ e = ground arith in
      subst (λ (y : Entry). 1 ≤ held y.driver (x ∷ es)) same (self x.driver)
  | inr m ↦ omega (arith, find-held id es e (ground arith))
]
  where
    self : (d : ℕ) → 1 ≤ one d d + held d es
    self d = ground arith
