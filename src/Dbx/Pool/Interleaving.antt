-- ===== src/Dbx/Pool/Interleaving.antt =====
-- However the calls of internal/dbx/pool.go interleave, every open driver is held exactly once.
use debeasy.Base.{
  ℕ, suc, ◌+◌, ◌≤◌, ◌≡◌, refl, ap, subst, ◌∙◌, false, not, Option, none, some, List, [], ◌∷◌, map,
  arith, if_cases, ltb, ltb→lt, find, select, any, Option-cases, inl, inr,
}
use debeasy.Store.Table.{Distinct, Distinct-append}
use debeasy.Dbx.Pool.{
  Entry, new_pool, entries_of, with_conn, remove, close, touch_entry, touch_all, touch, get_pooled,
  add_entry, commit, evict, is_idle, keep, evict_idle, stop,
}
use debeasy.Dbx.Pool.Invariant.{
  World, Event, hit, dialled, ping_failed, committed, evicted, collected, stopped, step, run,
  IsValid, leak, one, count, held, same_conn, count-remove, held-touch, held-append, held-select,
  count-close_all, keys-touch, keys-select, none_found, held-evict, find-held,
}

entries-touch :
    (id now : ℕ) (o : Option (List Entry))
    → entries_of (touch_all id now o) ≡ map (touch_entry id now) (entries_of o)
entries-touch id now none = refl
entries-touch id now (some es) = refl

entries-keep :
    (ttl now : ℕ) (o : Option (List Entry))
    → entries_of (keep ttl now o) ≡ select (λ e. not (is_idle ttl now e)) (entries_of o)
entries-keep ttl now none = refl
entries-keep ttl now (some es) = refl

touch-IsValid :
    (w : World) (id now : ℕ) → IsValid w → IsValid (record w { pool = touch id now w.pool })
touch-IsValid w id now v = record {
  balanced = λ d.
      rw (entries-touch id now w.pool.drivers, held-touch d id now (entries_of w.pool.drivers))
        (v.balanced d);
  once = v.once;
  fresh = v.fresh;
  keys =
      rw (entries-touch id now w.pool.drivers)
        (keys-touch id now (entries_of w.pool.drivers) v.keys);
}

hit-IsValid : (w : World) (id now : ℕ) → IsValid w → IsValid (step w (hit id now))
unfolding step get_pooled
hit-IsValid w id now v = elim (Option-cases (find (with_conn id) (entries_of w.pool.drivers))) [
  | inl h ↦ rw h v
  | inr (e, h) ↦ rw h (touch-IsValid w id now v)
]

dialled-IsValid : (w : World) → IsValid w → IsValid (step w dialled)
unfolding step
dialled-IsValid w v = record {
  balanced = λ d. omega (arith, v.balanced d);
  once = λ d. atmost d (w.pool.next_driver) (v.once d) (v.fresh d);
  fresh = λ d h. above d w.pool.next_driver h (v.fresh d);
  keys = v.keys;
}
  where
    atmost :
        (d n : ℕ)
        → count d w.pool.opened ≤ 1
        → (n ≤ d → count d w.pool.opened ≡ 0)
        → one d n + count d w.pool.opened ≤ 1
    atmost d n h k = ground arith

    above :
        (d n : ℕ)
        → suc n ≤ d
        → (n ≤ d → count d w.pool.opened ≡ 0)
        → one d n + count d w.pool.opened ≡ 0
    above d n h k = ground arith

-- A driver that a `Get` holds is open.
pending_open : (w : World) (d : ℕ) → IsValid w → 1 ≤ count d w.pending → 1 ≤ count d w.pool.opened
pending_open w d v h = omega (arith, v.balanced d, h)

drop-IsValid :
    (w : World) (d : ℕ)
    → IsValid w
    → 1 ≤ count d w.pending
    → IsValid (record w { pool = close d w.pool; pending = remove d w.pending })
drop-IsValid w d v h =
    let there = pending_open w d v h in
    record {
      balanced = λ x.
          omega (
            arith,
            v.balanced x,
            count-remove x d w.pending h,
            count-remove x d w.pool.opened there,
          );
      once = λ x. omega (arith, v.once x, count-remove x d w.pool.opened there);
      fresh = λ x k. omega (arith, v.fresh x k, count-remove x d w.pool.opened there);
      keys = v.keys;
    }

ping_failed-IsValid : (w : World) (d : ℕ) → IsValid w → IsValid (step w (ping_failed d))
unfolding step
ping_failed-IsValid w d v =
    if_cases IsValid (ltb 0 (count d w.pending))
      (λ h. drop-IsValid w d v (ltb→lt 0 (count d w.pending) h)) (λ _. v)

evicted-IsValid : (w : World) (id : ℕ) → IsValid w → IsValid (step w (evicted id))
unfolding step evict
evicted-IsValid w id v =
    let es = entries_of w.pool.drivers in
    elim (Option-cases (find (with_conn id) es)) [
      | inl h ↦ rw h v
      | inr (e, h) ↦
          let there : 1 ≤ count e.driver w.pool.opened =
            omega (arith, v.balanced e.driver, find-held id es e h) in
          rw h (record {
            balanced = λ x. omega (
              arith,
              v.balanced x,
              held-evict x id es e v.keys h,
              count-remove x e.driver w.pool.opened there,
            );
            once = λ x. omega (arith, v.once x, count-remove x e.driver w.pool.opened there);
            fresh = λ x k. omega (arith, v.fresh x k, count-remove x e.driver w.pool.opened there);
            keys = keys-select (λ x. not (with_conn id x)) es v.keys;
          })
    ]

collected-IsValid : (w : World) (now : ℕ) → IsValid w → IsValid (step w (collected now))
unfolding step evict_idle
collected-IsValid w now v =
    let es = entries_of w.pool.drivers in
    let idle = is_idle w.pool.idle_ttl now in
    let below : (x : ℕ) → held x (select idle es) ≤ count x w.pool.opened =
      λ x. omega (arith, v.balanced x, held-select x idle es) in
    let closed = count-close_all (select idle es) w.pool.opened below in
    record {
      balanced = λ x.
          rw (entries-keep w.pool.idle_ttl now w.pool.drivers)
            (omega (arith, v.balanced x, closed x, held-select x idle es));
      once = λ x. omega (arith, v.once x, closed x);
      fresh = λ x k. omega (arith, v.fresh x k, closed x);
      keys =
          rw (entries-keep w.pool.idle_ttl now w.pool.drivers)
            (keys-select (λ e. not (idle e)) es v.keys);
    }

stopped-IsValid : (w : World) → IsValid w → IsValid (step w stopped)
unfolding step stop
stopped-IsValid w v =
    let es = entries_of w.pool.drivers in
    let below : (x : ℕ) → held x es ≤ count x w.pool.opened = λ x. omega (arith, v.balanced x) in
    let closed = count-close_all es w.pool.opened below in
    record {
      balanced = λ x. omega (arith, v.balanced x, closed x);
      once = λ x. omega (arith, v.once x, closed x);
      fresh = λ x k. omega (arith, v.fresh x k, closed x);
      keys = tt;
    }

added-IsValid :
    (w : World) (id d now : ℕ) (o : Option (List Entry))
    → w.pool.drivers ≡ o
    → any (with_conn id) (entries_of o) ≡ false
    → IsValid w
    → 1 ≤ count d w.pending
    → IsValid (record {
      pool = (add_entry o id d now w.pool).1;
      pending = remove d w.pending;
      leaked = leak d (add_entry o id d now w.pool).0 w.leaked;
    })
added-IsValid w id d now none e h v k = record {
  balanced = λ x. omega (arith, v.balanced x, count-remove x d w.pending k);
  once = v.once;
  fresh = v.fresh;
  keys = v.keys;
}
added-IsValid w id d now (some es) e h v k =
    let new : Entry = record { driver = d; conn_id = id; last_used = now } in
    let entries : entries_of w.pool.drivers ≡ es = ap entries_of e in
    let before : (x : ℕ)
        → count x w.pool.opened ≡ held x es + (count x w.pending + count x w.leaked) =
      λ x.
        v.balanced x
        ∙ ap (λ (l : List Entry). held x l + (count x w.pending + count x w.leaked)) entries in
    record {
      balanced = λ x. omega (arith, before x, count-remove x d w.pending k, held-append x es new);
      once = v.once;
      fresh = v.fresh;
      keys = Distinct-append same_conn es new (subst (Distinct same_conn) entries v.keys) h;
    }

raced-IsValid :
    (w : World) (id d now : ℕ)
    → IsValid w
    → 1 ≤ count d w.pending
    → IsValid (record w { pool = touch id now (close d w.pool); pending = remove d w.pending })
raced-IsValid w id d now v k =
    touch-IsValid (record w { pool = close d w.pool; pending = remove d w.pending }) id now
      (drop-IsValid w d v k)

committed-IsValid : (w : World) (id d now : ℕ) → IsValid w → IsValid (step w (committed id d now))
unfolding step commit
committed-IsValid w id d now v =
    let es = entries_of w.pool.drivers in
    if_cases IsValid (ltb 0 (count d w.pending))
      (λ h.
        let k = ltb→lt 0 (count d w.pending) h in
        elim (Option-cases (find (with_conn id) es)) [
          | inr (e, f) ↦ rw f (raced-IsValid w id d now v k)
          | inl f ↦ rw f (added-IsValid w id d now w.pool.drivers refl (none_found id es f) v k)
        ])
      (λ _. v)

step_keeps : (w : World) (e : Event) → IsValid w → IsValid (step w e)
step_keeps w (hit id now) v = hit-IsValid w id now v
step_keeps w dialled v = dialled-IsValid w v
step_keeps w (ping_failed d) v = ping_failed-IsValid w d v
step_keeps w (committed id d now) v = committed-IsValid w id d now v
step_keeps w (evicted id) v = evicted-IsValid w id v
step_keeps w (collected now) v = collected-IsValid w now v
step_keeps w stopped v = stopped-IsValid w v

-- The world of a new pool.
abbrev pub start : World
start = record { pool = new_pool; pending = []; leaked = [] }

start-IsValid : IsValid start
unfolding new_pool
start-IsValid = record {
  balanced = λ d. refl;
  once = λ d. omega arith;
  fresh = λ d h. refl;
  keys = tt;
}

run_keeps : (w : World) (events : List Event) → IsValid w → IsValid (run w events)
unfolding run
run_keeps w [] v = v
run_keeps w (e ∷ es) v = run_keeps (step w e) es (step_keeps w e v)

-- From a new pool on, however the locked parts of `Get`, the opening of drivers, `Evict`, the
-- collector and `Stop` interleave: every open driver is held exactly once, by the pool, by a `Get`
-- that is under way, or by a `Get` that panicked, and no connection has two entries.
pub run-IsValid : (events : List Event) → IsValid (run start events)
run-IsValid events = run_keeps start events start-IsValid
