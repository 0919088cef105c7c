-- ===== src/Server/Handlers/Connections/Pooled.antt =====
-- What a change of a saved connection does to its open driver: internal/server/handlers_connections.go.
use debeasy.Base.{ℕ, ◌≡◌, refl, none, some, Option, ap, find, subst, sym, Result, ok, err}
use debeasy.Base.Text.{Text}
use debeasy.Base.Int.{ℤ}
use debeasy.Store
use debeasy.Store.{Store}
use debeasy.Crypto.{Aead}
use debeasy.Store.Connections
use debeasy.Store.Connections.{Connection}
use debeasy.Store.Connections.Laws.{HasSize}
use debeasy.Store.Connections.Updates
use debeasy.Store.Connections.Updates.{get-update}
use debeasy.Dbx.Pool
use debeasy.Dbx.Pool.{Pool, Entry, with_conn, entries_of, pooled, get_pooled}
use debeasy.Dbx.Pool.Sharing.{get_pooled-evict}
use debeasy.Server.Request.{Request, int_param}
use debeasy.Server.Pages.{Response}
use debeasy.Server.App.{App, Context, Env, row_id, pool_get, with_pool, backend, get_connection}
use debeasy.Server.Handlers.Connections.{
  edited, updates_password, updated, deleted, evicted, handle_connection_update,
  handle_connection_delete,
}

-- The pool has no driver for the connection.
abbrev pub Unpooled : {W : Type 0} → ℤ → App W → Type 0
Unpooled id a = (now : ℕ) → (get_pooled a.pool (row_id id) now).0 ≡ none

-- The next use of the connection opens a driver with the settings that the store has.
abbrev pub Reopened : {W : Type 0} → Env W → ℤ → App W → Type 0
Reopened env id a =
    pool_get env a id
    ≡ with_pool a
        (Pool.looked_up (backend env a) a.pool (row_id id) env.later (get_connection env a id))

-- These settings are the ones of the form, with the password that it sets or the one from before.
abbrev pub HasSettings : {W : Type 0} → Env W → ℤ → Request → App W → App W → Type 0
HasSettings env id r a a' =
    (aead : Aead) (before : Connection)
    → env.keyring ≡ some aead
    → HasSize aead env.nonce
    → get_connection env a id ≡ ok before
    → get_connection env a' id ≡ ok (Updates.updated (edited r id) before (updates_password r))

abbrev pub Save : Type 0
Save = Result Store.Error (Unit {0}) × Store

-- What the store does with the form.
abbrev pub save : {W : Type 0} → Env W → ℤ → Request → App W → Save
save env id r a =
    Connections.update a.store env.keyring (edited r id) (updates_password r) env.nonce

-- The answer to a change, by the outcome of saving it.
abbrev pub Updated : {W : Type 0} → Env W → ℤ → Request → App W → Save → Response × App W → Type 0
Updated env id r a (ok _, s) q =
    (q.0.status ≡ 303)
    × (q.1.store ≡ s)
    × Unpooled id q.1
    × Reopened env id q.1
    × HasSettings env id r a q.1
Updated env id r a (err e, s) q = (q.0.status ≡ 400) × (q.1.store ≡ s) × (q.1.pool ≡ a.pool)

missed :
    (p : Pool) (id now : ℕ) (o : Option Entry)
    → (pooled p id now o).0 ≡ none
    → pooled p id now o ≡ (none, p)
missed p id now none h = refl
missed p id now (some e) h = cc

Unpooled-Reopened :
    {W : Type 0} (env : Env W) (id : ℤ) (a : App W) → Unpooled id a → Reopened env id a
unfolding Pool.get get_pooled
Unpooled-Reopened env id a h =
    ap
      (λ (q : Option ℕ × Pool). with_pool a (elim (q.0) [
        | some d ↦ (ok d, q.1)
        | none ↦ Pool.looked_up (backend env a) q.1 (row_id id) env.later (get_connection env a id)
      ]))
      (missed a.pool (row_id id) env.now (find (with_conn (row_id id)) (entries_of a.pool.drivers))
        (h env.now))

updated-HasSettings :
    {W : Type 0} (env : Env W) (id : ℤ) (r : Request) (a : App W) (s : Store)
    → save env id r a ≡ (ok tt, s)
    → HasSettings env id r a (evicted env (record a { store = s }) id)
updated-HasSettings env id r a s e aead before keyring size found =
    let conn = edited r id in
    let b = updates_password r in
    subst
      (λ k.
        Connections.update a.store k conn b env.nonce ≡ (ok tt, s)
        → Connections.get a.store k (row_id id) ≡ ok before
        → Connections.get s k (row_id id) ≡ ok (Updates.updated conn before b))
      (sym keyring)
      (λ saved old. (get-update a.store s aead conn before b env.nonce size old saved).0) e found

updated-Updated :
    {W : Type 0} (env : Env W) (c : Context) (id : ℤ) (r : Request) (a : App W) (p : Save)
    → save env id r a ≡ p
    → Updated env id r a p (updated env c id (edited r id) a p)
updated-Updated env c id r a (err e, s) h = (refl, refl, refl)
updated-Updated env c id r a (ok tt, s) h =
    let out : Unpooled id (evicted env (record a { store = s }) id) =
      λ now. (get_pooled-evict a.pool (row_id id) now).0 in
    (refl, refl, out, Unpooled-Reopened env id _ out, updated-HasSettings env id r a s h)

deleted-Unpooled :
    {W : Type 0} (env : Env W) (r : Request) (id : ℤ) (a : App W)
    (p : Result Store.Error (Unit {0}) × Store)
    → Unpooled id a
    → Unpooled id (deleted env r a p).1
deleted-Unpooled env r id a (err e, s) h = h
deleted-Unpooled env r id a (ok _, s) h = h

-- When the store saves a change of a connection, the answer is 303 and the old driver is out of the pool,
-- so that the next use opens one with the settings that are then saved: those of the form, also its
-- password, or else the one from before, where the connection existed and there is a keyring whose nonce
-- has the size of its cipher. When the store refuses the change, the answer is 400 and the pool is as it
-- was. A request to delete a connection takes its driver out of the pool in any case.
pub handle_connection_update-Updated :
    {W : Type 0} (env : Env W) (id : Text) (c : Context) (r : Request) (a : App W)
    → let n = int_param id in
      Updated env n r a (save env n r a) (handle_connection_update env id c r a)
      × Unpooled n (handle_connection_delete env id c r a).1
unfolding handle_connection_update handle_connection_delete
handle_connection_update-Updated env id c r a = (
  updated-Updated env c (int_param id) r a (save env (int_param id) r a) refl,
  deleted-Unpooled env r (int_param id) (evicted env a (int_param id)) _
      (λ now. (get_pooled-evict a.pool (row_id (int_param id)) now).0),
)
