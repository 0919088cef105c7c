-- ===== src/Store/Connections/Updates.antt =====
-- What `Update` of internal/store/connections.go changes, and what it keeps.
use mathlib.Core.Option
use debeasy.Base.{
  ℕ, ◌≡◌, ◌≢◌, refl, ap, Bool, true, false, List, [], ◌∷◌, Option, none, some, Result, ok, err,
  arith, find, ◌==◌, if◌then◌else◌,
}
use debeasy.Base.Text.{Text, trim_space}
use debeasy.Crypto.{Aead}
use debeasy.Store.{Store, ConnectionRow, Error}
use debeasy.Store.Table.{find_sound}
use debeasy.Store.Connections.{
  Connection, with_id, seal_password, open_password, scan, found, get, set_row, set_where,
  run_update, update_with, update,
}
use debeasy.Store.Connections.Laws.{HasSize, open-seal_password}

find-set_where_self :
    (id : ℕ) (f : ConnectionRow → ConnectionRow) (rs : List ConnectionRow)
    → ((r : ConnectionRow) → (f r).id ≡ r.id)
    → find (with_id id) (set_where id f rs) ≡ Option.map f (find (with_id id) rs)
find-set_where_self id f [] k = refl
find-set_where_self id f (r ∷ rs) k = ground (arith, k r, find-set_where_self id f rs k)

find-set_where_other :
    (id other : ℕ) (f : ConnectionRow → ConnectionRow) (rs : List ConnectionRow)
    → ((r : ConnectionRow) → (f r).id ≡ r.id)
    → other ≢ id
    → find (with_id other) (set_where id f rs) ≡ find (with_id other) rs
find-set_where_other id other f [] k h = refl
find-set_where_other id other f (r ∷ rs) k h =
    ground (arith, k r, find-set_where_other id other f rs k h)

module _ (s s' : Store) (keyring : Option Aead) (c : Connection) where
  abbrev Stored : Option (Option Text) → Type 0
  Stored enc =
      (s.down ≡ none)
      × (s' ≡ record s {
        connections = set_where c.id (set_row c (trim_space c.name) enc) s.connections;
      })

  run_update_ok :
      (enc : Option (Option Text))
      → run_update s c (trim_space c.name) enc ≡ (ok tt, s')
      → Stored enc
  unfolding run_update
  run_update_ok enc h = (ground arith, ground arith)

  update_keeping_ok :
      (nonce : Result Text Text) → update s keyring c false nonce ≡ (ok tt, s') → Stored none
  update_keeping_ok nonce h = run_update_ok none (without_kind h)
    where
      without_kind :
          update s keyring c false nonce ≡ (ok tt, s')
          → run_update s c (trim_space c.name) none ≡ (ok tt, s')
      without_kind h = unfold update in ground arith

  update_with_ok :
      (outcome : Result Error (Option Text))
      → update_with s c (trim_space c.name) outcome ≡ (ok tt, s')
      → (enc : Option Text) × (outcome ≡ ok enc) × Stored (some enc)
  unfolding update_with
  update_with_ok (err e) h = cc
  update_with_ok (ok enc) h = (enc, refl, run_update_ok (some enc) h)

  update_sealing_ok :
      (nonce : Result Text Text)
      → update s keyring c true nonce ≡ (ok tt, s')
      → (enc : Option Text) × (seal_password keyring c.password nonce ≡ ok enc) × Stored (some enc)
  update_sealing_ok nonce h =
      update_with_ok (seal_password keyring c.password nonce) (without_kind h)
    where
      without_kind :
          update s keyring c true nonce ≡ (ok tt, s')
          → update_with s c (trim_space c.name) (seal_password keyring c.password nonce)
            ≡ (ok tt, s')
      without_kind h = unfold update in ground arith

-- The row that a read found.
found_ok :
    (keyring : Option Aead) (o : Option ConnectionRow) (before : Connection)
    → found keyring o ≡ ok before
    → (r : ConnectionRow) × (o ≡ some r) × (scan keyring r ≡ before)
found_ok keyring none before h = cc
found_ok keyring (some r) before h = (r, refl, cc)

get_ok :
    (s : Store) (keyring : Option Aead) (id : ℕ) (before : Connection)
    → s.down ≡ none
    → get s keyring id ≡ ok before
    → (r : ConnectionRow) × (find (with_id id) s.connections ≡ some r) × (scan keyring r ≡ before)
get_ok s keyring id before up h =
    found_ok keyring (find (with_id id) s.connections) before (unfold get in cc)

same_ids : (a b : ℕ) → (a == b) ≡ true → a ≡ b
same_ids a b h = ground arith

-- The connection that an update asks for: with the password it leaves or sets.
abbrev pub updated : Connection → Connection → Bool → Connection
updated c before update_password = record c {
  name = trim_space c.name;
  password = if update_password then c.password else before.password;
  created_by = before.created_by;
}

module _ (s s' : Store) (keyring : Option Aead) (c before : Connection) where
  get-Stored :
      (enc : Option (Option Text)) (p : Text)
      → Stored s s' keyring c enc
      → ((r : ConnectionRow)
          → scan keyring r ≡ before
          → open_password keyring (set_row c (trim_space c.name) enc r).password_enc ≡ p)
      → get s keyring c.id ≡ ok before
      → (get s' keyring c.id
          ≡ ok
              (record c { name = trim_space c.name; password = p; created_by = before.created_by }))
        × ((other : ℕ) → other ≢ c.id → get s' keyring other ≡ get s keyring other)
  unfolding get scan
  get-Stored enc p (up, stored) opens h =
      let (r, f, shape) = get_ok s keyring c.id before up h in
      let same_id : r.id ≡ c.id = same_ids r.id c.id (find_sound (with_id c.id) s.connections f) in
      let by : r.created_by ≡ before.created_by = ap (λ (x : Connection). x.created_by) shape in
      let f' =
        find-set_where_self c.id (set_row c (trim_space c.name) enc) s.connections (λ r. refl) in
      (
        rw (stored, up, f', f, same_id, by, opens r shape) refl,
        λ other ne.
            rw
              (
                stored,
                up,
                find-set_where_other c.id other (set_row c (trim_space c.name) enc) s.connections
                    (λ r. refl) ne,
              )
              refl,
      )

-- A successful update of a saved connection is what a read of it gives back from then on, its
-- password included: the sealed new one if the update sets it, else the one from before. Its creator
-- and all the other connections stay as they were.
pub get-update :
    (s s' : Store) (aead : Aead) (c before : Connection) (update_password : Bool)
    (nonce : Result Text Text)
    → HasSize aead nonce
    → get s (some aead) c.id ≡ ok before
    → update s (some aead) c update_password nonce ≡ (ok tt, s')
    → (get s' (some aead) c.id ≡ ok (updated c before update_password))
      × ((other : ℕ) → other ≢ c.id → get s' (some aead) other ≡ get s (some aead) other)
get-update s s' aead c before true nonce size h k =
    let (enc, sealed, stored) = update_sealing_ok s s' (some aead) c nonce k in
    get-Stored s s' (some aead) c before (some enc) c.password stored
      (λ r e. open-seal_password aead c.password nonce enc size sealed) h
get-update s s' aead c before false nonce size h k =
    get-Stored s s' (some aead) c before none before.password
      (update_keeping_ok s s' (some aead) c nonce k)
      (λ r e. unfold scan in ap (λ (x : Connection). x.password) e) h

-- The password that an update is to store can be sealed, or is not to be stored.
abbrev pub CanSeal : Aead → Connection → Bool → Result Text Text → Type 0
CanSeal aead c false nonce = Unit
CanSeal aead c true nonce =
    (enc : Option Text) × (seal_password (some aead) c.password nonce ≡ ok enc)

-- A change to a blank name that is kept: it succeeds, and the connection is read back without a name.
abbrev pub Renamed : Store → Aead → Connection → Connection → Bool → Result Text Text → Type 0
Renamed s aead c before update_password nonce =
    (s' : Store) × (update s (some aead) c update_password nonce ≡ (ok tt, s'))
    × (get s' (some aead) c.id ≡ ok (record (updated c before update_password) { name = [] }))
