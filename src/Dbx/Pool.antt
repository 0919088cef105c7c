-- ===== src/Dbx/Pool.antt =====
-- internal/dbx/pool.go: one open driver for each saved connection. A driver is known by a number;
-- `opened` holds those that are open, whoever holds them. `Get` locks the pool twice, so that it is
-- three steps: `get_pooled`, the opening of a driver without the lock, and `commit`. Times are
-- nanoseconds.
pub mod Invariant
pub mod Interleaving
pub mod Sharing
use debeasy.Base.{
  ℕ, suc, ◌+◌, Bool, true, false, not, Option, none, some, List, [], ◌∷◌, ◌++◌, map, Result, ok,
  err, ◌>>=◌, if◌then◌else◌, ltb, ◌==◌, is_empty, find, select, length,
}
use debeasy.Base.Text.{Text}
use debeasy.Store
use debeasy.Store.Connections.{Connection}
use debeasy.Dbx.Driver.{
  Kind, postgres, mysql, sqlite, Error, file_path_required, ping_failed, backend, parse_kind,
}

pub record Entry : Type 0 where
  pub driver : ℕ
  pub conn_id : ℕ
  pub last_used : ℕ

-- `drivers` is `none` for the nil map that `Stop` leaves.
pub record Pool : Type 0 where
  pub drivers : Option (List Entry)
  pub idle_ttl : ℕ
  pub max_open : ℕ
  pub opened : List ℕ
  pub next_driver : ℕ

-- `NewPool`: five minutes and ten connections.
pub new_pool : Pool
new_pool = record {
  drivers = some [];
  idle_ttl = 300000000000;
  max_open = 10;
  opened = [];
  next_driver = 0;
}

-- A read of the nil map finds nothing.
abbrev pub entries_of : Option (List Entry) → List Entry
entries_of none = []
entries_of (some es) = es

abbrev pub with_conn : ℕ → Entry → Bool
with_conn id e = e.conn_id == id

unfoldable pub remove : ℕ → List ℕ → List ℕ
remove d [] = []
remove d (x ∷ xs) = let rest = remove d xs in if x == d then xs else x ∷ rest

abbrev pub close : ℕ → Pool → Pool
close d p = record p { opened = remove d p.opened }

abbrev pub touch_entry : ℕ → ℕ → Entry → Entry
touch_entry id now e = if with_conn id e then record e { last_used = now } else e

abbrev pub touch_all : ℕ → ℕ → Option (List Entry) → Option (List Entry)
touch_all id now none = none
touch_all id now (some es) = some (map (touch_entry id now) es)

-- The driver takes the next number.
abbrev pub opening : Pool → Pool
opening p = record p { opened = p.next_driver ∷ p.opened; next_driver = suc p.next_driver }

-- `e.lastUsed = time.Now()`
abbrev pub touch : ℕ → ℕ → Pool → Pool
touch id now p = record p { drivers = touch_all id now p.drivers }

abbrev pub pooled : Pool → ℕ → ℕ → Option Entry → Option ℕ × Pool
pooled p id now none = (none, p)
pooled p id now (some e) = (some e.driver, touch id now p)

-- The first locked part of `Get`.
unfoldable pub get_pooled : Pool → ℕ → ℕ → Option ℕ × Pool
get_pooled p id now = pooled p id now (find (with_conn id) (entries_of p.drivers))

-- What `Get` fails with; a write to the nil map panics.
pub data GetError : Type 0 where
  lookup : Store.Error → GetError
  open_failed : Error → GetError
  nil_map : GetError

abbrev pub add_entry : Option (List Entry) → ℕ → ℕ → ℕ → Pool → Result GetError ℕ × Pool
add_entry none id d now p = (err nil_map, p)
add_entry (some es) id d now p = (
  ok d,
  record p { drivers = some (es ++ record { driver = d; conn_id = id; last_used = now } ∷ []) },
)

abbrev pub placed : Pool → ℕ → ℕ → ℕ → Option Entry → Result GetError ℕ × Pool
placed p id d now (some e) = (ok e.driver, touch id now (close d p))
placed p id d now none = add_entry p.drivers id d now p

-- The second locked part, with the driver that was opened in between.
unfoldable pub commit : Pool → ℕ → ℕ → ℕ → Result GetError ℕ × Pool
commit p id d now = placed p id d now (find (with_conn id) (entries_of p.drivers))

-- The saved connections, and the client libraries: `dial` is `openPostgres`, `openMySQL` or the rest
-- of `openSQLite`, and `ping` is that of a driver.
pub record Backend : Type 0 where
  pub get_connection : ℕ → Result Store.Error Connection
  pub dial : Kind → Connection → ℕ → Result Text (Unit {0})
  pub ping : ℕ → Option Text

module _ (b : Backend) where
  open b use {get_connection, dial, ping}

  dialled : Result Text (Unit {0}) → Result Error (Unit {0})
  dialled (ok _) = ok tt
  dialled (err msg) = err (backend msg)

  open_kind : Kind → Connection → ℕ → Result Error (Unit {0})
  unfolding dialled
  open_kind postgres c max_open = dialled (dial postgres c max_open)
  open_kind mysql c max_open = dialled (dial mysql c max_open)
  open_kind sqlite c max_open =
      if is_empty c.database then err file_path_required else dialled (dial sqlite c max_open)

  unfoldable pub open_driver : Connection → ℕ → Result Error (Unit {0})
  unfolding open_kind
  open_driver c max_open = do k ← parse_kind c.kind; open_kind k c max_open

  abbrev pinged : Pool → ℕ → ℕ → ℕ → Text → Option Text → Result GetError ℕ × Pool
  pinged p id d now name none = commit p id d now
  pinged p id d now name (some msg) =
      (err (open_failed (ping_failed name (backend msg))), close d p)

  abbrev opened_with : Pool → ℕ → ℕ → Text → Result Error (Unit {0}) → Result GetError ℕ × Pool
  opened_with p id now name (err e) = (err (open_failed e), p)
  opened_with p id now name (ok _) =
      pinged (opening p) id p.next_driver now name (ping p.next_driver)

  abbrev pub looked_up : Pool → ℕ → ℕ → Result Store.Error Connection → Result GetError ℕ × Pool
  looked_up p id now (err e) = (err (lookup e), p)
  looked_up p id now (ok c) = opened_with p id now c.name (open_driver c p.max_open)

  -- A `Get` that nothing interrupts, with the times of its two locked parts.
  unfoldable pub get : Pool → ℕ → ℕ → ℕ → Result GetError ℕ × Pool
  get p id now later =
      let (held, p') = get_pooled p id now in
      elim held [ some d ↦ (ok d, p') | none ↦ looked_up p' id later (get_connection id) ]

  -- `Test`: a driver that the pool never holds, opened, pinged and closed.
  unfoldable pub test : Pool → Connection → Result Error (Unit {0}) × Pool
  test p c = elim (open_driver c 2) [
    | err e ↦ (err e, p)
    | ok _ ↦ (
      elim (ping p.next_driver) [ none ↦ ok tt | some msg ↦ err (backend msg) ],
      close p.next_driver (opening p),
    )
  ]

abbrev pub removed : Pool → ℕ → Option Entry → Pool
removed p id none = p
removed p id (some e) = record (close e.driver p) {
  drivers = some (select (λ x. not (with_conn id x)) (entries_of p.drivers));
}

unfoldable pub evict : Pool → ℕ → Pool
evict p id = removed p id (find (with_conn id) (entries_of p.drivers))

-- `e.lastUsed.Before(now - idleTTL)`
abbrev pub is_idle : ℕ → ℕ → Entry → Bool
is_idle ttl now e = ltb (e.last_used + ttl) now

unfoldable pub close_all : List Entry → List ℕ → List ℕ
close_all [] opened = opened
close_all (e ∷ es) opened = close_all es (remove e.driver opened)

abbrev pub keep : ℕ → ℕ → Option (List Entry) → Option (List Entry)
keep ttl now none = none
keep ttl now (some es) = some (select (λ e. not (is_idle ttl now e)) es)

unfoldable pub evict_idle : Pool → ℕ → ℕ × Pool
unfolding close_all
evict_idle p now =
    let idle = select (is_idle p.idle_ttl now) (entries_of p.drivers) in
    (
      length idle,
      record p { drivers = keep p.idle_ttl now p.drivers; opened = close_all idle p.opened },
    )

unfoldable pub stop : Pool → Pool
unfolding close_all
stop p = record p { drivers = none; opened = close_all (entries_of p.drivers) p.opened }
