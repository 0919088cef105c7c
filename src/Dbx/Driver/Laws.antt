-- ===== src/Dbx/Driver/Laws.antt =====
-- What `ParseKind` and `DefaultSchema` of internal/dbx/driver.go promise.
use debeasy.Base.{
  ◌≡◌, refl, Bool, true, false, not, ◌&&◌, List, [], ◌∷◌, arith, is_empty, ok, ◌≢◌, if◌then◌else◌,
}
use debeasy.Base.Text.{Text, codes, ◌≗◌}
use debeasy.Base.Text.Laws.{≗_refl}
use debeasy.Dbx.Driver.{
  Kind, postgres, mysql, sqlite, kind_text, parse_kind, Schema, has_schema, default_schema,
}

-- The text of a kind parses back to that kind.
pub parse_kind-kind_text : (k : Kind) → parse_kind (kind_text k) ≡ ok k
unfolding parse_kind ◌≗◌
parse_kind-kind_text postgres = refl
parse_kind-kind_text mysql = refl
parse_kind-kind_text sqlite = refl

-- Some listed schema has this name.
abbrev pub Listed : Text → List Schema → Type 0
Listed name schemas = has_schema schemas name ≡ true

Listed-head : (s : Schema) (ss : List Schema) → Listed s.name (s ∷ ss)
Listed-head s ss = ground (arith, ≗_refl s.name)

if-Listed :
    (b : Bool) (x y : Text) (ss : List Schema)
    → (b ≡ true → Listed x ss)
    → Listed y ss
    → Listed (if b then x else y) ss
if-Listed true x y ss h k = h refl
if-Listed false x y ss h k = k

-- The schema that each driver presents by default, where the server has one of that name.
abbrev pub native : Kind → Text → Text
native postgres conn_db = codes "public"
native mysql conn_db = conn_db
native sqlite conn_db = codes "main"

mysql_preferred :
    (conn_db : Text) (ss : List Schema)
    → (not (is_empty conn_db) && has_schema ss conn_db) ≡ true
    → Listed conn_db ss
mysql_preferred [] ss h = cc
mysql_preferred (c ∷ s) ss h = h

-- If the server lists any schema, the chosen one is listed, and it is the driver's own default
-- (`public`, the connection's database, `main`) wherever that one is listed and not empty.
pub default_schema-Listed :
    (k : Kind) (conn_db : Text) (schemas : List Schema)
    → schemas ≢ []
    → Listed (default_schema k conn_db schemas) schemas
      × (native k conn_db ≢ []
          → Listed (native k conn_db) schemas
          → default_schema k conn_db schemas ≡ native k conn_db)
unfolding default_schema
default_schema-Listed k conn_db [] h = absurd (h refl)
default_schema-Listed postgres conn_db (s ∷ ss) h =
    (if-Listed _ _ _ (s ∷ ss) (λ e. e) (Listed-head s ss), λ _ e. rw e)
default_schema-Listed mysql conn_db (s ∷ ss) h = (
  if-Listed _ _ _ (s ∷ ss) (mysql_preferred conn_db (s ∷ ss)) (Listed-head s ss),
  λ n e. ground arith,
)
default_schema-Listed sqlite conn_db (s ∷ ss) h =
    (if-Listed _ _ _ (s ∷ ss) (λ e. e) (Listed-head s ss), λ _ e. rw e)
