-- ===== src/Server/Request.antt =====
-- What the handlers of internal/server read of a request: internal/server/helpers.go, and the parts of
-- the other files that read forms. Keys and values are those that net/http has parsed; of a map, the
-- order is that in which its keys come first.
pub mod Forms
use debeasy.Base.{
  ℕ, suc, Bool, true, false, not, ◌||◌, ◌&&◌, Option, none, some, List, [], ◌∷◌, ◌++◌,
  if◌then◌else◌, is_empty, get_elem?, drop, length, map, select,
}
use debeasy.Base.Text.{Text, codes, ◌≗◌, trim_space, has_prefix, split}
use debeasy.Base.Int.{ℤ, pos}
use debeasy.Base.Number.{atoi, parse_int}
use debeasy.Store.Connections.{Connection}
use debeasy.Dbx.Driver.{ColumnDef, CreateTableDef, IndexDef, DatabaseOpts}
use debeasy.Dbx.Sql.{Values}

abbrev pub Fields : Type 0
Fields = List (Text × Text)

-- `path` has the segments of the URL's path; `post_form` is empty unless the method is POST. A header
-- that is missing is the empty text.
pub record Request : Type 0 where
  pub method : Text
  pub path : List Text
  pub query : Fields
  pub post_form : Fields
  pub cookie : Option Text
  pub csrf_header : Text
  pub htmx : Text
  pub forwarded : Text
  pub remote : Text

-- The first value of a key, or the empty text.
unfoldable pub value_of : Fields → Text → Text
value_of [] key = []
value_of ((k, v) ∷ fields) key = let rest = value_of fields key in if k ≗ key then v else rest

-- All values of a key.
unfoldable pub values_of : Fields → Text → List Text
values_of [] key = []
values_of ((k, v) ∷ fields) key =
    let rest = values_of fields key in if k ≗ key then v ∷ rest else rest

-- `r.Form`: the body's values come in front of the query's.
abbrev pub form : Request → Fields
form r = r.post_form ++ r.query

abbrev pub form_value : Request → Text → Text
form_value r key = value_of (form r) key

abbrev pub is_htmx : Request → Bool
is_htmx r = r.htmx ≗ codes "true"

abbrev int_or : ℤ → Option ℤ → ℤ
int_or def none = def
int_or def (some v) = v

unfoldable pub form_int : Request → Text → ℤ → ℤ
form_int r name def = int_or def (atoi (form_value r name))

unfoldable pub form_bool : Request → Text → Bool
form_bool r name =
    let v = form_value r name in v ≗ codes "on" || (v ≗ codes "true" || v ≗ codes "1")

abbrev pub int_param : Text → ℤ
int_param s = parse_int s

-- The entries of other keys.
unfoldable pub without_key : Text → Fields → Fields
without_key key [] = []
without_key key ((k, v) ∷ fields) =
    let rest = without_key key fields in if k ≗ key then rest else (k, v) ∷ rest

-- `parsePrefixedQuery` and `parsePrefixedForm`: the first value of each key with the prefix and more.
unfoldable pub parse_prefixed : Text → Fields → Values
parse_prefixed prefix [] = []
parse_prefixed prefix ((k, v) ∷ fields) =
    let rest = parse_prefixed prefix fields in
    let name = drop (length prefix) k in
    if has_prefix k prefix && not (is_empty name) then (name, v) ∷ without_key name rest else rest

-- `splitCSV`
unfoldable pub split_csv : Text → List Text
split_csv s = select (λ v. not (is_empty v)) (map trim_space (split s b','))

unfoldable pub connection_from_form : Request → Connection
connection_from_form r = record {
  id = 0;
  name = form_value r (codes "name");
  kind = form_value r (codes "kind");
  host = form_value r (codes "host");
  port = form_int r (codes "port") (pos 0);
  username = form_value r (codes "username");
  password = form_value r (codes "password");
  database = form_value r (codes "database");
  sslmode = form_value r (codes "sslmode");
  params = form_value r (codes "params");
  created_by = none;
}

abbrev text_at : Option Text → Text
text_at none = []
text_at (some t) = t

abbrev one_at : Option Text → Bool
one_at none = false
one_at (some t) = t ≗ codes "1"

-- The columns of the form's arrays from a position on; a column without a name is left out.
unfoldable pub form_columns : Fields → List Text → ℕ → List ColumnDef
form_columns fields [] i = []
form_columns fields (n ∷ names) i =
    let rest = form_columns fields names (suc i) in
    let at = λ (key : Text). get_elem? (values_of fields key) i in
    let col : ColumnDef = record {
      name = trim_space n;
      data_type = text_at (at (codes "col_type"));
      nullable = one_at (at (codes "col_nullable"));
      default = text_at (at (codes "col_default"));
      is_pk = one_at (at (codes "col_pk"));
    } in
    if is_empty (trim_space n) then rest else col ∷ rest

unfoldable pub parse_create_table_form : Request → CreateTableDef
parse_create_table_form r = record {
  schema = form_value r (codes "schema");
  name = form_value r (codes "name");
  columns = form_columns (form r) (values_of (form r) (codes "col_name")) 0;
  if_not_exists = false;
}

unfoldable pub index_from_form : Request → IndexDef
index_from_form r = record {
  name = form_value r (codes "name");
  schema = form_value r (codes "schema");
  table = form_value r (codes "table");
  columns = split_csv (form_value r (codes "columns"));
  unique = form_bool r (codes "unique");
  method = form_value r (codes "method");
}

unfoldable pub database_from_form : Request → DatabaseOpts
database_from_form r = record {
  encoding = form_value r (codes "encoding");
  collation = form_value r (codes "collation");
  owner = [];
  template = [];
}
