-- ===== src/Server/Handlers/Rows.antt =====
-- internal/server/handlers_object.go: a table's page, and the forms for its rows.
pub mod Forms
use debeasy.Base.{
  ℕ, zero, suc, ◌&&◌, ◌||◌, Bool, true, false, not, Option, none, some, List, [], ◌∷◌, ◌++◌, map,
  Result, ok, err, if◌then◌else◌, is_empty, length, select, find, get_elem?, all,
}
use debeasy.Base.Text.{Text, codes, ◌≗◌}
use debeasy.Base.Int.{ℤ, pos, leb_ℤ}
use debeasy.Base.Decimal.{decimal, decimal_int}
use debeasy.Store.Connections.{Connection}
use debeasy.Dbx.Driver.{
  Error, Column, ObjectRef, TableDef, Page, RowSet, Value, nil, string, bytes, time, bool, int,
  float,
}
use debeasy.Dbx.Sql.{Values}
use debeasy.Server.Request.{
  Request, Fields, form_value, form_int, value_of, without_key, parse_prefixed,
}
use debeasy.Server.Pages.{
  Message, of_driver, ObjectPage, RowForm, object_detail, object_data, row_form, Response, page,
  failure, triggered,
}
use debeasy.Server.App.{
  App, Context, Handler, Env, resolve_conn, resolve_table, ref_of, operate, csrf_of,
}

-- A key of a map gets a value.
abbrev pub put : Text → Text → Values → Values
put k v values = (k, v) ∷ without_key k values

abbrev pub row_url : Connection → ObjectRef → Text → Text
row_url conn ref suffix =
    codes "/conn/"
    ++ (decimal conn.id
        ++ (codes "/object/"
            ++ (ref.schema ++ (codes "/" ++ (ref.name ++ (codes "/row" ++ suffix))))))

unfoldable pub pk_columns : List Column → List Text
pk_columns [] = []
pk_columns (col ∷ cols) = let rest = pk_columns cols in if col.is_pk then col.name ∷ rest else rest

abbrev pub page_of : Request → Page
page_of r = record {
  offset = form_int r (codes "offset") (pos 0);
  limit = form_int r (codes "limit") (pos 50);
  order_by = value_of r.query (codes "order_by");
  desc = value_of r.query (codes "desc") ≗ codes "1";
}

-- The values of a new row: a column that is empty and marked as NULL is left out.
unfoldable pub insert_values : Request → List Column → Values
insert_values r [] = []
insert_values r (col ∷ cols) =
    let rest = insert_values r cols in
    let v = form_value r (codes "c_" ++ col.name) in
    let marked = form_value r (codes "null_" ++ col.name) ≗ codes "on" in
    if is_empty v && marked then rest else put col.name v rest

unfoldable pub update_values : Request → List Column → Values
update_values r [] = []
update_values r (col ∷ cols) =
    put col.name (form_value r (codes "c_" ++ col.name)) (update_values r cols)

unfoldable pub update_key : Request → List Column → Values
update_key r [] = []
update_key r (col ∷ cols) =
    let rest = update_key r cols in
    if col.is_pk then put col.name (form_value r (codes "pk_" ++ col.name)) rest else rest

-- `stringify`: a time is of none of the types that `formatAny` knows.
abbrev pub stringify : Value → Text
stringify nil = []
stringify (string s) = s
stringify (bytes s) = s
stringify (time s) = []
stringify (bool true) = codes "true"
stringify (bool false) = codes "false"
stringify (int n) = decimal_int n
stringify (float s) = s

-- The position of a column.
unfoldable pub index_of : List Text → Text → Option ℕ
index_of [] k = none
index_of (c ∷ cols) k =
    let rest = index_of cols k in
    if c ≗ k then some 0 else elim rest [ none ↦ none | some i ↦ some (suc i) ]

-- A row is as long as the columns.
abbrev cell_is : List Value → Text → Option ℕ → Bool
cell_is row want none = false
cell_is row want (some i) = elim (get_elem? row i) [ none ↦ false | some v ↦ stringify v ≗ want ]

unfoldable pub row_matches : List Text → List Value → Values → Bool
row_matches cols row [] = true
row_matches cols row ((k, want) ∷ pk) =
    cell_is row want (index_of cols k) && row_matches cols row pk

-- A row as a map; of two columns with one name, the last counts.
unfoldable pub row_values : List Text → List Value → Values
row_values [] row = []
row_values (c ∷ cols) [] = []
row_values (c ∷ cols) (v ∷ row) =
    let rest = row_values cols row in
    elim (index_of cols c) [ none ↦ (c, stringify v) ∷ rest | some i ↦ rest ]

abbrev has_key : Values → Text → Bool
has_key values k = not (is_empty (select (λ kv. kv.0 ≗ k) values))

-- The key's values, for the columns that the table has.
unfoldable pub seeded : List Column → Values → Values
seeded [] pk = []
seeded (col ∷ cols) pk =
    let rest = seeded cols pk in
    if has_key pk col.name then put col.name (value_of pk col.name) rest else rest

-- `fetchRowByPK`, on the rows read.
abbrev pub fetched : TableDef → Values → RowSet → Values
fetched def pk rs = elim (find (λ row. row_matches rs.columns row pk) rs.rows) [
  | some row ↦ row_values rs.columns row
  | none ↦ seeded def.columns pk
]

-- `dbx.Page{Limit: 1000}`
abbrev first_thousand : Page
first_thousand = record { offset = pos 0; limit = pos 1000; order_by = []; desc = false }

module _ {W : Type 0} (env : Env W) where
  unfoldable pub handle_object_detail : Text → Text → Text → Handler W
  handle_object_detail id schema name c r a =
      resolve_table env id schema name
        (λ conn d ref def a'. (page 200 (object_detail conn ref def), a')) a

  abbrev pub data_page :
      Context
      → Page
      → Connection
      → ObjectRef
      → TableDef
      → Result Error RowSet × App W
      → Response × App W
  data_page c p conn ref def (err e, a) = (failure 502 (of_driver e), a)
  data_page c p conn ref def (ok rs, a) =
      let keys = pk_columns def.columns in
      (
        page 200 (
            object_data (record {
              conn = conn;
              ref = ref;
              def = def;
              rows = rs;
              page = p;
              has_more = leb_ℤ p.limit (pos (length rs.rows));
              has_pk = not (is_empty keys);
              pk_cols = keys;
              csrf = csrf_of c;
            })),
        a,
      )

  unfoldable pub handle_object_data : Text → Text → Text → Handler W
  handle_object_data id schema name c r a =
      resolve_table env id schema name
        (λ conn d ref def a'.
          data_page c (page_of r) conn ref def
            (operate (env.drivers.sample_rows d ref (page_of r)) a'))
        a

  abbrev form_page : ℕ → RowForm → Response
  form_page status form = page status (row_form form)

  unfoldable pub handle_row_form : Text → Text → Text → Handler W
  handle_row_form id schema name c r a =
      resolve_table env id schema name
        (λ conn d ref def a'. (
          form_page 200 (record {
            conn = conn;
            ref = ref;
            def = def;
            is_edit = false;
            values = [];
            pk_values = [];
            error = none;
            action_url = row_url conn ref [];
          }),
          a',
        ))
        a

  -- The form again with the error, or the event that the table listens for.
  abbrev pub saved : RowForm → Result Error (Unit {0}) × App W → Response × App W
  saved form (err e, a) = (form_page 400 (record form { error = some (of_driver e) }), a)
  saved form (ok _, a) = (triggered (codes "row-saved"), a)

  unfoldable pub handle_row_insert : Text → Text → Text → Handler W
  handle_row_insert id schema name c r a =
      resolve_table env id schema name
        (λ conn d ref def a'.
          let values = insert_values r def.columns in
          saved
            (record {
              conn = conn;
              ref = ref;
              def = def;
              is_edit = false;
              values = values;
              pk_values = [];
              error = none;
              action_url = row_url conn ref [];
            })
            (operate (env.drivers.insert_row d ref values) a'))
        a

  abbrev edit_page :
      Values → Connection → ObjectRef → TableDef → Result Error RowSet × App W → Response × App W
  edit_page pk conn ref def (err e, a) = (failure 502 (of_driver e), a)
  edit_page pk conn ref def (ok rs, a) = (
    form_page 200 (record {
      conn = conn;
      ref = ref;
      def = def;
      is_edit = true;
      values = fetched def pk rs;
      pk_values = pk;
      error = none;
      action_url = row_url conn ref (codes "/update");
    }),
    a,
  )

  -- The rows are read for the reference in the table's definition.
  unfoldable pub handle_row_edit_form : Text → Text → Text → Handler W
  handle_row_edit_form id schema name c r a =
      resolve_table env id schema name
        (λ conn d ref def a'.
          edit_page (parse_prefixed (codes "pk_") r.query) conn ref def
            (operate (env.drivers.sample_rows d def.ref first_thousand) a'))
        a

  unfoldable pub handle_row_update : Text → Text → Text → Handler W
  handle_row_update id schema name c r a =
      resolve_table env id schema name
        (λ conn d ref def a'.
          let values = update_values r def.columns in
          let pk = update_key r def.columns in
          saved
            (record {
              conn = conn;
              ref = ref;
              def = def;
              is_edit = true;
              values = values;
              pk_values = pk;
              error = none;
              action_url = row_url conn ref (codes "/update");
            })
            (operate (env.drivers.update_row d ref pk values) a'))
        a

  abbrev row_deleted : Result Error (Unit {0}) × App W → Response × App W
  row_deleted (err e, a) = (failure 400 (of_driver e), a)
  row_deleted (ok _, a) = (triggered (codes "row-saved"), a)

  unfoldable pub handle_row_delete : Text → Text → Text → Handler W
  handle_row_delete id schema name c r a =
      resolve_conn env id
        (λ conn d a'. row_deleted (
          operate
            (env.drivers.delete_row d (ref_of schema name)
              (parse_prefixed (codes "pk_") r.post_form))
            a'))
        a
