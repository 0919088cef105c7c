-- ===== src/Dbx/Ddl/Accepts.antt =====
-- Which definitions `buildCreateTable` and `buildCreateIndex` of internal/dbx/ddl.go accept.
use mathlib.Core.List.{cons-ne-nil}
use debeasy.Base.{
  ◌≡◌, refl, ◌≢◌, ◌↔◌, ◌⊎◌, Bool, true, false, List, [], ◌∷◌, Result, ok, err, ◌>>=◌, >>=-eq-ok,
  inl, inr, if◌then◌else◌, is_empty, All,
}
use debeasy.Base.Text.{Text, trim_space}
use debeasy.Dbx.Driver.{Kind, Error, no_column, missing_type, IndexDef, ColumnDef, CreateTableDef}
use debeasy.Dbx.Identifier.{quote_ident, qualified}
use debeasy.Dbx.Identifier.Quoting.{Quotable, quote_ident_iff}
use debeasy.Dbx.Ddl.{quote_all, build_create_table, build_create_index}
use debeasy.Dbx.Ddl.Render.{clause, clauses, build_create_table-create_table}

abbrev pub Succeeds {ℓ} : {A : Type ℓ} → Result Error A → Type ℓ
Succeeds {A} r = (a : A) × (r ≡ ok a)

bind_ok {ℓ κ} :
    {A : Type ℓ} {B : Type κ} (m : Result Error A) (f : A → Result Error B)
    → Succeeds m
    → ((a : A) → Succeeds (f a))
    → Succeeds (m >>= f)
bind_ok (ok a) f h k = k a
bind_ok (err e) f h k = cc (h.1)

unless_ok {ℓ} :
    {A : Type ℓ} (b : Bool) (e : Error) (m : Result Error A)
    → b ≡ false
    → Succeeds m
    → Succeeds (if b then err e else m)
unless_ok true e m h k = cc
unless_ok false e m h k = k

-- An optional schema and a name that can be quoted.
abbrev pub QualifiedName : Kind → Text → Text → Type 0
QualifiedName k schema name = ((schema ≡ []) ⊎ Quotable k schema) × Quotable k name

quote_ident_ok : (k : Kind) (name : Text) → Quotable k name → Succeeds (quote_ident k name)
quote_ident_ok k name (h, l) = (_, (quote_ident_iff k name _).1 (h, l, refl))

Quotable-of_ok : (k : Kind) (name : Text) {q : Text} → quote_ident k name ≡ ok q → Quotable k name
Quotable-of_ok k name e = let (h, l, _) = (quote_ident_iff k name _).0 e in (h, l)

qualified_ok :
    (k : Kind) (schema name : Text)
    → QualifiedName k schema name
    → Succeeds (qualified k schema name)
unfolding qualified
qualified_ok k [] name (_, h) = quote_ident_ok k name h
qualified_ok k (c ∷ s) name (inl e, h) = absurd (cons-ne-nil c s e)
qualified_ok k (c ∷ s) name (inr g, h) =
    bind_ok (quote_ident k (c ∷ s)) _ (quote_ident_ok k (c ∷ s) g)
      λ q. bind_ok (quote_ident k name) _ (quote_ident_ok k name h) λ n. (_, refl)

QualifiedName-of_ok :
    (k : Kind) (schema name : Text) {q : Text}
    → qualified k schema name ≡ ok q
    → QualifiedName k schema name
unfolding qualified
QualifiedName-of_ok k [] name e = (inl refl, Quotable-of_ok k name e)
QualifiedName-of_ok k (c ∷ s) name e =
    let (q, eq, e1) = >>=-eq-ok (quote_ident k (c ∷ s)) _ e in
    let (n, en, _) = >>=-eq-ok (quote_ident k name) _ e1 in
    (inr (Quotable-of_ok k (c ∷ s) eq), Quotable-of_ok k name en)

quote_all_ok : (k : Kind) (cs : List Text) → All (Quotable k) cs → Succeeds (quote_all k cs)
unfolding quote_all
quote_all_ok k [] h = ([], refl)
quote_all_ok k (c ∷ cs) (h, hs) =
    bind_ok (quote_ident k c) _ (quote_ident_ok k c h)
      λ q. bind_ok (quote_all k cs) _ (quote_all_ok k cs hs) λ qs. (_, refl)

Quotable-All_of_ok :
    (k : Kind) (cs : List Text) {qs : List Text} → quote_all k cs ≡ ok qs → All (Quotable k) cs
unfolding quote_all
Quotable-All_of_ok k [] e = tt
Quotable-All_of_ok k (c ∷ cs) e =
    let (q, eq, e1) = >>=-eq-ok (quote_ident k c) _ e in
    let (qs, es, _) = >>=-eq-ok (quote_all k cs) _ e1 in
    (Quotable-of_ok k c eq, Quotable-All_of_ok k cs es)

is_empty-false : {A : Type 0} (xs : List A) → xs ≢ [] → is_empty xs ≡ false
is_empty-false [] h = absurd (h refl)
is_empty-false (x ∷ xs) h = refl

ne_nil_of_is_empty : {A : Type 0} (xs : List A) → is_empty xs ≡ false → xs ≢ []
ne_nil_of_is_empty [] h = cc
ne_nil_of_is_empty (x ∷ xs) h = cons-ne-nil x xs

guarded_ok {ℓ} :
    {A : Type ℓ} (b : Bool) (e : Error) (m : Result Error A) {a : A}
    → (if b then err e else m) ≡ ok a
    → (b ≡ false) × (m ≡ ok a)
guarded_ok true e m h = cc
guarded_ok false e m h = (refl, h)

-- `buildCreateIndex` returns a statement exactly if there is a column and every name in the
-- definition can be quoted in the dialect; whatever the method, the flag and the schema's presence.
pub build_create_index_accepts :
    (k : Kind) (def : IndexDef)
    → Succeeds (build_create_index k def) ↔ (
        (def.columns ≢ [])
        × Quotable k def.name
        × QualifiedName k def.schema def.table
        × All (Quotable k) def.columns)
unfolding build_create_index
build_create_index_accepts k def = (
  λ h.
      let (some_column, e) = guarded_ok (is_empty def.columns) no_column _ h.1 in
      let (n, en, e1) = >>=-eq-ok (quote_ident k def.name) _ e in
      let (t, et, e2) = >>=-eq-ok (qualified k def.schema def.table) _ e1 in
      let (cs, ec, _) = >>=-eq-ok (quote_all k def.columns) _ e2 in
      (
        ne_nil_of_is_empty def.columns some_column,
        Quotable-of_ok k def.name en,
        QualifiedName-of_ok k def.schema def.table et,
        Quotable-All_of_ok k def.columns ec,
      ),
  λ h. unless_ok (is_empty def.columns) no_column _ (is_empty-false def.columns h.0) (
      bind_ok (quote_ident k def.name) _ (quote_ident_ok k def.name h.1) λ n.
        bind_ok (qualified k def.schema def.table) _ (qualified_ok k def.schema def.table h.2) λ t.
          bind_ok (quote_all k def.columns) _ (quote_all_ok k def.columns h.3) λ cs. (_, refl)),
)

-- A column with a name that can be quoted and a type that is not blank.
abbrev pub IsColumn : Kind → ColumnDef → Type 0
IsColumn k c = Quotable k c.name × (trim_space c.data_type ≢ [])

clauses_ok : (k : Kind) (cs : List ColumnDef) → All (IsColumn k) cs → Succeeds (clauses k cs)
unfolding clauses
clauses_ok k [] h = (_, refl)
clauses_ok k (c ∷ cs) ((h, ty), hs) =
    bind_ok (clause k c) _
      (bind_ok (quote_ident k c.name) _ (quote_ident_ok k c.name h) λ q.
        unless_ok (is_empty (trim_space c.data_type)) _ _
          (is_empty-false (trim_space c.data_type) ty) (_, refl))
      λ r. bind_ok (clauses k cs) _ (clauses_ok k cs hs) λ rs. (_, refl)

IsColumn-of_ok :
    (k : Kind) (cs : List ColumnDef) {rs : List Text × List Text}
    → clauses k cs ≡ ok rs
    → All (IsColumn k) cs
unfolding clauses
IsColumn-of_ok k [] e = tt
IsColumn-of_ok k (c ∷ cs) e =
    let (r, er, e1) = >>=-eq-ok (clause k c) _ e in
    let (rs, es, _) = >>=-eq-ok (clauses k cs) _ e1 in
    let (q, eq, e2) = >>=-eq-ok (quote_ident k c.name) _ er in
    let (typed, _) = guarded_ok (is_empty (trim_space c.data_type)) (missing_type c.name) _ e2 in
    (
      (Quotable-of_ok k c.name eq, ne_nil_of_is_empty (trim_space c.data_type) typed),
      IsColumn-of_ok k cs es,
    )

-- `buildCreateTable` returns a statement exactly if there is a column, the table's name and every
-- column's name can be quoted, and every column has a type.
pub build_create_table_accepts :
    (k : Kind) (def : CreateTableDef)
    → Succeeds (build_create_table k def)
      ↔ ((def.columns ≢ []) × QualifiedName k def.schema def.name × All (IsColumn k) def.columns)
build_create_table_accepts k def = rw (build_create_table-create_table k def) (
  λ h.
      let (some_column, e) = guarded_ok (is_empty def.columns) no_column _ h.1 in
      let (t, et, e1) = >>=-eq-ok (qualified k def.schema def.name) _ e in
      let (rs, es, _) = >>=-eq-ok (clauses k def.columns) _ e1 in
      (
        ne_nil_of_is_empty def.columns some_column,
        QualifiedName-of_ok k def.schema def.name et,
        IsColumn-of_ok k def.columns es,
      ),
  λ h. unless_ok (is_empty def.columns) no_column _ (is_empty-false def.columns h.0) (
      bind_ok (qualified k def.schema def.name) _ (qualified_ok k def.schema def.name h.1)
        λ t. bind_ok (clauses k def.columns) _ (clauses_ok k def.columns h.2) λ rs. (_, refl)),
)
