-- ===== src/Dbx/Ddl/Render.antt =====
-- `buildCreateTable` of internal/dbx/ddl.go against the grammar of CREATE TABLE: one parenthesised
-- list of clauses with a comma between any two, the primary key last.
use debeasy.Base.{
  ◌≡◌, refl, sym, ap, ◌∙◌, Bool, true, false, not, ◌||◌, List, [], ◌∷◌, ◌++◌, append_assoc,
  append-nil, Result, ok, err, ◌>>=◌, Result-cases, Bool-cases, inl, inr, if◌then◌else◌, is_empty,
  arith,
}
use debeasy.Base.Text.{Text, codes, trim_space, join}
use debeasy.Dbx.Driver.{Kind, Error, missing_type, no_column, ColumnDef, CreateTableDef}
use debeasy.Dbx.Identifier.{quote_ident, qualified}
use debeasy.Dbx.Ddl.{when, column_line, primary_key_line, build_columns, build_create_table}

-- A column's clause, and its quoted name if it belongs to the primary key.
abbrev pub clause : Kind → ColumnDef → Result Error (Text × List Text)
clause k c = do
  col ← quote_ident k c.name
  let dt = trim_space c.data_type
  if is_empty dt
      then err (missing_type c.name)
      else ok (column_line col dt c.nullable c.default, if c.is_pk then col ∷ [] else [])

unfoldable pub clauses : Kind → List ColumnDef → Result Error (List Text × List Text)
clauses k [] = ok ([], [])
clauses k (c ∷ cs) = do r ← clause k c; rs ← clauses k cs; ok (r.0 ∷ rs.0, r.1 ++ rs.1)

abbrev pub key_clause : List Text → List Text
key_clause pks = if is_empty pks then [] else primary_key_line pks ∷ []

-- The statement, from the grammar.
abbrev pub create_table : Kind → CreateTableDef → Result Error Text
create_table k def = do
  tbl ← qualified k def.schema def.name
  rs ← clauses k def.columns
  ok (
      codes "CREATE TABLE "
      ++ when def.if_not_exists (codes "IF NOT EXISTS ")
      ++ tbl
      ++ codes " (\n"
      ++ (join (rs.0 ++ key_clause rs.1) (codes ",\n") ++ codes "\n)"))

-- What the loop writes for the columns; the flag says that a clause follows the last of them.
body : List Text → Bool → Text
body [] more = []
body (l ∷ []) more = l ++ when more (codes ",") ++ codes "\n"
body (l ∷ l' ∷ ls) more = l ++ codes "," ++ codes "\n" ++ body (l' ∷ ls) more

abbrev written : List Text → Text → List Text × List Text → List Text × Text
written pks b rs = (pks ++ rs.1, b ++ body rs.0 (not (is_empty (pks ++ rs.1))))

keys-append :
    (b : Bool) (col : Text) (pks ps : List Text)
    → (if b then pks ++ col ∷ [] else pks) ++ ps ≡ pks ++ ((if b then col ∷ [] else []) ++ ps)
keys-append true col pks ps = append_assoc pks (col ∷ []) ps
keys-append false col pks ps = refl

-- One round of the loop, from what the later rounds write; `e` says that no column is left.
written-cons :
    (e : Bool) (line b : Text) (pks pks' p : List Text) (rs : List Text × List Text)
    → is_empty rs.0 ≡ e
    → (e ≡ true → rs.1 ≡ [])
    → pks' ++ rs.1 ≡ pks ++ (p ++ rs.1)
    → written pks' (b ++ (line ++ when (not e || not (is_empty pks')) (codes ",")) ++ codes "\n") rs
      ≡ written pks b (line ∷ rs.0, p ++ rs.1)
unfolding body
written-cons true line b pks pks' p ([], ps) h k keys =
    let none_left : ps ≡ [] = k refl in
    let same : pks ++ (p ++ ps) ≡ pks' = sym keys ∙ (rw none_left (append-nil pks')) in
    rw (keys, same) (simp (append-nil, append_assoc))
written-cons true line b pks pks' p (l ∷ ls, ps) h k keys = cc
written-cons false line b pks pks' p ([], ps) h k keys = cc
written-cons false line b pks pks' p (l ∷ ls, ps) h k keys = rw keys (simp append_assoc)

clauses-is_empty :
    (k : Kind) (cs : List ColumnDef) {rs : List Text × List Text}
    → clauses k cs ≡ ok rs
    → (is_empty rs.0 ≡ is_empty cs) × (is_empty cs ≡ true → rs.1 ≡ [])
unfolding clauses
clauses-is_empty k [] h = (ground arith, λ _. ground arith)
clauses-is_empty k (c ∷ cs) {rs} h = (ground arith, λ e. cc)

build_columns-clauses :
    (k : Kind) (cs : List ColumnDef) (pks : List Text) (b : Text)
    → build_columns k cs pks b ≡ (clauses k cs >>= λ rs. ok (written pks b rs))
unfolding build_columns clauses body
build_columns-clauses k [] pks b = rw (append-nil, append-nil)
build_columns-clauses k (c ∷ cs) pks b = elim (Result-cases (quote_ident k c.name)) [
  | inr (e, h) ↦ rw h
  | inl (col, h) ↦ rw h (elim (Bool-cases (is_empty (trim_space c.data_type))) [
    | inl z ↦ rw z
    | inr z ↦ rw z (
        rw (build_columns-clauses k cs) (elim (Result-cases (clauses k cs)) [
          | inr (e, g) ↦ rw g
          | inl (rs, g) ↦
              let (same, no_key) = clauses-is_empty k cs g in
              rw g (
                ap ok (
                  written-cons (is_empty cs) _ b pks _ _ rs same no_key
                    (keys-append c.is_pk col pks rs.1)))
        ]))
  ])
]

body-join :
    (l : Text) (ls pks : List Text)
    → body (l ∷ ls) (not (is_empty pks))
        ++ (when (not (is_empty pks)) (primary_key_line pks ++ codes "\n") ++ codes ")")
      ≡ join (l ∷ ls ++ key_clause pks) (codes ",\n") ++ codes "\n)"
unfolding body join
body-join l [] [] = simp (append-nil, append_assoc)
body-join l [] (p ∷ ps) = simp append_assoc
body-join l (l' ∷ ls) pks = simp (append_assoc, body-join l' ls pks)

join-written :
    (b : Text) (rs : List Text × List Text)
    → is_empty rs.0 ≡ false
    → (written [] b rs).1
        ++ when (not (is_empty rs.1)) (primary_key_line rs.1 ++ codes "\n")
        ++ codes ")"
      ≡ b ++ (join (rs.0 ++ key_clause rs.1) (codes ",\n") ++ codes "\n)")
join-written b ([], pks) h = cc
join-written b (l ∷ ls, pks) h = simp (append_assoc, body-join l ls pks)

-- The head of the statement, and the rest for any columns.
abbrev head : CreateTableDef → Text → Text
head def tbl =
    codes "CREATE TABLE " ++ when def.if_not_exists (codes "IF NOT EXISTS ") ++ tbl ++ codes " (\n"

assembled :
    (k : Kind) (b : Text) (c : ColumnDef) (cs : List ColumnDef)
    → (build_columns k (c ∷ cs) [] b >>= λ r.
        ok (r.1 ++ when (not (is_empty r.0)) (primary_key_line r.0 ++ codes "\n") ++ codes ")"))
      ≡ (clauses k (c ∷ cs) >>= λ rs.
          ok (b ++ (join (rs.0 ++ key_clause rs.1) (codes ",\n") ++ codes "\n)")))
assembled k b c cs =
    rw (build_columns-clauses k (c ∷ cs) [] b) (elim (Result-cases (clauses k (c ∷ cs))) [
      | inr (e, g) ↦ rw g
      | inl (rs, g) ↦ rw g (ap ok (join-written b rs (clauses-is_empty k (c ∷ cs) g).0))
    ])

module _ (k : Kind) (def : CreateTableDef) where
  -- `buildCreateTable` with its columns apart.
  build_from : List ColumnDef → Result Error Text
  build_from cols = if is_empty cols then err no_column else do
    tbl ← qualified k def.schema def.name
    (pks, body) ← build_columns k cols [] (head def tbl)
    ok (body ++ when (not (is_empty pks)) (primary_key_line pks ++ codes "\n") ++ codes ")")

  build_from-clauses :
      (cols : List ColumnDef)
      → build_from cols ≡ (
          if is_empty cols
          then err no_column
          else (qualified k def.schema def.name >>= λ tbl. clauses k cols >>= λ rs.
              ok (head def tbl ++ (join (rs.0 ++ key_clause rs.1) (codes ",\n") ++ codes "\n)"))))
  unfolding build_from
  build_from-clauses [] = refl
  build_from-clauses (c ∷ cs) = elim (Result-cases (qualified k def.schema def.name)) [
    | inr (e, h) ↦ rw h
    | inl (tbl, h) ↦ rw h (assembled k (head def tbl) c cs)
  ]

pub build_create_table-create_table :
    (k : Kind) (def : CreateTableDef)
    → build_create_table k def
      ≡ (if is_empty def.columns then err no_column else create_table k def)
unfolding build_create_table build_from
build_create_table-create_table k def = build_from-clauses k def def.columns
