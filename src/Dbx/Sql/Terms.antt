-- ===== src/Dbx/Sql/Terms.antt =====
-- What a reader of placeholders makes of the clauses that the drivers write: tables, and lists of
-- SET columns or key columns.
use debeasy.Base.{
  ℕ, suc, ◌+◌, ◌≡◌, refl, ap, ◌∙◌, List, [], ◌∷◌, ◌++◌, ok, arith, append_assoc, >>=-eq-ok, length,
}
use debeasy.Base.Text.{Text, codes, join}
use debeasy.Base.Decimal.{decimal}
use debeasy.Dbx.Driver.{Kind, postgres, mysql, sqlite}
use debeasy.Dbx.Identifier.{quote_ident, qualified}
use debeasy.Dbx.Identifier.Quoting.{quote_char}
use debeasy.Dbx.Sql.{Values, terms, numbered_terms, values_of}
use debeasy.Dbx.Sql.Placeholders.{
  Binding, plain, bindings_from, EndsNumber, read_name, read_placeholder, read_mark,
}

-- The columns in order, each with the number of its argument.
abbrev pub numbered : Values → ℕ → List Binding
numbered [] i = []
numbered ((k, v) ∷ values) i = (k, i) ∷ numbered values (suc i)

abbrev pub last_name : Text → Values → Text
last_name name [] = name
last_name name ((k, v) ∷ values) = last_name k values

-- A separator that the reader passes over, and that ends a number.
abbrev pub Passes : Kind → Text → Type 0
Passes k sep =
    (name : Text) (next : ℕ) (rest : Text)
    → EndsNumber (sep ++ rest)
      × (bindings_from (quote_char k) (plain name) next (sep ++ rest)
          ≡ bindings_from (quote_char k) (plain name) next rest)

pub comma_Passes : (k : Kind) → Passes k (codes ", ")
unfolding bindings_from
comma_Passes postgres name next rest = (refl, refl)
comma_Passes mysql name next rest = (refl, refl)
comma_Passes sqlite name next rest = (refl, refl)

pub and_Passes : (k : Kind) → Passes k (codes " AND ")
unfolding bindings_from
and_Passes postgres name next rest = (refl, refl)
and_Passes mysql name next rest = (refl, refl)
and_Passes sqlite name next rest = (refl, refl)

pub delete_Passes : (k : Kind) → Passes k (codes "DELETE FROM ")
unfolding bindings_from
delete_Passes postgres name next rest = (refl, refl)
delete_Passes mysql name next rest = (refl, refl)
delete_Passes sqlite name next rest = (refl, refl)

pub update_Passes : (k : Kind) → Passes k (codes "UPDATE ")
unfolding bindings_from
update_Passes postgres name next rest = (refl, refl)
update_Passes mysql name next rest = (refl, refl)
update_Passes sqlite name next rest = (refl, refl)

pub set_Passes : (k : Kind) → Passes k (codes " SET ")
unfolding bindings_from
set_Passes postgres name next rest = (refl, refl)
set_Passes mysql name next rest = (refl, refl)
set_Passes sqlite name next rest = (refl, refl)

pub key_Passes : (k : Kind) → Passes k (codes " WHERE ")
unfolding bindings_from
key_Passes postgres name next rest = (refl, refl)
key_Passes mysql name next rest = (refl, refl)
key_Passes sqlite name next rest = (refl, refl)

-- A table name, with its schema if there is one.
pub read_table :
    (k : Kind) (next : ℕ) (last schema name tbl rest : Text)
    → qualified k schema name ≡ ok tbl
    → bindings_from (quote_char k) (plain last) next (tbl ++ rest)
      ≡ bindings_from (quote_char k) (plain name) next rest
unfolding qualified
read_table k next last [] name tbl rest h = read_name k next last name tbl rest h
read_table k next last (c ∷ schema) name tbl rest h =
    let (s, es, e1) = >>=-eq-ok (quote_ident k (c ∷ schema)) _ h in
    let (n, en, e2) = >>=-eq-ok (quote_ident k name) _ e1 in
    let shape : tbl ≡ s ++ b'.' ∷ n = cc in
    rw (shape, append_assoc)
      (read_name k next last (c ∷ schema) s (b'.' ∷ n ++ rest) es
        ∙ (dot k (n ++ rest) ∙ read_name k next (c ∷ schema) name n rest en))
  where
    dot :
        (k : Kind) (s : Text)
        → bindings_from (quote_char k) (plain (c ∷ schema)) next (b'.' ∷ s)
          ≡ bindings_from (quote_char k) (plain (c ∷ schema)) next s
    dot postgres s = unfold bindings_from in refl
    dot mysql s = unfold bindings_from in refl
    dot sqlite s = unfold bindings_from in refl

-- A term that the reader takes for one binding of a column.
abbrev Reads : Kind → Text → Text → ℕ → ℕ → ℕ → Type 0
Reads k term name i next next' =
    (last rest : Text)
    → EndsNumber rest
    → bindings_from (quote_char k) (plain last) next (term ++ rest)
      ≡ (name, i) ∷ bindings_from (quote_char k) (plain name) next' rest

module _ (k : Kind) (step : ℕ → ℕ) where
  -- Every term binds its column to the next number.
  abbrev pub AllRead : List Text → Values → ℕ → ℕ → Type 0
  AllRead [] [] i next = Unit
  AllRead [] (kv ∷ values) i next = ⊥
  AllRead (term ∷ cols) [] i next = ⊥
  AllRead (term ∷ cols) ((name, v) ∷ values) i next =
      Reads k term name i next (step next) × AllRead cols values (suc i) (step next)

  abbrev pub after : Values → ℕ → ℕ
  after [] next = next
  after (kv ∷ values) next = after values (step next)

  pub read_join :
      (sep : Text) (cols : List Text) (values : Values) (i next : ℕ) (last rest : Text)
      → Passes k sep
      → AllRead cols values i next
      → EndsNumber rest
      → bindings_from (quote_char k) (plain last) next (join cols sep ++ rest)
        ≡ numbered values i
          ++ bindings_from (quote_char k) (plain (last_name last values)) (after values next) rest
  unfolding join
  read_join sep [] [] i next last rest p a e = refl
  read_join sep [] (kv ∷ values) i next last rest p a e = absurd a
  read_join sep (term ∷ cols) [] i next last rest p a e = absurd a
  read_join sep (term ∷ []) ((name, v) ∷ []) i next last rest p (r, _) e = r last rest e
  read_join sep (term ∷ []) ((name, v) ∷ kv ∷ values) i next last rest p (_, a) e = absurd a
  read_join sep (term ∷ c ∷ cols) ((name, v) ∷ []) i next last rest p (_, a) e = absurd a
  read_join sep (term ∷ c ∷ cols) ((name, v) ∷ kv ∷ values) i next last rest p (r, a) e =
      let tail = join (c ∷ cols) sep ++ rest in
      let (ends, passes) = p name (step next) tail in
      let ih = read_join sep (c ∷ cols) (kv ∷ values) (suc i) (step next) name rest p a e in
      rw (append_assoc, append_assoc)
        (r last (sep ++ tail) ends ∙ ap (λ (bs : List Binding). (name, i) ∷ bs) (passes ∙ ih))

numbered_terms_cons :
    (name v : Text) (values : Values) (i : ℕ) (cols : List Text)
    → numbered_terms ((name, v) ∷ values) i ≡ ok cols
    → (col : Text) × (more : List Text) × (quote_ident postgres name ≡ ok col)
      × (numbered_terms values (suc i) ≡ ok more)
      × (cols ≡ (col ++ codes "=$" ++ decimal i) ∷ more)
unfolding numbered_terms
numbered_terms_cons name v values i cols h =
    let (col, ec, e1) = >>=-eq-ok (quote_ident postgres name) _ h in
    let (more, em, e2) = >>=-eq-ok (numbered_terms values (suc i)) _ e1 in (col, more, ec, em, cc)

pub numbered_terms-AllRead :
    (values : Values) (i next : ℕ) (cols : List Text)
    → numbered_terms values i ≡ ok cols
    → AllRead postgres (λ n. n) cols values i next
numbered_terms-AllRead [] i next [] h = tt
numbered_terms-AllRead [] i next (c ∷ cols) h = unfold numbered_terms in cc
numbered_terms-AllRead ((name, v) ∷ values) i next [] h =
    let (col, more, _, _, shape) = numbered_terms_cons name v values i [] h in cc
numbered_terms-AllRead ((name, v) ∷ values) i next (c ∷ cols) h =
    let (col, more, ec, em, shape) = numbered_terms_cons name v values i (c ∷ cols) h in
    let head : c ≡ col ++ codes "=$" ++ decimal i = cc in
    let tail : more ≡ cols = cc in
    (
      λ last rest e.
          rw (head, append_assoc, append_assoc)
            (read_name postgres next last name col (codes "=$" ++ decimal i ++ rest) ec
              ∙ read_placeholder next i name rest e),
      numbered_terms-AllRead values (suc i) next cols (em ∙ ap ok tail),
    )

terms_cons :
    (k : Kind) (name v : Text) (values : Values) (cols : List Text)
    → terms k ((name, v) ∷ values) ≡ ok cols
    → (col : Text) × (more : List Text) × (quote_ident k name ≡ ok col)
      × (terms k values ≡ ok more)
      × (cols ≡ (col ++ codes "=?") ∷ more)
unfolding terms
terms_cons k name v values cols h =
    let (col, ec, e1) = >>=-eq-ok (quote_ident k name) _ h in
    let (more, em, e2) = >>=-eq-ok (terms k values) _ e1 in (col, more, ec, em, cc)

pub terms-AllRead :
    (k : Kind) (values : Values) (i : ℕ) (cols : List Text)
    → terms k values ≡ ok cols
    → AllRead k suc cols values i i
terms-AllRead k [] i [] h = tt
terms-AllRead k [] i (c ∷ cols) h = unfold terms in cc
terms-AllRead k ((name, v) ∷ values) i [] h =
    let (col, more, _, _, shape) = terms_cons k name v values [] h in cc
terms-AllRead k ((name, v) ∷ values) i (c ∷ cols) h =
    let (col, more, ec, em, shape) = terms_cons k name v values (c ∷ cols) h in
    let head : c ≡ col ++ codes "=?" = cc in
    let tail : more ≡ cols = cc in
    (
      λ last rest e.
          rw (head, append_assoc)
            (read_name k i last name col (codes "=?" ++ rest) ec ∙ read_mark k i name rest),
      terms-AllRead k values (suc i) cols (em ∙ ap ok tail),
    )

pub numbered-append :
    (values pk : Values) (i : ℕ)
    → numbered (values ++ pk) i ≡ numbered values i ++ numbered pk (i + length values)
numbered-append [] pk i = ap (numbered pk) (omega arith)
numbered-append ((name, v) ∷ values) pk i =
    let shift : suc i + length values ≡ i + suc (length values) = omega arith in
    ap (λ (bs : List Binding). (name, i) ∷ bs)
      (numbered-append values pk (suc i)
        ∙ ap (λ (n : ℕ). numbered values (suc i) ++ numbered pk n) shift)

-- Numbers of arguments that are counted by the marks read.
pub after-suc :
    (k : Kind) (values : Values) (next : ℕ) → after k suc values next ≡ next + length values
after-suc k [] next = omega arith
after-suc k (kv ∷ values) next = omega (arith, after-suc k values (suc next))

pub after_same : (k : Kind) (values : Values) (next : ℕ) → after k (λ n. n) values next ≡ next
after_same k [] next = refl
after_same k (kv ∷ values) next = after_same k values next

pub values_of-append :
    (values pk : Values) → values_of (values ++ pk) ≡ values_of values ++ values_of pk
values_of-append [] pk = refl
values_of-append ((name, v) ∷ values) pk =
    ap (λ (vs : List Text). v ∷ vs) (values_of-append values pk)
