-- ===== src/Dbx/Identifier/Quoting.antt =====
-- Quoted names and literals, read by the rule of the SQL lexer: text between two quote characters,
-- where a doubled quote character stands for one.
use debeasy.Base.{
  ℕ, ◌≡◌, refl, sym, ◌≢◌, ◌↔◌, false, [], ◌∷◌, ◌++◌, ◌∙◌, Option, none, some, ok, err, >>=-eq-ok,
  if◌then◌else◌, ◌==◌, arith, All, Bool-cases, inl, inr, append_assoc,
}
use mathlib.Core.Option
use mathlib.Core.Bool.{true≢false}
use mathlib.Core.List.{cons-ne-nil}
use debeasy.Base.Text.{Text, contains_rune}
use debeasy.Dbx.Driver.{
  Kind, postgres, mysql, sqlite, Error, backtick_in_identifier, quote_in_identifier,
}
use debeasy.Dbx.Identifier.{quote_ident, qualified, double_quotes, quote_literal}

abbrev pub quote_char : Kind → ℕ
quote_char mysql = b'`'
quote_char _ = b'"'

abbrev prepend : ℕ → Text × Text → Text × Text
prepend c (name, rest) = (c ∷ name, rest)

-- The text up to the closing quote, and what follows it.
pub read_body : ℕ → Text → Option (Text × Text)
read_body q [] = none
read_body q (c ∷ []) = if c == q then some ([], []) else none
read_body q (c ∷ d ∷ s) =
    let doubled = Option.map (prepend q) (read_body q s) in
    let plain = Option.map (prepend c) (read_body q (d ∷ s)) in
    if c == q then (if d == q then doubled else some ([], d ∷ s)) else plain

pub read_quoted : ℕ → Text → Option (Text × Text)
read_quoted q [] = none
read_quoted q (c ∷ s) = if c == q then read_body q s else none

-- The text does not go on with the quote character.
abbrev pub EndsQuote : ℕ → Text → Type 0
EndsQuote q [] = Unit
EndsQuote q (c ∷ s) = c ≢ q

abbrev pub Lacks : ℕ → Text → Type 0
Lacks q = All (λ c. c ≢ q)

read_body_end : (q : ℕ) (rest : Text) → EndsQuote q rest → read_body q (q ∷ rest) ≡ some ([], rest)
unfolding read_body
read_body_end q [] h = ground arith
read_body_end q (d ∷ s) h = ground arith

read_body_step :
    (q c : ℕ) (s : Text) {t : Text × Text}
    → c ≢ q
    → read_body q s ≡ some t
    → read_body q (c ∷ s) ≡ some (prepend c t)
unfolding read_body
read_body_step q c [] h e = cc
read_body_step q c (d ∷ s) h e = ground arith

read_body_doubled :
    (q : ℕ) (s : Text) {t : Text × Text}
    → read_body q s ≡ some t
    → read_body q (q ∷ q ∷ s) ≡ some (prepend q t)
unfolding read_body
read_body_doubled q s e = ground arith

read_body-append :
    (q : ℕ) (name rest : Text)
    → Lacks q name
    → EndsQuote q rest
    → read_body q (name ++ q ∷ rest) ≡ some (name, rest)
read_body-append q [] rest h k = read_body_end q rest k
read_body-append q (c ∷ name) rest (h, hs) k =
    read_body_step q c (name ++ q ∷ rest) h (read_body-append q name rest hs k)

Lacks-of_contains_rune : (q : ℕ) (s : Text) → contains_rune s q ≡ false → Lacks q s
Lacks-of_contains_rune q [] h = tt
Lacks-of_contains_rune q (c ∷ s) h = ground (arith, Lacks-of_contains_rune q s)

contains_rune_of_Lacks : (q : ℕ) (s : Text) → Lacks q s → contains_rune s q ≡ false
contains_rune_of_Lacks q [] h = refl
contains_rune_of_Lacks q (c ∷ s) (h, hs) = ground (arith, contains_rune_of_Lacks q s hs)

-- The names that a dialect can quote.
abbrev pub Quotable : Kind → Text → Type 0
Quotable k name = (name ≢ []) × Lacks (quote_char k) name

unless_contains_iff :
    (b : ℕ) (name out q : Text) (e : Error)
    → ((if contains_rune name b then err e else ok out) ≡ ok q) ↔ (Lacks b name × (q ≡ out))
unless_contains_iff b name out q e = elim (Bool-cases (contains_rune name b)) [
  | inl has ↦
      rw has (λ eq. cc, λ h. absurd (true≢false (sym has ∙ contains_rune_of_Lacks b name h.0)))
  | inr lacks ↦ rw lacks (λ eq. (Lacks-of_contains_rune b name lacks, cc), λ h. cc (h.1))
]

-- What `quote_ident` does on every branch: it accepts exactly the names that are not empty and lack
-- the dialect's quote character, and puts them between two of these.
pub quote_ident_iff :
    (k : Kind) (name q : Text)
    → (quote_ident k name ≡ ok q)
      ↔ ((name ≢ []) × Lacks (quote_char k) name × (q ≡ quote_char k ∷ name ++ quote_char k ∷ []))
unfolding quote_ident
quote_ident_iff k [] q = (λ e. cc, λ h. absurd (h.0 refl))
quote_ident_iff mysql (c ∷ s) q =
    let w =
      unless_contains_iff b'`' (c ∷ s) (b'`' ∷ (c ∷ s) ++ b'`' ∷ []) q
        (backtick_in_identifier (c ∷ s)) in
    (λ e. (cons-ne-nil c s, (w.0 e).0, (w.0 e).1), λ h. w.1 (h.1, h.2))
quote_ident_iff postgres (c ∷ s) q =
    let w =
      unless_contains_iff b'"' (c ∷ s) (b'"' ∷ (c ∷ s) ++ b'"' ∷ []) q
        (quote_in_identifier (c ∷ s)) in
    (λ e. (cons-ne-nil c s, (w.0 e).0, (w.0 e).1), λ h. w.1 (h.1, h.2))
quote_ident_iff sqlite (c ∷ s) q =
    let w =
      unless_contains_iff b'"' (c ∷ s) (b'"' ∷ (c ∷ s) ++ b'"' ∷ []) q
        (quote_in_identifier (c ∷ s)) in
    (λ e. (cons-ne-nil c s, (w.0 e).0, (w.0 e).1), λ h. w.1 (h.1, h.2))

read_quoted_step : (q : ℕ) (s : Text) → read_quoted q (q ∷ s) ≡ read_body q s
unfolding read_quoted
read_quoted_step q s = ground arith

-- A quoted name cannot break out of its quotes: wherever it is placed in a statement, the SQL lexer
-- reads exactly the given name and goes on right behind it.
pub read_quoted-quote_ident :
    (k : Kind) (name q rest : Text)
    → quote_ident k name ≡ ok q
    → EndsQuote (quote_char k) rest
    → read_quoted (quote_char k) (q ++ rest) ≡ some (name, rest)
read_quoted-quote_ident k name q rest e h =
    let (_, lacks, shape) = (quote_ident_iff k name q).0 e in
    let b = quote_char k in
    rw (shape, append_assoc, read_quoted_step) (read_body-append b name rest lacks h)

read_body-double_quotes :
    (s rest : Text)
    → EndsQuote b'\'' rest
    → read_body b'\'' (double_quotes s ++ b'\'' ∷ rest) ≡ some (s, rest)
unfolding double_quotes
read_body-double_quotes [] rest h = read_body_end b'\'' rest h
read_body-double_quotes (c ∷ s) rest h =
    let quoted = double_quotes s ++ b'\'' ∷ rest in
    let ih = read_body-double_quotes s rest h in
    ground (
      arith,
      read_body_doubled b'\'' quoted ih,
      λ (n : c ≢ b'\''). read_body_step b'\'' c quoted n ih,
    )

-- Nor can a quoted literal: the lexer reads back the text that it was made of, quotes included.
pub read_quoted-quote_literal :
    (s rest : Text)
    → EndsQuote b'\'' rest
    → read_quoted b'\'' (quote_literal s ++ rest) ≡ some (s, rest)
unfolding quote_literal
read_quoted-quote_literal s rest h =
    rw (append_assoc, read_quoted_step) (read_body-double_quotes s rest h)

dot_EndsQuote : (k : Kind) (s : Text) → EndsQuote (quote_char k) (b'.' ∷ s)
dot_EndsQuote postgres s = omega arith
dot_EndsQuote mysql s = omega arith
dot_EndsQuote sqlite s = omega arith

-- A qualified name reads back as the schema, a dot and the name.
pub read_quoted-qualified :
    (k : Kind) (schema name q rest : Text)
    → qualified k schema name ≡ ok q
    → schema ≢ []
    → EndsQuote (quote_char k) rest
    → (n : Text) × (read_quoted (quote_char k) (q ++ rest) ≡ some (schema, b'.' ∷ n))
      × (read_quoted (quote_char k) n ≡ some (name, rest))
unfolding qualified
read_quoted-qualified k [] name q rest e ne h = absurd (ne refl)
read_quoted-qualified k (c ∷ schema) name q rest e ne h =
    let (s, es, e1) = >>=-eq-ok (quote_ident k (c ∷ schema)) _ e in
    let (n, en, e2) = >>=-eq-ok (quote_ident k name) _ e1 in
    let shape : q ≡ s ++ b'.' ∷ n = cc in
    (
      n ++ rest,
      rw (shape, append_assoc)
          (read_quoted-quote_ident k (c ∷ schema) s (b'.' ∷ n ++ rest) es
            (dot_EndsQuote k (n ++ rest))),
      read_quoted-quote_ident k name n rest en h,
    )
