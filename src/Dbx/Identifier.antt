-- ===== src/Dbx/Identifier.antt =====
-- internal/dbx/identifier.go: quoting of identifiers and literals. A panic is the error of
-- `must_quote_ident`.
pub mod Quoting
mod Tests
use debeasy.Base.{
  ℕ, Bool, true, false, List, [], ◌∷◌, ◌++◌, Result, ok, err, ◌>>=◌, map_err, if◌then◌else◌, ◌==◌,
  is_empty,
}
use debeasy.Base.Text.{Text, codes, contains_rune}
use debeasy.Dbx.Driver.{
  Kind, postgres, mysql, sqlite, Error, empty_identifier, backtick_in_identifier,
  quote_in_identifier,
}

unfoldable pub quote_ident : Kind → Text → Result Error Text
quote_ident k [] = err empty_identifier
quote_ident mysql (c ∷ s) =
    if contains_rune (c ∷ s) b'`'
    then err (backtick_in_identifier (c ∷ s))
    else ok (b'`' ∷ (c ∷ s) ++ b'`' ∷ [])
quote_ident k (c ∷ s) =
    if contains_rune (c ∷ s) b'"'
    then err (quote_in_identifier (c ∷ s))
    else ok (b'"' ∷ (c ∷ s) ++ b'"' ∷ [])

pub record Panic : Type 0 where
  pub value : Error

unfoldable pub must_quote_ident : Kind → Text → Result Panic Text
must_quote_ident k name = map_err (λ e. record { value = e }) (quote_ident k name)

unfoldable pub qualified : Kind → Text → Text → Result Error Text
qualified k [] name = quote_ident k name
qualified k (c ∷ schema) name = do
  s ← quote_ident k (c ∷ schema)
  n ← quote_ident k name
  ok (s ++ b'.' ∷ n)

-- `strings.ReplaceAll(s, "'", "''")`
double_quotes : Text → Text
double_quotes [] = []
double_quotes (c ∷ s) =
    let rest = double_quotes s in if c == b'\'' then b'\'' ∷ b'\'' ∷ rest else c ∷ rest

unfoldable pub quote_literal : Text → Text
unfolding double_quotes
quote_literal s = b'\'' ∷ double_quotes s ++ b'\'' ∷ []
