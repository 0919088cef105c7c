-- ===== src/Dbx/Messages.antt =====
-- The texts of the errors of internal/dbx, as `err.Error()` gives them.
use debeasy.Base.{ℕ, ◌+◌, ◌-◌, ◌/◌, ◌%◌, ◌||◌, [], ◌∷◌, ◌++◌, if◌then◌else◌, ltb, ◌==◌}
use debeasy.Base.Text.{Text, codes}
use debeasy.Dbx.Driver.{
  Error, unknown_kind, empty_identifier, backtick_in_identifier, quote_in_identifier, no_column,
  missing_type, no_statement, no_primary_key, file_path_required, database_is_file, ping_failed,
  backend,
}

abbrev hex_digit : ℕ → ℕ
hex_digit n = if ltb n 10 then b'0' + n else b'a' + n - 10

-- One code point as the verb %q writes it; code points above ASCII are taken for printable.
quoted_code : ℕ → Text
quoted_code c =
    if c == b'"' || c == b'\\'
    then b'\\' ∷ c ∷ []
    else if c == 7
    then codes "\\a"
    else if c == 8
    then codes "\\b"
    else if c == 9
    then codes "\\t"
    else if c == 10
    then codes "\\n"
    else if c == 11
    then codes "\\v"
    else if c == 12
    then codes "\\f"
    else if c == 13
    then codes "\\r"
    else if ltb c 32 || c == 127
    then b'\\' ∷ b'x' ∷ hex_digit (c / 16) ∷ hex_digit (c % 16) ∷ []
    else c ∷ []

quoted_body : Text → Text
quoted_body [] = b'"' ∷ []
quoted_body (c ∷ s) = quoted_code c ++ quoted_body s

-- `%q`
abbrev go_quoted : Text → Text
go_quoted s = b'"' ∷ quoted_body s

unfoldable pub error_text : Error → Text
unfolding quoted_code quoted_body
error_text (unknown_kind s) = codes "unknown driver kind " ++ go_quoted s
error_text empty_identifier = codes "empty identifier"
error_text (backtick_in_identifier s) = codes "identifier may not contain backtick: " ++ go_quoted s
error_text (quote_in_identifier s) =
    codes "identifier may not contain double-quote: " ++ go_quoted s
error_text no_column = codes "at least one column required"
error_text (missing_type s) = codes "column " ++ go_quoted s ++ codes " missing data type"
error_text no_statement = codes "no statement to execute"
error_text no_primary_key = codes "table has no primary key — row edit unsupported"
error_text file_path_required = codes "sqlite: database (file path) is required"
error_text database_is_file =
    codes "sqlite: a database is a file — create the connection with the desired file path instead"
error_text (ping_failed name e) = codes "ping " ++ name ++ codes ": " ++ error_text e
error_text (backend msg) = msg
