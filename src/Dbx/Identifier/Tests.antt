-- ===== src/Dbx/Identifier/Tests.antt =====
-- The theorems on quoting, at concrete inputs.
use debeasy.Base.{◌≡◌, refl, ◌++◌, some, arith}
use debeasy.Base.Text.{codes}
use debeasy.Dbx.Driver.{postgres}
use debeasy.Dbx.Identifier.{quote_ident, quote_literal}
use debeasy.Dbx.Identifier.Quoting.{read_quoted, read_quoted-quote_ident, read_quoted-quote_literal}

read_quoted-quote_ident_example :
    read_quoted b'"' (codes "\"users; --\"" ++ codes " WHERE")
    ≡ some (codes "users; --", codes " WHERE")
unfolding quote_ident
read_quoted-quote_ident_example =
    read_quoted-quote_ident postgres (codes "users; --") (codes "\"users; --\"") (codes " WHERE")
      refl (omega arith)

read_quoted-quote_literal_example :
    read_quoted b'\'' (quote_literal (codes "it's") ++ codes ";") ≡ some (codes "it's", codes ";")
read_quoted-quote_literal_example =
    read_quoted-quote_literal (codes "it's") (codes ";") (omega arith)
