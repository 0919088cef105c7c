-- ===== src/Dbx/Driver/Tests.antt =====
-- The theorems on the shared types, at concrete inputs.
use debeasy.Base.{List, [], ◌∷◌}
use debeasy.Base.Text.{codes}
use debeasy.Dbx.Driver.{Schema}

abbrev two_schemas : List Schema
two_schemas = record { name = codes "audit" } ∷ record { name = codes "public" } ∷ []
