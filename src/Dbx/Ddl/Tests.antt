-- ===== src/Dbx/Ddl/Tests.antt =====
-- The theorems on generated statements, at concrete inputs.
use debeasy.Base.{true, false, [], ◌∷◌}
use debeasy.Base.Text.{codes}
use debeasy.Dbx.Driver.{CreateTableDef, IndexDef}

abbrev users : CreateTableDef
users = record {
  schema = [];
  name = codes "users";
  columns =
      record {
        name = codes "id";
        data_type = codes " INTEGER ";
        nullable = false;
        default = [];
        is_pk = true;
      }
      ∷ record {
        name = codes "name";
        data_type = codes "TEXT";
        nullable = true;
        default = codes "'x'";
        is_pk = false;
      }
      ∷ [];
  if_not_exists = true;
}

abbrev by_name : IndexDef
by_name = record {
  name = codes "by_name";
  schema = codes "public";
  table = codes "users";
  columns = codes "name" ∷ [];
  unique = true;
  method = codes "btree";
}
