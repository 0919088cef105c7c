-- ===== src/Dbx/Catalogue/Tests.antt =====
-- The catalogue, at concrete rows.
use debeasy.Base.{◌≡◌, refl, List, [], ◌∷◌, none, some, ok, err}
use debeasy.Base.Text.{Text, codes, ◌≗◌}
use debeasy.Base.Int.{ℤ, pos}
use debeasy.Dbx.Driver.{Object, ObjectTree}
use debeasy.Dbx.Catalogue.{collect, place_all, object_of, empty_tree}
use debeasy.Dbx.Catalogue.Postgres as PostgresCatalogue
use debeasy.Dbx.Catalogue.Mysql as MysqlCatalogue
use debeasy.Dbx.Catalogue.Sqlite.{ForeignKeyRow, group_keys}
use debeasy.Dbx.Catalogue.Keys.{key_at, described_key, group_keys-described_key}

abbrev relation : Text → Text → Object
relation name kind = object_of (codes "s") (name, kind, [])

abbrev relations : List Object
relations =
    relation (codes "m") (codes "matview")
    ∷ relation (codes "t") (codes "table")
    ∷ relation (codes "q") (codes "sequence")
    ∷ relation (codes "v") (codes "view")
    ∷ relation (codes "i") (codes "index")
    ∷ []

abbrev postgres_tree : ObjectTree
postgres_tree = record {
  tables = relation (codes "t") (codes "table") ∷ [];
  views = relation (codes "m") (codes "matview") ∷ relation (codes "v") (codes "view") ∷ [];
  indexes = relation (codes "i") (codes "index") ∷ [];
  other = relation (codes "q") (codes "sequence") ∷ [];
}

postgres_listing : place_all PostgresCatalogue.switch empty_tree relations ≡ postgres_tree
unfolding place_all PostgresCatalogue.switch ◌≗◌
postgres_listing = refl

mysql_views :
    (place_all MysqlCatalogue.switch empty_tree relations).views
    ≡ relation (codes "v") (codes "view") ∷ []
unfolding place_all MysqlCatalogue.switch ◌≗◌
mysql_views = refl

-- A scan that fails in the middle leaves no rows.
collect_failed :
    collect {A = Text} [] (ok [] ∷ err (codes "bad") ∷ ok [] ∷ []) none ≡ ([], some (codes "bad"))
unfolding collect
collect_failed = refl

abbrev key_column : ℤ → Text → Text → ForeignKeyRow
key_column id from to = record {
  id = id;
  ref_table = codes "p";
  from = from;
  to = to;
  on_update = [];
  on_delete = [];
}

-- Two keys with their rows mixed, the first of two columns.
abbrev key_rows : List ForeignKeyRow
key_rows =
    key_column (pos 1) (codes "a") (codes "x")
    ∷ key_column (pos 0) (codes "c") (codes "z")
    ∷ key_column (pos 1) (codes "b") (codes "y")
    ∷ []

group_keys-described_key_example :
    key_at (pos 1) (group_keys [] key_rows)
    ≡ described_key (
        key_column (pos 1) (codes "a") (codes "x")
        ∷ key_column (pos 1) (codes "b") (codes "y")
        ∷ [])
group_keys-described_key_example = group_keys-described_key (pos 1) key_rows
