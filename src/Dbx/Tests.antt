-- ===== src/Dbx/Tests.antt =====
-- The theorems on the drivers' statements and on the pool, at concrete inputs.
use debeasy.Base.{true, ℕ, ◌≡◌, ◌≢◌, refl, List, [], ◌∷◌, ◌++◌, none, some, ok, err, find}
use debeasy.Base.Text.{codes, join}
use debeasy.Base.Decimal.{decimal}
use debeasy.Dbx.Driver.{ObjectRef}
use debeasy.Dbx.Identifier.{quote_ident, qualified}
use debeasy.Dbx.Sql.{Values, Statement, terms, numbered_terms}
use debeasy.Dbx.Postgres
use debeasy.Dbx.Postgres.Laws as PostgresLaws
use debeasy.Dbx.Mysql
use debeasy.Dbx.Mysql.Laws as MysqlLaws
use debeasy.Dbx.Pool.{Pool, entries_of, with_conn, remove, nil_map, get_pooled, commit, evict, stop}
use debeasy.Dbx.Pool.Invariant.{Event, IsValid, run, hit, dialled, committed, stopped}
use debeasy.Dbx.Pool.Interleaving.{start, run-IsValid}
use debeasy.Dbx.Pool.Sharing.{commit-commit, get_pooled-evict, commit-stop, is_open}

abbrev users : ObjectRef
users = record { db = []; schema = codes "s"; name = codes "users" }

abbrev key : Values
key = (codes "id", codes "7") ∷ []

abbrev changes : Values
changes = (codes "a?", codes "x") ∷ (codes "b", codes "y") ∷ []

abbrev postgres_update : Statement
postgres_update = record {
  text = codes "UPDATE \"s\".\"users\" SET \"a?\"=$1, \"b\"=$2 WHERE \"id\"=$3";
  args = codes "x" ∷ codes "y" ∷ codes "7" ∷ [];
}

abbrev postgres_delete : Statement
postgres_delete = record {
  text = codes "DELETE FROM \"s\".\"users\" WHERE \"id\"=$1";
  args = codes "7" ∷ [];
}

update_postgres_Binds_example : (key ≢ []) × PostgresLaws.Binds postgres_update (changes ++ key)
unfolding Postgres.update_statement numbered_terms quote_ident qualified join decimal
update_postgres_Binds_example =
    PostgresLaws.update_postgres_Binds users key changes postgres_update refl

abbrev mysql_update : Statement
mysql_update = record {
  text = codes "UPDATE `s`.`users` SET `a?`=?, `b`=? WHERE `id`=?";
  args = codes "x" ∷ codes "y" ∷ codes "7" ∷ [];
}

abbrev mysql_delete : Statement
mysql_delete = record { text = codes "DELETE FROM `s`.`users` WHERE `id`=?"; args = codes "7" ∷ [] }

update_mysql_Binds_example : (key ≢ []) × MysqlLaws.Binds mysql_update (changes ++ key)
unfolding Mysql.update_statement terms quote_ident qualified join
update_mysql_Binds_example = MysqlLaws.update_mysql_Binds users key changes mysql_update refl

abbrev sqlite_update : Statement
sqlite_update = record {
  text = codes "UPDATE \"users\" SET \"a?\"=?, \"b\"=? WHERE \"id\"=?";
  args = codes "x" ∷ codes "y" ∷ codes "7" ∷ [];
}

abbrev sqlite_delete : Statement
sqlite_delete = record {
  text = codes "DELETE FROM \"users\" WHERE \"id\"=?";
  args = codes "7" ∷ [];
}

-- Two calls of `Get` for connection 5 race, and the pool is stopped while a third is under way.
abbrev race : List Event
race =
    dialled
    ∷ dialled
    ∷ committed 5 1 100
    ∷ committed 5 0 101
    ∷ hit 5 102
    ∷ dialled
    ∷ stopped
    ∷ committed 5 2 103
    ∷ []

run-IsValid_example : IsValid (run start race)
run-IsValid_example = run-IsValid race

-- A pool whose connection 5 has the driver 1, with the driver 0 open as well.
abbrev pool_at : ℕ → Pool
pool_at now = record {
  drivers = some (record { driver = 1; conn_id = 5; last_used = now } ∷ []);
  idle_ttl = 300;
  max_open = 10;
  opened = 1 ∷ 0 ∷ [];
  next_driver = 2;
}

abbrev before : Pool
before = record (pool_at 0) { drivers = some [] }

commit-commit_example :
    ((commit (pool_at 100) 5 0 101).0 ≡ ok 1)
    × ((commit (pool_at 100) 5 0 101).1.opened ≡ remove 0 (1 ∷ 0 ∷ []))
unfolding commit
commit-commit_example = commit-commit before (pool_at 100) 5 1 0 100 101 1 refl

get_pooled-evict_example :
    ((get_pooled (evict (pool_at 100) 5) 5 200).0 ≡ none)
    × ((other : ℕ)
        → other ≢ 5
        → find (with_conn other) (entries_of (evict (pool_at 100) 5).drivers)
          ≡ find (with_conn other) (entries_of (pool_at 100).drivers))
get_pooled-evict_example = get_pooled-evict (pool_at 100) 5 200

-- Driver 0 is that of a `Get` under way.
commit-stop_example :
    let (r, p) = commit (stop (pool_at 100)) 6 0 101 in
    (r ≡ err nil_map) × (p.drivers ≡ none) × (is_open 0 p.opened ≡ true)
commit-stop_example = commit-stop (pool_at 100) 6 0 101 refl (refl, tt)
