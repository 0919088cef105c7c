-- ===== src/Dbx.antt =====
-- internal/dbx: the drivers' shared types, SQL text and the pool of open drivers.
pub mod Driver
pub mod Messages
pub mod Identifier
pub mod Exec
pub mod Catalogue
pub mod Ddl
pub mod Sql
pub mod Postgres
pub mod Mysql
pub mod Sqlite
pub mod Pool
mod Tests
