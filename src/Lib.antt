-- ===== src/Lib.antt =====
-- debeasy, a web client for PostgreSQL, MySQL and SQLite databases: a model of its core with the
-- theorems that make it correct.
--
-- The program keeps its own SQLite database (internal/store) with users, sessions, saved connections
-- and a query history. The command `debeasy update` replaces the program by a release. A request is authenticated by a session; a saved connection, its password
-- opened by the keyring (internal/crypto), gives a driver of the pool (internal/dbx/pool.go), and the
-- drivers (internal/dbx/pg.go, mysql.go, sqlite.go) build and send the statements.
--
-- The files. `Base` has what all share: Go's strings as lists of code points, `int64` as ℤ, results.
--   Config             internal/config/config.go: Load, loadOrCreateSecret, parseDurationOr
--   Crypto             internal/crypto/keyring.go: `Seal`, `Open`
--   Store              internal/store/store.go and schema.sql: the tables and what constrains them
--   Store/Users        internal/store/users.go: Create, Verify, SetDisabled, ResetPassword, the reads
--   Store/Sessions     internal/store/sessions.go: Create, Get, Delete, PurgeExpired
--   Store/Connections  internal/store/connections.go: Create, Update, Delete, Get, List
--   Store/History      internal/store/history.go: Append, Recent
--   Dbx/Driver         internal/dbx/driver.go: the data types, ParseKind, DefaultSchema
--   Dbx/Messages       the texts of the package's errors
--   Dbx/Identifier     internal/dbx/identifier.go: quoteIdent, qualified, quoteLiteral
--   Dbx/Exec           internal/dbx/exec.go: splitSQL, looksLikeQuery, readRows, runStatements
--   Dbx/Ddl            internal/dbx/ddl.go: buildCreateTable, buildCreateIndex and the display text
--   Dbx/Sql            what the three drivers' statements share, and a reader of placeholders
--   Dbx/Postgres, Dbx/Mysql, Dbx/Sqlite   the drivers from SampleRows on
--   Dbx/Catalogue      pg.go, mysql.go, sqlite.go: ListDatabases to DescribeTable, with a module for each
--     driver (Postgres, Mysql, Sqlite); the queries are operations of a parameter
--   Dbx/Pool           internal/dbx/pool.go: Get in its two locked parts, Evict, the collector, Stop
--   Server/Request     what handlers read of a request: helpers.go, the forms of handlers_create.go
--   Server/Pages       what they answer: statuses, headers, and the data of the templates
--   Server/App         the application's state, the drivers' interface (internal/dbx/driver.go), layout,
--                      resolveConn, resolveTable
--   Server/Middleware  internal/server/middleware.go: sessionMiddleware, requireAuth, requireAdmin,
--                      csrfMiddleware
--   Server/Handlers    internal/server/handlers_*.go, one module for each file (handlers_app.go is
--                      Browse, handlers_object.go Rows)
--   Server/Routes      internal/server/server.go: routes, firstRunRedirect
--   Server/RateLimit   internal/server/middleware.go: the login limiter's Allow, clientIP
--   Updates            internal/updates/updates.go: Newer, the checker's Load and Check
--   Command/Checksum   cmd/debeasy/update.go: parseChecksum, readYes
--   Command/Admin      cmd/debeasy/admin.go: runAdminCreate, runAdminResetPassword after their flags
--   Command/Update     cmd/debeasy/update.go: runUpdateWithOpts with its fetches; the part from the
--                      confirmation on, which changes files, is in Command/Update/Swap
-- Each has its theorems in the modules below it, and examples in a module Tests, its own or its
-- parent's.
--
-- State and errors. The store is a record of tables that every operation takes and returns; a
-- statement fails with a message while the database cannot be used (`down`). Go's `(value, error)`
-- is `Result`, a panic an error of its own. What the program takes from outside is an argument: the
-- time, random bytes, and the order in which Go ranges over a map. A time is a number of
-- nanoseconds. Ids, counters and times stay far from the bounds of int64 and have no width here; the
-- bound is written out where a text is read as a number (`Updates`). Only a page limit of 2^63 - 1
-- would wrap in `SampleRows` (`limit+1`), which the model does not follow. Ids of rows start at 1, as
-- SQLite's AUTOINCREMENT does.
--
-- Parameters, each with what the code relies on: AES-GCM (what is sealed opens), bcrypt (a hash
-- accepts its password), the databases behind the drivers and their client libraries (no
-- assumption), dialling and pinging of the pool (no assumption), the cookie codec (it decodes what it
-- has encoded; a random id is not empty),
-- the network and the disk below the self-update (a temporary file's name is a new one), and the
-- floating-point number of tokens that the login limiter adds in a span of time.
--
-- The pool's theorems are about all sequences of its locked parts (`Dbx/Pool/Invariant`): the opening
-- of a driver lies between the two of a `Get`, and any others may come in between.
--
-- Loops are structural recursion. The only fuel is that of `Base/Decimal`, one more than the number
-- printed, where each round divides by ten; reading a placeholder's digits back uses that it is
-- enough.
--
-- Not modelled: the opening of connections by the drivers, and the SQL text of the catalogue queries
-- of PostgreSQL and MySQL; the server's logging, its recovery from panics, the attributes of cookies,
-- its start and stop; the parsing of flags and the dispatch on the command line; templates and embedded
-- files, which are output by Go's library. Go strings are taken to be valid UTF-8. A request is given
-- as net/http has parsed it, without multipart bodies, and its path as its segments.
-- `Stop` is taken to be called at most once, since a second call closes a closed channel.
pub mod Base
pub mod Command
pub mod Config
pub mod Crypto
pub mod Store
pub mod Dbx
pub mod Server
pub mod Updates
