-- ===== src/Dbx/Driver.antt =====
-- internal/dbx/driver.go: the types that the drivers share, `ParseKind` and `DefaultSchema`.
-- A Go string-typed enum is a data type; its text is `kind_text` and `object_kind_text`.
pub mod Laws
mod Tests
use debeasy.Base.{
  ℕ, Bool, true, false, not, ◌&&◌, ◌||◌, Option, none, some, List, [], ◌∷◌, ◌++◌, Result, ok, err,
  if◌then◌else◌, any, is_empty,
}
use debeasy.Base.Text.{Text, codes, ◌≗◌}
use debeasy.Base.Int.{ℤ}

pub data Kind : Type 0 where
  postgres mysql sqlite : Kind

-- The errors that the package makes. `backend` carries the message of an error that the database
-- or its client library returned.
pub data Error : Type 0 where
  unknown_kind : Text → Error
  empty_identifier : Error
  backtick_in_identifier : Text → Error
  quote_in_identifier : Text → Error
  no_column : Error
  missing_type : Text → Error
  no_statement : Error
  no_primary_key : Error
  file_path_required : Error
  database_is_file : Error
  ping_failed : Text → Error → Error
  backend : Text → Error

abbrev pub kind_text : Kind → Text
kind_text postgres = codes "postgres"
kind_text mysql = codes "mysql"
kind_text sqlite = codes "sqlite"

unfoldable pub parse_kind : Text → Result Error Kind
parse_kind s =
    if s ≗ codes "postgres" || s ≗ codes "pg" || s ≗ codes "postgresql"
    then ok postgres
    else if s ≗ codes "mysql" || s ≗ codes "mariadb"
    then ok mysql
    else if s ≗ codes "sqlite" || s ≗ codes "sqlite3"
    then ok sqlite
    else err (unknown_kind s)

-- `other` is any further text that a query gives as the kind of an object.
pub data ObjectKind : Type 0 where
  table view matview index sequence : ObjectKind
  other : Text → ObjectKind

pub record DatabaseInfo : Type 0 where
  pub name : Text
  pub comment : Text

pub record Schema : Type 0 where
  pub name : Text

abbrev has_schema : List Schema → Text → Bool
has_schema schemas name = any (λ s. s.name ≗ name) schemas

-- The driver's own default if it is listed, else the first schema.
unfoldable pub default_schema : Kind → Text → List Schema → Text
default_schema kind conn_db [] = []
default_schema postgres conn_db (s ∷ ss) =
    if has_schema (s ∷ ss) (codes "public") then codes "public" else s.name
default_schema mysql conn_db (s ∷ ss) =
    if not (is_empty conn_db) && has_schema (s ∷ ss) conn_db then conn_db else s.name
default_schema sqlite conn_db (s ∷ ss) =
    if has_schema (s ∷ ss) (codes "main") then codes "main" else s.name

pub record Object : Type 0 where
  pub kind : ObjectKind
  pub schema : Text
  pub name : Text
  pub comment : Text

pub record ObjectTree : Type 0 where
  pub tables : List Object
  pub views : List Object
  pub indexes : List Object
  pub other : List Object

pub record ObjectRef : Type 0 where
  pub db : Text
  pub schema : Text
  pub name : Text

pub record Column : Type 0 where
  pub name : Text
  pub data_type : Text
  pub nullable : Bool
  pub default : Text
  pub is_pk : Bool
  pub ordinal_pos : ℤ

pub record IndexInfo : Type 0 where
  pub name : Text
  pub columns : List Text
  pub unique : Bool
  pub primary : Bool

pub record ForeignKey : Type 0 where
  pub name : Text
  pub columns : List Text
  pub ref_schema : Text
  pub ref_table : Text
  pub ref_columns : List Text
  pub on_delete : Text
  pub on_update : Text

pub record TableDef : Type 0 where
  pub ref : ObjectRef
  pub kind : ObjectKind
  pub columns : List Column
  pub indexes : List IndexInfo
  pub fks : List ForeignKey
  pub row_count : ℤ
  pub ddl : Text

pub record Page : Type 0 where
  pub offset : ℤ
  pub limit : ℤ
  pub order_by : Text
  pub desc : Bool

-- A value of type `any` as the database drivers deliver it. A float and a time are represented by
-- the text in which the program prints them.
pub data Value : Type 0 where
  nil : Value
  string : Text → Value
  bytes : Text → Value
  time : Text → Value
  bool : Bool → Value
  int : ℤ → Value
  float : Text → Value

pub record RowSet : Type 0 where
  pub columns : List Text
  pub types : List Text
  pub rows : List (List Value)
  pub truncated : Bool

pub record ExecStats : Type 0 where
  pub rows_affected : ℤ
  pub elapsed_ms : ℕ

pub record DatabaseOpts : Type 0 where
  pub encoding : Text
  pub collation : Text
  pub owner : Text
  pub template : Text

pub record IndexDef : Type 0 where
  pub name : Text
  pub schema : Text
  pub table : Text
  pub columns : List Text
  pub unique : Bool
  pub method : Text

pub record ColumnDef : Type 0 where
  pub name : Text
  pub data_type : Text
  pub nullable : Bool
  pub default : Text
  pub is_pk : Bool

pub record CreateTableDef : Type 0 where
  pub schema : Text
  pub name : Text
  pub columns : List ColumnDef
  pub if_not_exists : Bool

-- One statement's outcome; `error` is the empty text if there was none.
pub record StatementResult : Type 0 where
  pub sql : Text
  pub is_query : Bool
  pub rows : Option RowSet
  pub stats : ExecStats
  pub error : Text
