-- ===== src/Migration/Columns.antt =====
-- The columns of a table, as `sa.Column` and `mapped_column` describe them.
use ride_flow.Prelude.{ℕ, Bool, true, false, Option, none, some, String, List}

-- `postgresql.ENUM(..., name=...)`. Its `create_type` is not set, which means True.
pub record EnumType : Type 0 where
  pub name : String
  pub labels : List String

pub data SqlType : Type 0 where
  uuid boolean timestamp_tz float integer json : SqlType
  varchar : ℕ → SqlType
  enum_type : EnumType → SqlType

pub record ForeignKey : Type 0 where
  pub table : String
  pub column : String
  pub cascade : Bool

pub record Column : Type 0 where
  pub name : String
  pub type : SqlType
  pub nullable : Bool
  pub primary_key : Bool
  pub unique : Bool
  pub foreign_key : Option ForeignKey
  pub server_default : Option String

-- `sa.Column(name, type)` allows NULL.
abbrev pub column : String → SqlType → Column
column n t = record {
  name = n;
  type = t;
  nullable = true;
  primary_key = false;
  unique = false;
  foreign_key = none;
  server_default = none;
}

-- `nullable=False`
abbrev pub required : String → SqlType → Column
required n t = record (column n t) { nullable = false }

-- `sa.Column("id", postgresql.UUID(as_uuid=False), primary_key=True)`
abbrev pub id_column : Column
id_column = record (required "id" uuid) { primary_key = true }

abbrev pub users_key : Bool → Option ForeignKey
users_key cascade = some (record { table = "users"; column = "id"; cascade = cascade })

abbrev pub with_default : String → Column → Column
with_default text c = record c { server_default = some text }
