-- ===== src/Migration.antt =====
-- backend/alembic/versions/0001_initial_schema.py: the migration as the sequence of its calls of
-- `op`, and what PostgreSQL does with each as an interface. A created table stands before the
-- older ones in what one sees of a catalog.
pub mod Columns
pub mod Tables
pub mod Apply
use ride_flow.Prelude.{
  Bool, true, not, ◌&&◌, ◌||◌, if◌then◌else◌, ◌==◌, string_eq, List, [], ◌∷◌, Option, none, some,
  String, any, ◌++◌, filterb, ◌≡◌,
}
use ride_flow.Migration.Columns.{Column, ForeignKey, SqlType, EnumType, enum_type}

pub record Table : Type 0 where
  pub name : String
  pub columns : List Column
  pub unique_together : List (List String)

pub record Index : Type 0 where
  pub name : String
  pub table : String
  pub columns : List String

-- The calls that a migration makes.
pub data Statement : Type 0 where
  create_enum : EnumType → Statement
  create_table : Table → Statement
  create_index : Index → Statement
  drop_table : String → Statement
  drop_enum : String → Statement

-- What one sees of a catalog.
pub record View : Type 0 where
  pub enums : List EnumType
  pub tables : List Table
  pub indexes : List Index

abbrev pub has_enum : String → View → Bool
has_enum n v = any (λ (e : EnumType). e.name == n) v.enums

abbrev pub has_table : String → View → Bool
has_table n v = any (λ (t : Table). t.name == n) v.tables

abbrev pub has_index : String → View → Bool
has_index n v = any (λ (i : Index). i.name == n) v.indexes

abbrev pub refers_column : String → Column → Bool
refers_column n c = elim c.foreign_key [ none ↦ Bool.false | some key ↦ key.table == n ]

abbrev pub refers : String → Table → Bool
refers n t = not (t.name == n) && any (refers_column n) t.columns

-- Another table refers to this one.
abbrev pub is_referred : String → View → Bool
is_referred n v = any (refers n) v.tables

abbrev pub uses_column : String → Column → Bool
uses_column n c = elim c.type [ enum_type e ↦ e.name == n | _ ↦ Bool.false ]

-- A column has this type.
abbrev pub is_used : String → View → Bool
is_used n v = any (λ (t : Table). any (uses_column n) t.columns) v.tables

-- The table that a column needs.
abbrev pub column_ready : View → String → Column → Bool
column_ready v own c = elim c.foreign_key [
  | none ↦ true
  | some key ↦ key.table == own || has_table key.table v
]

abbrev pub columns_ready : View → String → List Column → Bool
columns_ready v own [] = true
columns_ready v own (c ∷ cs) = column_ready v own c && columns_ready v own cs

-- The enumerations among the types of the columns.
abbrev pub types_of : List Column → List EnumType
types_of [] = []
types_of (c ∷ cs) = elim c.type [ enum_type e ↦ e ∷ types_of cs | _ ↦ types_of cs ]

-- Where a statement succeeds. An enumeration is created and dropped with `checkfirst`. The creation
-- of a table first creates the enumerations of its columns, without, and so fails if one of them is
-- there.
abbrev pub ready : Statement → View → Bool
ready (create_enum e) v = true
ready (create_table t) v =
    not (any (λ (e : EnumType). has_enum e.name v) (types_of t.columns))
    && not (has_table t.name v)
    && columns_ready v t.name t.columns
ready (create_index i) v = not (has_index i.name v) && has_table i.table v
ready (drop_table n) v = has_table n v && not (is_referred n v)
ready (drop_enum n) v = not (is_used n v)

-- And what it does there. A table goes with its indexes.
abbrev pub effect : Statement → View → View
effect (create_enum e) v = if has_enum e.name v then v else record v { enums = e ∷ v.enums }
effect (create_table t) v = record v {
  enums = types_of t.columns ++ v.enums;
  tables = t ∷ v.tables;
}
effect (create_index i) v = record v { indexes = i ∷ v.indexes }
effect (drop_table n) v = record v {
  tables = filterb (λ (t : Table). not (t.name == n)) v.tables;
  indexes = filterb (λ (i : Index). not (i.table == n)) v.indexes;
}
effect (drop_enum n) v = record v { enums = filterb (λ (e : EnumType). not (e.name == n)) v.enums }

-- PostgreSQL, as Alembic's `op` reaches it.
pub record Postgres : Type 1 where
  pub Catalog : Type 0
  pub view : Catalog → View
  pub execute : Statement → Catalog → Option Catalog
  pub execute-ready :
      (s : Statement) (c : Catalog)
      → ready s (view c) ≡ true
      → (c' : Catalog) × (execute s c ≡ some c') × (view c' ≡ effect s (view c))
  pub execute-refused :
      (s : Statement) (c : Catalog) → ready s (view c) ≡ Bool.false → execute s c ≡ none

module _ ⦃pg : Postgres⦄ where
  -- The calls of a migration, up to the first that fails.
  unfoldable pub run : List Statement → pg.Catalog → Option pg.Catalog
  run [] c = some c
  run (s ∷ ss) c = elim (pg.execute s c) [ none ↦ none | some c' ↦ run ss c' ]
