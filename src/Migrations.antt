-- ===== src/Migrations.antt =====
-- The statements of alembic/versions as changes of a catalogue of tables, each refused where PostgreSQL
-- refuses it. A migration is one transaction: what refuses a statement refuses the whole.
pub mod Versions
pub mod Models
pub mod Upgrade
pub mod Downgrade
use mathlib.Core.Option
use mathlib.Core.Option.{Option}
use farm_link.Common.{
  ℕ, zero, suc, String, Bool, true, false, not, ◌&&◌, ◌||◌, none, some, List, [], ◌∷◌, ◌++◌, ◌==◌,
  str_eq, if◌then◌else◌, map, first, select,
}

pub data ColumnType : Type 0 where
  sql_string : (length : ℕ) → ColumnType
  numeric : (precision scale : ℕ) → ColumnType
  integer : ColumnType
  sql_enum : (name : String) (labels : List String) → ColumnType
  sql_uuid : ColumnType
  date_time : ColumnType
  sql_boolean : ColumnType

pub record Column : Type 0 where
  pub name : String
  pub kind : ColumnType
  pub nullable : Bool
  pub server_default : Option String

-- Every key refers to the column `id` of its table.
pub record ForeignKey : Type 0 where
  pub column : String
  pub refers_to : String

pub record UniqueKey : Type 0 where
  pub name : String
  pub columns : List String

-- `postgresql_where`: a column that is not NULL.
pub data Condition : Type 0 where
  is_not_null : (column : String) → Condition

pub record Index : Type 0 where
  pub name : String
  pub columns : List String
  pub unique : Bool
  pub condition : Option Condition

-- A row's value in a column, by its text; `none` is NULL.
abbrev pub Row : Type 0
Row = String → Option String

pub record Table : Type 0 where
  pub name : String
  pub columns : List Column
  pub foreign_keys : List ForeignKey
  pub unique_keys : List UniqueKey
  pub indexes : List Index
  pub rows : List Row

pub record Catalogue : Type 0 where
  pub tables : List Table
  pub enums : List String

pub data Operation : Type 0 where
  create_table : Table → Operation
  drop_table : (name : String) → Operation
  add_column : (table : String) → Column → Operation
  drop_column : (table column : String) → Operation
  create_index : (table : String) → Index → Operation
  drop_index : (table name : String) → Operation
  create_unique_constraint : (table : String) → UniqueKey → Operation
  drop_constraint : (table name : String) → Operation
  drop_enum : (name : String) → Operation

unfoldable pub some_of {ℓ} : {A : Type ℓ} → (A → Bool) → List A → Bool
some_of p [] = false
some_of p (x ∷ xs) = p x || some_of p xs

abbrev pub lists : List String → String → Bool
lists names name = some_of (str_eq name) names

abbrev pub named : String → Table → Bool
named name t = str_eq t.name name

-- The enum type that a column brings with it.
abbrev pub enum_of : ColumnType → List String
enum_of (sql_enum name labels) = name ∷ []
enum_of kind = []

unfoldable pub enums_of : List Column → List String
enums_of [] = []
enums_of (c ∷ cs) = enum_of c.kind ++ enums_of cs

-- ALTER of one table, refused where the table is not there.
unfoldable pub alter : String → (Table → Option Table) → List Table → Option (List Table)
alter name f [] = none
alter name f (t ∷ ts) =
    let rest = alter name f ts in
    if named name t then Option.map (λ u. u ∷ ts) (f t) else Option.map (λ us. t ∷ us) rest

abbrev with_tables : Option (List Table) → List String → Option Catalogue
with_tables tables enums = Option.map (λ ts. record { tables = ts; enums = enums }) tables

abbrev pub columns_of : Table → List String
columns_of t = map (λ c. c.name) t.columns

abbrev all_lie_in : Table → List String → Bool
all_lie_in t names = not (some_of (λ name. not (lists (columns_of t) name)) names)

-- CREATE TYPE for its enums, then CREATE TABLE. Types, keys' tables and the name are looked up.
unfoldable pub creates_table : Table → Catalogue → Option Catalogue
unfolding some_of enums_of
creates_table t c =
    if some_of (named t.name) c.tables
      || some_of (lists c.enums) (enums_of t.columns)
      || some_of (λ k. not (some_of (named k.refers_to) c.tables)) t.foreign_keys
    then none
    else some (record { tables = c.tables ++ t ∷ []; enums = c.enums ++ enums_of t.columns })

abbrev refers_to : String → Table → Bool
refers_to name t = some_of (λ k. str_eq k.refers_to name) t.foreign_keys

-- DROP TABLE takes the table's indexes and constraints along, and is refused while another table
-- refers to it.
unfoldable pub drops_table : String → Catalogue → Option Catalogue
unfolding some_of select
drops_table name c =
    let rest = select (λ t. not (named name t)) c.tables in
    if not (some_of (named name) c.tables) || some_of (refers_to name) rest
    then none
    else some (record c { tables = rest })

abbrev has_no_row : List Row → Bool
has_no_row [] = true
has_no_row (r ∷ rs) = false

abbrev pub with_value : String → Option String → Row → Row
with_value column value r name = if str_eq name column then value else r name

-- ADD COLUMN: the rows that are there need a value, and have the default, or NULL.
unfoldable pub adds_column : Column → Table → Option Table
unfolding some_of
adds_column column t =
    if lists (columns_of t) column.name
      || (not column.nullable && not (has_default column.server_default) && not (has_no_row t.rows))
    then none
    else some (record t {
      columns = t.columns ++ column ∷ [];
      rows = map (with_value column.name column.server_default) t.rows;
    })
  where
    has_default : Option String → Bool
    has_default (some value) = true
    has_default none = false

-- DROP COLUMN takes along what stands on the column.
unfoldable pub drops_column : String → Table → Option Table
unfolding some_of select
drops_column column t =
    if lists (columns_of t) column
    then some (record t {
      columns = select (λ c. not (str_eq c.name column)) t.columns;
      foreign_keys = select (λ k. not (str_eq k.column column)) t.foreign_keys;
      unique_keys = select (λ k. not (lists k.columns column)) t.unique_keys;
      indexes = select (λ i. not (lists i.columns column)) t.indexes;
    })
    else none

-- The names of a table's indexes: those of its unique constraints are among them.
abbrev index_names : Table → List String
index_names t = map (λ i. i.name) t.indexes ++ map (λ k. k.name) t.unique_keys

abbrev has_index : String → Table → Bool
has_index name t = lists (index_names t) name

-- Two values that a unique index takes for one: NULL is like no other.
abbrev pub same_value : Option String → Option String → Bool
same_value (some a) (some b) = str_eq a b
same_value _ _ = false

unfoldable pub agree : List String → Row → Row → Bool
agree [] r q = true
agree (column ∷ columns) r q = same_value (r column) (q column) && agree columns r q

-- Two of the rows have the same key.
unfoldable pub repeats : List String → List Row → Bool
unfolding some_of agree
repeats columns [] = false
repeats columns (r ∷ rows) = some_of (agree columns r) rows || repeats columns rows

abbrev is_null : Option String → Bool
is_null none = true
is_null (some value) = false

abbrev pub meets : Option Condition → Row → Bool
meets none r = true
meets (some (is_not_null column)) r = not (is_null (r column))

-- CREATE INDEX, refused for a unique one where two of its rows have the same key.
unfoldable pub creates_index : Index → Table → Option Table
unfolding repeats select
creates_index index t =
    if all_lie_in t index.columns
      && not (index.unique && repeats index.columns (select (meets index.condition) t.rows))
    then some (record t { indexes = t.indexes ++ index ∷ [] })
    else none

unfoldable pub drops_index : String → Table → Option Table
drops_index name t =
    if some_of (λ i. str_eq i.name name) t.indexes
    then some (record t { indexes = select (λ i. not (str_eq i.name name)) t.indexes })
    else none

-- ADD CONSTRAINT ... UNIQUE, refused where two rows have the same key.
unfoldable pub adds_unique_key : UniqueKey → Table → Option Table
unfolding repeats
adds_unique_key key t =
    if all_lie_in t key.columns && not (repeats key.columns t.rows)
    then some (record t { unique_keys = t.unique_keys ++ key ∷ [] })
    else none

unfoldable pub drops_unique_key : String → Table → Option Table
drops_unique_key name t =
    if some_of (λ k. str_eq k.name name) t.unique_keys
    then some (record t { unique_keys = select (λ k. not (str_eq k.name name)) t.unique_keys })
    else none

-- One statement. An index's name is new in the whole catalogue. A type that is not there is not
-- dropped (`checkfirst`), and one that a column has is refused.
unfoldable pub perform : Operation → Catalogue → Option Catalogue
perform (create_table t) c = creates_table t c
perform (drop_table name) c = drops_table name c
perform (add_column table column) c =
    with_tables (alter table (adds_column column) c.tables) c.enums
perform (drop_column table column) c =
    with_tables (alter table (drops_column column) c.tables) c.enums
perform (create_index table index) c =
    if some_of (has_index index.name) c.tables
    then none
    else with_tables (alter table (creates_index index) c.tables) c.enums
perform (drop_index table name) c = with_tables (alter table (drops_index name) c.tables) c.enums
perform (create_unique_constraint table key) c =
    if some_of (has_index key.name) c.tables
    then none
    else with_tables (alter table (adds_unique_key key) c.tables) c.enums
perform (drop_constraint table name) c =
    with_tables (alter table (drops_unique_key name) c.tables) c.enums
perform (drop_enum name) c =
    if some_of (λ t. lists (enums_of t.columns) name) c.tables
    then none
    else some (record c { enums = select (λ e. not (str_eq e name)) c.enums })

-- A migration's statements in their order.
unfoldable pub migrate : List Operation → Option Catalogue → Option Catalogue
migrate [] c = c
migrate (o ∷ os) none = none
migrate (o ∷ os) (some c) = migrate os (perform o c)

-- The tables as the program has filled them since the last migration.
abbrev pub filled : (String → List Row) → Table → Table
filled rows t = record t { rows = rows t.name }

abbrev pub in_use : (String → List Row) → Option Catalogue → Option Catalogue
in_use rows none = none
in_use rows (some c) = some (record c { tables = map (filled rows) c.tables })

abbrev pub no_tables : Catalogue
no_tables = record { tables = []; enums = [] }
