-- ===== src/Parser.antt =====
-- src/parse/parser.c and src/include/parser.h: SQL types, and the descriptions of schemas and tables
-- as they are read from the metadata stream. Memory for them is taken to be there.
pub mod RoundTrip
use mustdb.Prelude.{ℕ, zero, suc, ◌+◌, ◌==◌, Bool, true, false, List, [], ◌∷◌, if◌then◌else◌}
use mustdb.Storage.Serial.{Read, pure, ◌>>=◌, read_word, read_string}

-- The numbers of the enum are `code`; a value that no name stands for is `other`.
pub data SqlType : Type 0 where
  tinyint smallint integer bigint float double varchar vector : SqlType
  other : ℕ → SqlType

pub data TypeId : Type 0 where
  invalid int8 int16 int32 int64 float32 float64 : TypeId

abbrev pub code : SqlType → ℕ
code tinyint = 1
code smallint = 2
code integer = 3
code bigint = 4
code float = 5
code double = 6
code varchar = 7
code vector = 8
code (other n) = n

unfoldable pub of_code : ℕ → SqlType
of_code n =
    if n == 1
    then tinyint
    else if n == 2
    then smallint
    else if n == 3
    then integer
    else if n == 4
    then bigint
    else if n == 5
    then float
    else if n == 6
    then double
    else if n == 7
    then varchar
    else if n == 8
    then vector
    else other n

unfoldable pub get_internal_type : SqlType → TypeId
get_internal_type tinyint = int8
get_internal_type smallint = int16
get_internal_type integer = int32
get_internal_type bigint = int64
get_internal_type float = float32
get_internal_type double = float64
get_internal_type _ = invalid

-- the union of a column's options, `unset` where nothing has been stored
pub data ColumnOptions : Type 0 where
  unset : ColumnOptions
  vector_dim : ℕ → ColumnOptions

pub record ColumnDefinition : Type 0 where
  pub name : List ℕ
  pub oid : ℕ
  pub type : SqlType
  pub options : ColumnOptions

pub record CreateSchemaInfo : Type 0 where
  pub schema_name : List ℕ
  pub if_not_exists : Bool

pub record CreateTableInfo : Type 0 where
  pub schema_name : List ℕ
  pub table_name : List ℕ
  pub if_not_exists : Bool
  pub columns : List ColumnDefinition

unfoldable pub create_schema_info_deserialize : ℕ → Read CreateSchemaInfo
create_schema_info_deserialize fuel = do
  schema_name ← read_string fuel
  pure (record { schema_name = schema_name; if_not_exists = false })

-- the switch on the column's type: a vector has its dimension, of 16 bits
unfoldable pub read_options : ℕ → SqlType → Read ColumnOptions
read_options fuel vector = do dim ← read_word fuel 2; pure (vector_dim dim)
read_options fuel _ = pure unset

unfoldable pub read_column : ℕ → ℕ → Read ColumnDefinition
unfolding read_options
read_column fuel i = do
  name ← read_string fuel
  type ← read_word fuel 1
  options ← read_options fuel (of_code type)
  pure (record { name = name; oid = i; type = of_code type; options = options })

-- the loop over the columns, by the number left
unfoldable pub read_columns : ℕ → ℕ → ℕ → Read (List ColumnDefinition)
unfolding read_column
read_columns fuel zero i = pure []
read_columns fuel (suc n) i = do
  column ← read_column fuel i
  columns ← read_columns fuel n (i + 1)
  pure (column ∷ columns)

unfoldable pub create_table_info_deserialize : ℕ → Read CreateTableInfo
unfolding read_columns
create_table_info_deserialize fuel = do
  schema_name ← read_string fuel
  table_name ← read_string fuel
  col_count ← read_word fuel 4
  columns ← read_columns fuel col_count 0
  pure (record {
    schema_name = schema_name;
    table_name = table_name;
    if_not_exists = true;
    columns = columns;
  })
