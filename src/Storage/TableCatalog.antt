-- ===== src/Storage/TableCatalog.antt =====
-- checkpointManager_write_table_catalog of storage.c: the description of a table in the metadata
-- stream. The argument has the names and the columns of the table's catalog entry.
pub mod Reload
mod Tests
use mustdb.Parser.{
  ColumnDefinition, ColumnOptions, unset, vector_dim, CreateTableInfo, SqlType, vector, code,
}
use mustdb.Prelude.{ℕ, List, [], ◌∷◌, length}
use mustdb.Storage.Serial.{Write, nothing, ◌then_also◌, write_word, write_string}

-- The dimension of a vector column; where none was stored, any value is written, here 0.
abbrev pub dim_of : ColumnOptions → ℕ
dim_of unset = 0
dim_of (vector_dim dim) = dim

unfoldable pub write_options : ℕ → SqlType → ColumnOptions → Write
write_options fuel vector options = write_word fuel 2 (dim_of options)
write_options fuel _ options = nothing

unfoldable pub write_column : ℕ → ColumnDefinition → Write
unfolding write_options
write_column fuel column =
    write_string fuel column.name
    then_also write_word fuel 1 (code column.type)
    then_also write_options fuel column.type column.options

unfoldable pub write_columns : ℕ → List ColumnDefinition → Write
unfolding write_column
write_columns fuel [] = nothing
write_columns fuel (column ∷ columns) =
    write_column fuel column then_also write_columns fuel columns

unfoldable pub write_table_catalog : ℕ → CreateTableInfo → Write
unfolding write_columns
write_table_catalog fuel table =
    write_string fuel table.schema_name
    then_also write_string fuel table.table_name
    then_also write_word fuel 4 (length table.columns)
    then_also write_columns fuel table.columns
