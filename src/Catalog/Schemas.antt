-- ===== src/Catalog/Schemas.antt =====
-- src/catalog/catalog.c and src/include/catalog.h, the catalog of schemas and their tables.
-- `Datatable_create`, which the repository does not hold, is a parameter, with the types of what it
-- makes (`D`) and of the tables in storage (`T`) and of the storage manager (`M`). The entry that a
-- pointer leads to stands for the pointer, but for schemas, which are changed through it.
use mustdb.Catalog.{
  CatalogEntry, CatalogSet, CreateMemory, schema, table, entry_at, catalog_entry_init,
  catalog_set_init, catalog_set_create_entry, catalog_set_get_entry, catalog_set_drop_entry,
}
use mustdb.Catalog.View.{catalog_view}
use mustdb.Hmap.Keys.{hmap_str_cmp}
use mustdb.Parser.{
  SqlType, TypeId, ColumnDefinition, CreateSchemaInfo, CreateTableInfo, get_internal_type,
}
use mustdb.Prelude.{ℕ, Bool, Option, none, some, List, [], ◌∷◌, set, if◌then◌else◌, ◌&&◌}

-- the name that no one may drop, `main`
abbrev pub default_schema : List ℕ
default_schema = 109 ∷ 97 ∷ 105 ∷ 110 ∷ []

-- what the functions return: 0, -1 and -2
pub data CatalogResult : Type 0 where
  done failed exists : CatalogResult

-- `schema` is the address of the schema's entry.
pub record TableCatalogEntry (D T : Type 0) : Type 0 where
  pub schema_entry : ℕ
  pub datatable : D
  pub storage_table : Option T
  pub columns : List ColumnDefinition

pub record SchemaCatalogEntry (D T : Type 0) : Type 0 where
  pub tables : CatalogSet (TableCatalogEntry D T)
  pub indexes : CatalogSet (TableCatalogEntry D T)

pub record Catalog (D T M : Type 0) : Type 0 where
  pub schemas : CatalogSet (SchemaCatalogEntry D T)
  pub storage : Option M

-- what the allocations before catalogSet_create_entry are granted: the copy of the name, the entry,
-- and the columns of a table
pub record EntryMemory : Type 0 where
  pub name : Bool
  pub entry : Bool
  pub columns : Bool

-- what is returned after catalogSet_create_entry
unfoldable pub create_result : Bool → Bool → CatalogResult
create_result if_not_exists created =
    if created then done else if if_not_exists then done else exists

-- the types of a table's columns, the loop before Datatable_create and that of
-- tableCatalogEntry_get_types
unfoldable pub internal_types : List ColumnDefinition → List TypeId
unfolding get_internal_type
internal_types [] = []
internal_types (column ∷ columns) = get_internal_type column.type ∷ internal_types columns

unfoldable pub get_types : List ColumnDefinition → List SqlType
get_types [] = []
get_types (column ∷ columns) = column.type ∷ get_types columns

-- the set in which the entry at `a` has another body
unfoldable pub set_body : {P : Type 0} → CatalogSet P → ℕ → P → CatalogSet P
unfolding entry_at
set_body s a body = record s {
  entries = set s.entries a (record (entry_at s a) { body = some body });
}

module _ {D T : Type 0} where
  unfoldable pub make_schema_entry : List ℕ → CatalogEntry (SchemaCatalogEntry D T)
  unfolding catalog_entry_init catalog_set_init
  make_schema_entry name =
      catalog_entry_init (some (record { tables = catalog_set_init; indexes = catalog_set_init }))
        schema name

  unfoldable pub table_catalog_entry_get_types : TableCatalogEntry D T → List SqlType
  unfolding get_types
  table_catalog_entry_get_types entry = get_types entry.columns

  -- the table of a schema's entry
  abbrev pub table_in : Option (SchemaCatalogEntry D T) → List ℕ → Option (TableCatalogEntry D T)
  table_in none name = none
  table_in (some own) name = catalog_view own.tables name

  abbrev pub storage_of : Option (TableCatalogEntry D T) → Option T
  storage_of none = none
  storage_of (some entry) = entry.storage_table

module _ {D T M : Type 0} where
  unfoldable pub catalog_create : Catalog D T M
  unfolding catalog_set_init
  catalog_create = record { schemas = catalog_set_init; storage = none }

  unfoldable pub with_schemas : Catalog D T M → CatalogSet (SchemaCatalogEntry D T) → Catalog D T M
  with_schemas c schemas = record c { schemas = schemas }

  unfoldable pub catalog_create_schema :
      EntryMemory → CreateMemory → Catalog D T M → CreateSchemaInfo → CatalogResult × Catalog D T M
  unfolding catalog_set_create_entry make_schema_entry create_result with_schemas
  catalog_create_schema own memory c info =
      let created =
        catalog_set_create_entry memory c.schemas info.schema_name
          (make_schema_entry info.schema_name) in
      if own.name && own.entry
      then (create_result info.if_not_exists created.0, with_schemas c created.1)
      else (failed, c)

  -- the address of the schema's entry
  unfoldable pub catalog_get_schema : Catalog D T M → List ℕ → Option ℕ
  unfolding catalog_set_get_entry
  catalog_get_schema c name = catalog_set_get_entry c.schemas name

  unfoldable pub catalog_drop_schema : Bool → Catalog D T M → List ℕ → CatalogResult × Catalog D T M
  unfolding catalog_set_drop_entry with_schemas hmap_str_cmp
  catalog_drop_schema granted c name =
      if hmap_str_cmp name default_schema
      then (failed, c)
      else (done, with_schemas c (catalog_set_drop_entry granted c.schemas name).1)

  unfoldable pub catalog_get_table :
      Catalog D T M → List ℕ → List ℕ → Option (TableCatalogEntry D T)
  unfolding catalog_get_schema entry_at catalog_view
  catalog_get_table c schema_name table_name = elim (catalog_get_schema c schema_name) [
    | none ↦ none
    | some a ↦ table_in (entry_at c.schemas a).body table_name
  ]

  unfoldable pub catalog_get_storage_table : Catalog D T M → List ℕ → List ℕ → Option T
  unfolding catalog_get_table
  catalog_get_storage_table c schema_name table_name =
      storage_of (catalog_get_table c schema_name table_name)

  module _ (datatable_create : Option M → List ℕ → List ℕ → List TypeId → D) where
    unfoldable pub make_table_entry :
        Catalog D T M → ℕ → List ℕ → CreateTableInfo → CatalogEntry (TableCatalogEntry D T)
    unfolding catalog_entry_init internal_types
    make_table_entry c a name info =
        catalog_entry_init
          (some (record {
            schema_entry = a;
            datatable =
                datatable_create c.storage info.schema_name name (internal_types info.columns);
            storage_table = none;
            columns = info.columns;
          }))
          table name

    -- catalogSet_create_entry on the tables of the schema `own` at the address `a`
    unfoldable pub create_table_in :
        CreateMemory
        → Catalog D T M
        → ℕ
        → SchemaCatalogEntry D T
        → CreateTableInfo
        → CatalogResult × Catalog D T M
    unfolding catalog_set_create_entry make_table_entry create_result with_schemas set_body
    create_table_in memory c a own info =
        let created =
          catalog_set_create_entry memory own.tables info.table_name
            (make_table_entry c a info.table_name info) in
        (
          create_result info.if_not_exists created.0,
          with_schemas c (set_body c.schemas a (record own { tables = created.1 })),
        )

    -- An entry with no schema in it would be none of a schema.
    unfoldable pub catalog_create_table :
        EntryMemory → CreateMemory → Catalog D T M → CreateTableInfo → CatalogResult × Catalog D T M
    unfolding catalog_get_schema create_table_in entry_at
    catalog_create_table memory_own memory c info = elim (catalog_get_schema c info.schema_name) [
      | none ↦ (failed, c)
      | some a ↦ elim (entry_at c.schemas a).body [
        | none ↦ (failed, c)
        | some own ↦
            if memory_own.name && (memory_own.entry && memory_own.columns)
            then create_table_in memory c a own info
            else (failed, c)
      ]
    ]
