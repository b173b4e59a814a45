-- ===== src/Catalog/Tests.antt =====
-- The theorems on the catalog at a set of one entry, and at a catalog of one schema with one table.
use mustdb.Catalog.Create.{IsFresh}
use mustdb.Catalog.Laws.{set_init-IsCatalogSet}
use mustdb.Catalog.Refine.{is_there, can_create, view-create_entry, view-drop_entry}
use mustdb.Catalog.NewTable.{
  create_table-IsCatalog, get_table-create_table_new, get_table-create_table_other,
  create_table-exists,
}
use mustdb.Catalog.Ops.{get_table-create_schema, get_table-drop_schema}
use mustdb.Catalog.Schemas.{
  Catalog, SchemaCatalogEntry, TableCatalogEntry, EntryMemory, CatalogResult, done, exists,
  default_schema, catalog_create, catalog_create_schema, catalog_get_schema, catalog_drop_schema,
  catalog_get_table, catalog_create_table, internal_types, with_schemas, make_schema_entry,
  make_table_entry, set_body, create_table_in,
}
use mustdb.Hmap.Iterate.{nodes_of}
use mustdb.Catalog.Scan.{live_entries, entry_count-live}
use mustdb.Catalog.Sets.{IsCatalogSet}
use mustdb.Catalog.Tables.{IsCatalog, catalog_create-IsCatalog}
use mustdb.Catalog.View.{visible, catalog_view}
use mustdb.Catalog.{
  CatalogEntry, CatalogSet, CreateMemory, index, catalog_set_init, catalog_entry_init,
  catalog_set_create_entry, catalog_set_get_entry, catalog_set_drop_entry,
  catalog_set_get_entry_count, create_first, link_entry,
}
use mustdb.Hmap.Keys.{hmap_init_str, hmap_str_cmp}
use mustdb.Hmap.{hmap_init, hmap_insert, hmap_get}
use mustdb.Parser.{TypeId, CreateSchemaInfo, CreateTableInfo, integer, vector, unset, vector_dim}
use mustdb.Prelude.{
  ℕ, ◌*◌, ◌^◌, ◌<◌, ◌≡◌, refl, arith, Bool, true, false, Option, none, some, List, [], ◌∷◌,
  if◌then◌else◌, ◌&&◌, not, length,
}

abbrev plenty : CreateMemory
plenty = record { name_copy = true; dummy = true; buckets = true; node = true }

abbrev new_set : CatalogSet ℕ
new_set = catalog_set_init

-- the names `a` and `b`
abbrev name_a : List ℕ
name_a = 97 ∷ []

abbrev name_b : List ℕ
name_b = 98 ∷ []

abbrev entry_of : List ℕ → ℕ → CatalogEntry ℕ
entry_of name body = catalog_entry_init (some body) index name

entry_of-IsFresh : (name : List ℕ) (body : ℕ) → IsFresh name (entry_of name body)
unfolding catalog_entry_init
entry_of-IsFresh name body = record { named = refl; orphan = refl }

new_narrow : new_set.nodes.nbuckets * 2 < 2 ^ 64
unfolding catalog_set_init hmap_init_str hmap_init
new_narrow = omega arith

abbrev set_a : CatalogSet ℕ
set_a = (catalog_set_create_entry plenty new_set name_a (entry_of name_a 5)).1

set_a-IsCatalogSet : IsCatalogSet set_a
set_a-IsCatalogSet =
    (view-create_entry new_set name_a plenty (entry_of name_a 5) name_a
      (set_init-IsCatalogSet name_a).0 new_narrow (entry_of-IsFresh name_a 5)).0

-- the entry stands behind its dummy
two_entries : length set_a.entries ≡ 2
unfolding catalog_set_init hmap_init_str hmap_init catalog_set_create_entry catalog_entry_init
    hmap_get create_first hmap_insert
two_entries = refl

set_a_narrow : set_a.nodes.nbuckets * 2 < 2 ^ 64
unfolding catalog_set_init hmap_init_str hmap_init catalog_set_create_entry catalog_entry_init
    hmap_get create_first hmap_insert
set_a_narrow = omega arith

abbrev created_b : Bool × CatalogSet ℕ
created_b = catalog_set_create_entry plenty set_a name_b (entry_of name_b 6)

view-create_entry_example :
    IsCatalogSet created_b.1
    × (created_b.0 ≡ can_create set_a name_b plenty)
    × (catalog_view created_b.1 name_a ≡ (
        if can_create set_a name_b plenty && hmap_str_cmp name_b name_a
        then visible (entry_of name_b 6)
        else catalog_view set_a name_a))
view-create_entry_example =
    view-create_entry set_a name_b plenty (entry_of name_b 6) name_a set_a-IsCatalogSet set_a_narrow
      (entry_of-IsFresh name_b 6)

abbrev dropped_a : Bool × CatalogSet ℕ
dropped_a = catalog_set_drop_entry true set_a name_a

view-drop_entry_example :
    IsCatalogSet dropped_a.1
    × (dropped_a.0 ≡ is_there (hmap_get set_a.nodes name_a))
    × (catalog_view dropped_a.1 name_a
        ≡ (if true && hmap_str_cmp name_a name_a then none else catalog_view set_a name_a))
view-drop_entry_example = view-drop_entry set_a name_a true name_a set_a-IsCatalogSet

-- one name is there, behind one node
one_node : length (nodes_of set_a.nodes.buckets) ≡ 1
unfolding catalog_set_init hmap_init_str hmap_init catalog_set_create_entry catalog_entry_init
    hmap_get create_first hmap_insert link_entry nodes_of
one_node = refl

entry_count-live_example :
    catalog_set_get_entry_count 2 set_a ≡ some (live_entries set_a (nodes_of set_a.nodes.buckets))
entry_count-live_example =
    entry_count-live set_a 2 (omega (arith, one_node)) (omega (arith, one_node))

-- a catalog whose tables in memory are named by the number of their columns
abbrev new_catalog : Catalog ℕ ℕ ℕ
new_catalog = catalog_create

abbrev columns_of : Option ℕ → List ℕ → List ℕ → List TypeId → ℕ
columns_of storage schema_name table_name types = length types

abbrev all_granted : EntryMemory
all_granted = record { name = true; entry = true; columns = true }

abbrev schema_s : CreateSchemaInfo
schema_s = record { schema_name = name_a; if_not_exists = false }

catalog_narrow : new_catalog.schemas.nodes.nbuckets * 2 < 2 ^ 64
unfolding catalog_create catalog_set_init hmap_init_str hmap_init
catalog_narrow = omega arith

abbrev with_schema : CatalogResult × Catalog ℕ ℕ ℕ
with_schema = catalog_create_schema all_granted plenty new_catalog schema_s

no_schema : catalog_get_schema new_catalog name_a ≡ none
unfolding catalog_get_schema catalog_set_get_entry catalog_create catalog_set_init hmap_init_str
    hmap_init hmap_get
no_schema = refl

get_table-create_schema_example :
    IsCatalog with_schema.1
    × (catalog_get_table with_schema.1 name_a name_b ≡ catalog_get_table new_catalog name_a name_b)
get_table-create_schema_example =
    get_table-create_schema new_catalog catalog_create-IsCatalog catalog_narrow plenty schema_s
      all_granted name_a name_b

with_schema-IsCatalog : IsCatalog with_schema.1
with_schema-IsCatalog =
    (get_table-create_schema new_catalog catalog_create-IsCatalog catalog_narrow plenty schema_s
      all_granted name_a name_b).0

abbrev own_s : SchemaCatalogEntry ℕ ℕ
own_s = record { tables = catalog_set_init; indexes = catalog_set_init }

schema_there : catalog_view with_schema.1.schemas name_a ≡ some own_s
unfolding catalog_view catalog_create_schema catalog_set_create_entry create_first hmap_insert
    link_entry catalog_create catalog_set_init hmap_init_str hmap_init hmap_get make_schema_entry
    with_schemas catalog_set_get_entry
schema_there = refl

own_narrow : own_s.tables.nodes.nbuckets * 2 < 2 ^ 64
unfolding catalog_set_init hmap_init_str hmap_init
own_narrow = omega arith

abbrev table_t : CreateTableInfo
table_t = record {
  schema_name = name_a;
  table_name = name_b;
  if_not_exists = false;
  columns =
      record { name = name_a; oid = 0; type = integer; options = unset }
      ∷ record { name = name_b; oid = 1; type = vector; options = vector_dim 3 }
      ∷ [];
}

abbrev with_table : CatalogResult × Catalog ℕ ℕ ℕ
with_table = catalog_create_table columns_of all_granted plenty with_schema.1 table_t

no_table : catalog_set_get_entry own_s.tables name_b ≡ none
unfolding catalog_set_get_entry catalog_set_init hmap_init_str hmap_init hmap_get
no_table = refl

get_table-create_table_new_example :
    (with_table.0 ≡ done)
    × (entry : TableCatalogEntry ℕ ℕ) × (catalog_get_table with_table.1 name_a name_b ≡ some entry)
    × (catalog_get_schema with_schema.1 name_a ≡ some entry.schema_entry)
    × (entry.columns ≡ table_t.columns)
    × (entry.datatable
        ≡ columns_of with_schema.1.storage name_a name_b (internal_types table_t.columns))
get_table-create_table_new_example =
    get_table-create_table_new columns_of with_schema.1 with_schema-IsCatalog table_t own_s
      schema_there own_narrow plenty all_granted refl refl refl no_table

get_table-create_table_other_example :
    catalog_get_table with_table.1 name_a name_a ≡ catalog_get_table with_schema.1 name_a name_a
unfolding hmap_str_cmp
get_table-create_table_other_example =
    get_table-create_table_other columns_of with_schema.1 with_schema-IsCatalog table_t own_s
      schema_there own_narrow plenty all_granted name_a name_a refl

made_table :
    (entry : TableCatalogEntry ℕ ℕ) × (catalog_get_table with_table.1 name_a name_b ≡ some entry)
made_table =
    let made =
      get_table-create_table_new columns_of with_schema.1 with_schema-IsCatalog table_t own_s
        schema_there own_narrow plenty all_granted refl refl refl no_table in
    (made.1, made.2)

with_table-IsCatalog : IsCatalog with_table.1
with_table-IsCatalog =
    create_table-IsCatalog columns_of with_schema.1 with_schema-IsCatalog table_t own_s schema_there
      own_narrow plenty all_granted

-- the table's entry, at the address after its dummy
abbrev entry_t : CatalogEntry (TableCatalogEntry ℕ ℕ)
entry_t = make_table_entry columns_of with_schema.1 1 name_b table_t

abbrev own_t : SchemaCatalogEntry ℕ ℕ
own_t = record own_s { tables = (catalog_set_create_entry plenty own_s.tables name_b entry_t).1 }

table_there : catalog_view with_table.1.schemas name_a ≡ some own_t
unfolding catalog_view catalog_create_schema catalog_set_create_entry create_first hmap_insert
    link_entry catalog_create catalog_set_init hmap_init_str hmap_init hmap_get make_schema_entry
    with_schemas catalog_set_get_entry catalog_create_table make_table_entry set_body
    catalog_get_schema create_table_in
table_there = refl

own_t_narrow : own_t.tables.nodes.nbuckets * 2 < 2 ^ 64
unfolding catalog_set_init hmap_init_str hmap_init catalog_set_create_entry hmap_get create_first
    hmap_insert
own_t_narrow = omega arith

abbrev with_table_again : CatalogResult × Catalog ℕ ℕ ℕ
with_table_again = catalog_create_table columns_of all_granted plenty with_table.1 table_t

create_table-exists_example :
    (with_table_again.0 ≡ exists)
    × (catalog_get_table with_table_again.1 name_a name_b
        ≡ catalog_get_table with_table.1 name_a name_b)
create_table-exists_example =
    create_table-exists columns_of with_table.1 with_table-IsCatalog table_t own_t table_there
      own_t_narrow plenty all_granted refl made_table.0 name_a name_b made_table.1

abbrev without_schema : CatalogResult × Catalog ℕ ℕ ℕ
without_schema = catalog_drop_schema true with_table.1 name_a

get_table-drop_schema_example :
    IsCatalog without_schema.1
    × (catalog_get_table without_schema.1 name_a name_b ≡ (
        if (true && not (hmap_str_cmp name_a default_schema)) && hmap_str_cmp name_a name_a
        then none
        else catalog_get_table with_table.1 name_a name_b))
get_table-drop_schema_example =
    get_table-drop_schema with_table.1 with_table-IsCatalog true name_a name_a name_b
