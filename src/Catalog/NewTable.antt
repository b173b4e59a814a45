-- ===== src/Catalog/NewTable.antt =====
-- What catalog_create_table promises.
use mustdb.Catalog.Body.{
  get_entry-lt, set_body-IsCatalogSet, view-set_body_self, view-set_body_other,
}
use mustdb.Catalog.Create.{IsUpdate, IsFresh}
use mustdb.Catalog.Laws.{create_entry-exists, create_entry-IsUpdate, create_entry-succeeds}
use mustdb.Catalog.Refine.{view-update}
use mustdb.Catalog.Schemas.{
  Catalog, SchemaCatalogEntry, TableCatalogEntry, EntryMemory, done, failed, exists, create_result,
  set_body, table_in, with_schemas, catalog_get_schema, catalog_get_table, make_table_entry,
  create_table_in, catalog_create_table, internal_types,
}
use mustdb.Catalog.Sets.{IsCatalogSet, some_eq}
use mustdb.Catalog.Tables.{IsCatalog, get_table-view, updated-IsCatalog, get_table-updated_test}
use mustdb.Catalog.View.{visible, catalog_view, view-entry}
use mustdb.Catalog.{
  CatalogEntry, CatalogSet, CreateMemory, entry_at, catalog_set_create_entry, catalog_set_get_entry,
}
use mustdb.Hmap.Keys.{hmap_str_cmp, hmap_str_cmp-IsEquality, str_cmp_self}
use mustdb.Parser.{TypeId, CreateTableInfo}
use mustdb.Prelude.{
  ℕ, ◌*◌, ◌^◌, ◌<◌, ◌≡◌, inl, inr, refl, sym, ap, ◌∙◌, Bool, true, false, Option, none, some, List,
  if◌then◌else◌, ◌&&◌, Bool-cases,
}
use mathlib.Core.Path.{subst}

-- two tests, the second one only where the first one holds
nested {ℓ} :
    {A : Type ℓ} (b p q : Bool) (x y z : A)
    → (p ≡ true → y ≡ z)
    → (if p then if b && q then x else y else z) ≡ (if b && (p && q) then x else z)
nested true true true x y z h = refl
nested true true false x y z h = h refl
nested true false q x y z h = refl
nested false true q x y z h = h refl
nested false false q x y z h = refl

module _ {D T M : Type 0} (datatable_create : Option M → List ℕ → List ℕ → List TypeId → D)
    (c : Catalog D T M) (w : IsCatalog c) (info : CreateTableInfo) (own : SchemaCatalogEntry D T)
    (there : catalog_view c.schemas info.schema_name ≡ some own)
    (narrow : own.tables.nodes.nbuckets * 2 < 2 ^ 64) (memory : CreateMemory) where
  abbrev schema_at : ℕ
  schema_at = (view-entry c.schemas info.schema_name own there).0

  schema_found : catalog_set_get_entry c.schemas info.schema_name ≡ some schema_at
  schema_found = (view-entry c.schemas info.schema_name own there).1

  schema_body : (entry_at c.schemas schema_at).body ≡ some own
  schema_body = (view-entry c.schemas info.schema_name own there).2

  abbrev own_table : CatalogEntry (TableCatalogEntry D T)
  own_table = make_table_entry datatable_create c schema_at info.table_name info

  abbrev created : Bool × CatalogSet (TableCatalogEntry D T)
  created = catalog_set_create_entry memory own.tables info.table_name own_table

  table-IsFresh : IsFresh info.table_name own_table
  unfolding make_table_entry
  table-IsFresh = record { named = refl; orphan = refl }

  own-IsCatalogSet : IsCatalogSet own.tables
  own-IsCatalogSet = w.tables info.schema_name own there

  created-IsUpdate : IsUpdate own.tables info.table_name (visible own_table) created
  created-IsUpdate =
      create_entry-IsUpdate own.tables own-IsCatalogSet info.table_name narrow memory own_table
        table-IsFresh

  abbrev grown : SchemaCatalogEntry D T
  grown = record own { tables = created.1 }

  schemas-IsUpdate :
      IsUpdate c.schemas info.schema_name (some grown) (true, set_body c.schemas schema_at grown)
  schemas-IsUpdate = (
    set_body-IsCatalogSet c.schemas schema_at grown
        (get_entry-lt c.schemas w.schemas info.schema_name schema_at schema_found) w.schemas,
    view-set_body_self c.schemas w.schemas info.schema_name schema_at schema_found grown,
    view-set_body_other c.schemas w.schemas info.schema_name schema_at schema_found grown,
  )

  abbrev after : Catalog D T M
  after = with_schemas c (set_body c.schemas schema_at grown)

  after-IsCatalog : IsCatalog after
  after-IsCatalog =
      updated-IsCatalog c w info.schema_name (some grown) (true, set_body c.schemas schema_at grown)
        schemas-IsUpdate
        (λ o e.
          subst IsCatalogSet (ap (λ (x : SchemaCatalogEntry D T). x.tables) (some_eq e))
            created-IsUpdate.0)

  get_table-after :
      (k t : List ℕ)
      → catalog_get_table after k t ≡ (
          if created.0 && (hmap_str_cmp info.schema_name k && hmap_str_cmp info.table_name t)
          then visible own_table
          else catalog_get_table c k t)
  get_table-after k t =
      get_table-updated_test c w info.schema_name (some grown)
        (true, set_body c.schemas schema_at grown) schemas-IsUpdate k t
      ∙ ap
          (λ (o : Option (TableCatalogEntry D T)).
            if hmap_str_cmp info.schema_name k then o else catalog_get_table c k t)
          (view-update own.tables info.table_name (visible own_table) created created-IsUpdate t)
      ∙ nested created.0 (hmap_str_cmp info.schema_name k) (hmap_str_cmp info.table_name t)
          (visible own_table) (catalog_view own.tables t) (catalog_get_table c k t)
          (λ e. sym (
            get_table-view c k t
            ∙ ap (λ (o : Option (SchemaCatalogEntry D T)). table_in o t)
                (ap (catalog_view c.schemas)
                    (sym ((hmap_str_cmp-IsEquality info.schema_name k).0 e))
                  ∙ there)))

  -- the two outcomes for a schema that is there
  create_table-granted :
      (first : EntryMemory)
      → (first.name && (first.entry && first.columns)) ≡ true
      → catalog_create_table datatable_create first memory c info
        ≡ (create_result info.if_not_exists created.0, after)
  unfolding catalog_create_table catalog_get_schema create_table_in
  create_table-granted first g =
      rw (catalog_create_table, catalog_get_schema, schema_found, schema_body, g) refl

  create_table-refused :
      (first : EntryMemory)
      → (first.name && (first.entry && first.columns)) ≡ false
      → catalog_create_table datatable_create first memory c info ≡ (failed, c)
  unfolding catalog_create_table catalog_get_schema
  create_table-refused first g =
      rw (catalog_create_table, catalog_get_schema, schema_found, schema_body, g) refl

  old_table :
      catalog_get_table c info.schema_name info.table_name ≡ catalog_view own.tables info.table_name
  old_table =
      get_table-view c info.schema_name info.table_name
      ∙ ap (λ (o : Option (SchemaCatalogEntry D T)). table_in o info.table_name) there

  -- catalog_create_table keeps a well-formed catalog well-formed.
  pub create_table-IsCatalog :
      (first : EntryMemory)
      → IsCatalog (catalog_create_table datatable_create first memory c info).1
  create_table-IsCatalog first = elim (Bool-cases (first.name && (first.entry && first.columns))) [
    | inl g ↦ rw (create_table-granted first g) after-IsCatalog
    | inr g ↦ rw (create_table-refused first g) w
  ]

  -- catalog_create_table for a schema that is there leaves what is found under any other pair of
  -- names as it was, whatever memory is granted, in a well-formed catalog in which the doubled
  -- number of buckets of the tables of the schema is a usize.
  pub get_table-create_table_other :
      (first : EntryMemory) (k t : List ℕ)
      → (hmap_str_cmp info.schema_name k && hmap_str_cmp info.table_name t) ≡ false
      → catalog_get_table (catalog_create_table datatable_create first memory c info).1 k t
        ≡ catalog_get_table c k t
  get_table-create_table_other first k t apart =
      elim (Bool-cases (first.name && (first.entry && first.columns))) [
        | inl g ↦ rw (create_table-granted first g) (get_table-after k t ∙ kept created.0)
        | inr g ↦ rw (create_table-refused first g) refl
      ]
    where
      kept :
          (b : Bool)
          → (if b && (hmap_str_cmp info.schema_name k && hmap_str_cmp info.table_name t)
              then visible own_table
              else catalog_get_table c k t)
            ≡ catalog_get_table c k t
      kept true = rw apart refl
      kept false = refl

  -- what the common part of the table's entry extends to
  abbrev new_entry : TableCatalogEntry D T
  new_entry = record {
    schema_entry = schema_at;
    datatable =
        datatable_create c.storage info.schema_name info.table_name (internal_types info.columns);
    storage_table = none;
    columns = info.columns;
  }

  module _ (first : EntryMemory)
      (granted : (first.name && (first.entry && first.columns)) ≡ true) where
    -- catalog_create_table of a table that is there returns -2, or 0 with if_not_exists, and
    -- changes no lookup of a table: in a well-formed catalog, where the entry of the table gets
    -- memory and the doubled number of buckets of the tables of the schema is a usize.
    pub create_table-exists :
        (old : TableCatalogEntry D T) (k t : List ℕ)
        → catalog_get_table c info.schema_name info.table_name ≡ some old
        → let r = catalog_create_table datatable_create first memory c info in
          (r.0 ≡ (if info.if_not_exists then done else exists))
          × (catalog_get_table r.1 k t ≡ catalog_get_table c k t)
    unfolding create_result
    create_table-exists old k t e =
        let (a, found, _) = view-entry own.tables info.table_name old (sym old_table ∙ e) in
        let same : created ≡ (false, own.tables) =
          create_entry-exists own.tables info.table_name memory own_table a found in
        let not_created = ap (λ (p : Bool × CatalogSet (TableCatalogEntry D T)). p.0) same in
        rw (create_table-granted first granted) (
          ap (create_result info.if_not_exists) not_created,
          get_table-after k t
              ∙ ap
                  (λ (b : Bool).
                    if b && (hmap_str_cmp info.schema_name k && hmap_str_cmp info.table_name t)
                    then visible own_table
                    else catalog_get_table c k t)
                  not_created,
        )

    -- With memory, in a well-formed catalog whose schema is there and has no such table,
    -- catalog_create_table returns 0, and catalog_get_table then finds a table that belongs to
    -- the schema, has the columns of the request, and holds what Datatable_create made for the
    -- internal types of these columns (the doubled number of buckets of the schema is a usize).
    pub get_table-create_table_new :
        (memory.name_copy && memory.dummy) ≡ true
        → memory.node ≡ true
        → catalog_set_get_entry own.tables info.table_name ≡ none
        → let r = catalog_create_table datatable_create first memory c info in
          (r.0 ≡ done)
          × (entry : TableCatalogEntry D T) × (catalog_get_table r.1 info.schema_name
                info.table_name
              ≡ some entry)
          × (catalog_get_schema c info.schema_name ≡ some entry.schema_entry)
          × (entry.columns ≡ info.columns)
          × (entry.datatable
              ≡ datatable_create c.storage info.schema_name info.table_name
                  (internal_types info.columns))
    unfolding create_result make_table_entry catalog_get_schema
    get_table-create_table_new copied stored free =
        let success =
          create_entry-succeeds own.tables own-IsCatalogSet info.table_name memory own_table narrow
            copied stored free in
        let here =
          get_table-after info.schema_name info.table_name
          ∙ rw (success, str_cmp_self info.schema_name, str_cmp_self info.table_name) refl in
        rw (create_table-granted first granted)
          (ap (create_result info.if_not_exists) success, new_entry, here, schema_found, refl, refl)
