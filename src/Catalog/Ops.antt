-- ===== src/Catalog/Ops.antt =====
-- What catalog_create_schema, catalog_drop_schema and catalog_create_table promise.
use mathlib.Core.Path.{subst}
use mustdb.Catalog.Create.{IsUpdate, IsFresh}
use mustdb.Catalog.Laws.{
  set_init-IsCatalogSet, create_entry-exists, create_entry-IsUpdate, create_entry-succeeds,
  drop_entry-IsUpdate, drop_entry-missing,
}
use mustdb.Catalog.Schemas.{
  Catalog, SchemaCatalogEntry, TableCatalogEntry, EntryMemory, done, default_schema, create_result,
  make_schema_entry, table_in, with_schemas, catalog_create_schema, catalog_get_schema,
  catalog_drop_schema, catalog_get_table,
}
use mustdb.Catalog.Sets.{IsCatalogSet, some_eq}
use mustdb.Catalog.Tables.{
  IsCatalog, get_table-view, updated-IsCatalog, get_table-updated_self, get_table-updated_same,
  get_table-updated_other, get_table-updated_test, body_old, body_new,
}
use mustdb.Catalog.View.{visible, catalog_view, body_at}
use mustdb.Catalog.{
  CatalogEntry, CatalogSet, CreateMemory, catalog_set_create_entry, catalog_set_get_entry,
  catalog_set_drop_entry,
}
use mustdb.Hmap.Chain.{same-cases}
use mustdb.Hmap.Keys.{hmap_str_cmp, hmap_str_cmp-IsEquality}
use mustdb.Parser.{CreateSchemaInfo}
use mustdb.Prelude.{
  ℕ, ◌*◌, ◌^◌, ◌<◌, ◌≡◌, ◌≢◌, inl, inr, refl, sym, ap, ◌∙◌, Bool, true, false, Option, none, some,
  List, [], if◌then◌else◌, ◌&&◌, not, Bool-cases, Option-cases,
}

-- a test that only counts where the value differs
drop_test {ℓ} :
    {A : Type ℓ} (g d b : Bool) (x y : A)
    → (d ≡ false → b ≡ true → y ≡ x)
    → (if (g && d) && b then x else y) ≡ (if g && b then x else y)
drop_test true true b x y h = refl
drop_test true false true x y h = h refl refl
drop_test true false false x y h = refl
drop_test false d b x y h = refl

and_false : (g : Bool) → g && false ≡ false
and_false true = refl
and_false false = refl

and_true : (g : Bool) → g && true ≡ g
and_true true = refl
and_true false = refl

module _ {D T M : Type 0} (c : Catalog D T M) (w : IsCatalog c) where
  module _ (narrow : c.schemas.nodes.nbuckets * 2 < 2 ^ 64) (memory : CreateMemory)
      (info : CreateSchemaInfo) where
    abbrev own_schema : CatalogEntry (SchemaCatalogEntry D T)
    own_schema = make_schema_entry info.schema_name

    abbrev created : Bool × CatalogSet (SchemaCatalogEntry D T)
    created = catalog_set_create_entry memory c.schemas info.schema_name own_schema

    schema-IsFresh : IsFresh info.schema_name own_schema
    unfolding make_schema_entry
    schema-IsFresh = record { named = refl; orphan = refl }

    created-IsUpdate : IsUpdate c.schemas info.schema_name (visible own_schema) created
    created-IsUpdate =
        create_entry-IsUpdate c.schemas w.schemas info.schema_name narrow memory own_schema
          schema-IsFresh

    -- a new schema has no tables, in a well-formed set
    fresh_table : (t : List ℕ) → table_in (visible own_schema) t ≡ none
    unfolding make_schema_entry
    fresh_table t = (set_init-IsCatalogSet {P = TableCatalogEntry D T} t).1

    fresh_tables-IsCatalogSet :
        (own : SchemaCatalogEntry D T) → visible own_schema ≡ some own → IsCatalogSet own.tables
    unfolding make_schema_entry
    fresh_tables-IsCatalogSet own e =
        subst IsCatalogSet (ap (λ (o : SchemaCatalogEntry D T). o.tables) (some_eq e))
          (set_init-IsCatalogSet {P = TableCatalogEntry D T} []).0

    -- a schema that is not there has no tables
    missing_table :
        (t : List ℕ)
        → catalog_set_get_entry c.schemas info.schema_name ≡ none
        → catalog_get_table c info.schema_name t ≡ none
    unfolding catalog_view
    missing_table t free =
        get_table-view c info.schema_name t
        ∙ ap (λ (o : Option ℕ). table_in (body_at c.schemas o) t) free

    after_create_self :
        (t : List ℕ)
        → catalog_set_get_entry c.schemas info.schema_name ≡ none
        → catalog_get_table (with_schemas c created.1) info.schema_name t
          ≡ catalog_get_table c info.schema_name t
    after_create_self t free = elim (Bool-cases created.0) [
      | inl d ↦
          get_table-updated_self c w info.schema_name (visible own_schema) created created-IsUpdate
            t d
          ∙ fresh_table t
          ∙ sym (missing_table t free)
      | inr d ↦
          get_table-updated_same c w info.schema_name (visible own_schema) created created-IsUpdate
            info.schema_name t
            (body_old c w info.schema_name (visible own_schema) created created-IsUpdate d)
    ]

    -- creating a schema changes no table
    after_create :
        (k t : List ℕ) → catalog_get_table (with_schemas c created.1) k t ≡ catalog_get_table c k t
    after_create k t = elim (Option-cases (catalog_set_get_entry c.schemas info.schema_name)) [
      | inl free ↦ elim (same-cases hmap_str_cmp hmap_str_cmp-IsEquality info.schema_name k) [
        | inl (_, same) ↦
            subst
              (λ (x : List ℕ).
                catalog_get_table (with_schemas c created.1) x t ≡ catalog_get_table c x t)
              same (after_create_self t free)
        | inr (_, ne) ↦
            get_table-updated_other c w info.schema_name (visible own_schema) created
              created-IsUpdate k t ne
      ]
      | inr (a, taken) ↦
          get_table-updated_same c w info.schema_name (visible own_schema) created created-IsUpdate
            k t
            (ap (λ p. catalog_view p.1 k)
              (create_entry-exists c.schemas info.schema_name memory own_schema a taken))
    ]

    -- catalog_create_schema keeps a well-formed catalog well-formed and changes no lookup of a
    -- table, whatever memory is granted (the doubled number of buckets of the schemas is a
    -- usize).
    pub get_table-create_schema :
        (own : EntryMemory) (k t : List ℕ)
        → let r = catalog_create_schema own memory c info in
          IsCatalog r.1 × (catalog_get_table r.1 k t ≡ catalog_get_table c k t)
    unfolding catalog_create_schema
    get_table-create_schema own k t = elim (Bool-cases (own.name && own.entry)) [
      | inl g ↦ rw g (
        updated-IsCatalog c w info.schema_name (visible own_schema) created created-IsUpdate
            fresh_tables-IsCatalogSet,
        after_create k t,
      )
      | inr g ↦ rw g (w, refl)
    ]

    new_visible :
        created.0 ≡ true
        → body_at created.1 (catalog_set_get_entry created.1 info.schema_name) ≢ none
    unfolding catalog_view make_schema_entry
    new_visible d e =
        some≢none
          (sym (body_new c w info.schema_name (visible own_schema) created created-IsUpdate d) ∙ e)
      where
        some≢none : visible own_schema ≢ none
        some≢none = cc

    -- With memory, catalog_create_schema of a schema that is not there returns 0, and
    -- catalog_get_schema then finds it, in a well-formed catalog.
    pub get_schema-create_schema :
        (own : EntryMemory)
        → (own.name && own.entry) ≡ true
        → (memory.name_copy && memory.dummy) ≡ true
        → memory.node ≡ true
        → catalog_get_schema c info.schema_name ≡ none
        → let r = catalog_create_schema own memory c info in
          (r.0 ≡ done) × (catalog_get_schema r.1 info.schema_name ≢ none)
    unfolding catalog_create_schema catalog_get_schema create_result
    get_schema-create_schema own g granted stored free =
        let d =
          create_entry-succeeds c.schemas w.schemas info.schema_name memory own_schema narrow
            granted stored free in
        rw g (rw d refl, λ e. new_visible d (ap (body_at created.1) e))

  module _ (granted : Bool) (name : List ℕ) where
    abbrev dropped : Bool × CatalogSet (SchemaCatalogEntry D T)
    dropped = catalog_set_drop_entry granted c.schemas name

    dropped-IsUpdate : IsUpdate c.schemas name none (granted && dropped.0, dropped.1)
    dropped-IsUpdate = drop_entry-IsUpdate c.schemas w.schemas name granted

    gone_schema : (own : SchemaCatalogEntry D T) → none ≡ some own → IsCatalogSet own.tables
    gone_schema own e = absurd (none≢some e)
      where
        none≢some : none ≢ some own
        none≢some = cc

    after_drop :
        (k t : List ℕ)
        → catalog_get_table (with_schemas c dropped.1) k t
          ≡ (if granted && hmap_str_cmp name k then none else catalog_get_table c k t)
    after_drop k t =
        get_table-updated_test c w name none (granted && dropped.0, dropped.1) dropped-IsUpdate k t
        ∙ drop_test granted dropped.0 (hmap_str_cmp name k) none (catalog_get_table c k t) (λ d e.
          missing d
          ∙ ap (λ (o : Option (SchemaCatalogEntry D T)). table_in o t)
              (ap (catalog_view c.schemas) (sym ((hmap_str_cmp-IsEquality name k).0 e))
                ∙ drop_entry-missing c.schemas w.schemas name granted d))
      where
        missing :
            dropped.0 ≡ false → catalog_get_table c k t ≡ table_in (catalog_view c.schemas k) t
        missing d = get_table-view c k t

  -- catalog_drop_schema in a well-formed catalog keeps it well-formed, and afterwards no table of
  -- the schema is found and every other table is found as before; nothing changes where the
  -- schema is the default one, or the memory for the deleted entry is refused.
  pub get_table-drop_schema :
      (granted : Bool) (name k t : List ℕ)
      → let r = catalog_drop_schema granted c name in
        IsCatalog r.1
        × (catalog_get_table r.1 k t ≡ (
            if (granted && not (hmap_str_cmp name default_schema)) && hmap_str_cmp name k
            then none
            else catalog_get_table c k t))
  unfolding catalog_drop_schema
  get_table-drop_schema granted name k t = elim (Bool-cases (hmap_str_cmp name default_schema)) [
    | inl e ↦ rw (e, and_false granted) (w, refl)
    | inr e ↦
        rw (e, and_true granted)
          (
            updated-IsCatalog c w name none
                (granted && (dropped granted name).0, (dropped granted name).1)
                (dropped-IsUpdate granted name) (gone_schema granted name),
            after_drop granted name k t,
          )
  ]
