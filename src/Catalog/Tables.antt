-- ===== src/Catalog/Tables.antt =====
-- The catalog as a map from the names of schemas and tables to tables, and what creating and dropping
-- schemas and creating tables do to it.
use mustdb.Catalog.Create.{IsUpdate}
use mustdb.Catalog.Laws.{set_init-IsCatalogSet}
use mustdb.Catalog.Refine.{view-update}
use mustdb.Catalog.Schemas.{
  Catalog, catalog_create, SchemaCatalogEntry, table_in, with_schemas, catalog_get_schema,
  catalog_get_table,
}
use mustdb.Catalog.Sets.{IsCatalogSet}
use mustdb.Catalog.View.{catalog_view}
use mustdb.Catalog.{CatalogSet, catalog_set_get_entry}
use mustdb.Hmap.Chain.{same-cases}
use mustdb.Hmap.Keys.{hmap_str_cmp}
use mustdb.Prelude.{
  ℕ, ◌≡◌, ◌≢◌, inl, inr, refl, sym, ap, ◌∙◌, Bool, true, false, Option, none, some, List, [],
  if◌then◌else◌, ◌&&◌, Bool-cases, Option-cases,
}

-- The sets of the catalog and of its schemas are well-formed.
pub record IsCatalog {D T M : Type 0} (c : Catalog D T M) : Type 0 where
  pub schemas : IsCatalogSet c.schemas
  pub tables :
      (k : List ℕ) (own : SchemaCatalogEntry D T)
      → catalog_view c.schemas k ≡ some own
      → IsCatalogSet own.tables

-- a new catalog has no schemas
pub catalog_create-IsCatalog : {D T M : Type 0} → IsCatalog (catalog_create {D = D} {T = T} {M = M})
unfolding catalog_create
catalog_create-IsCatalog {D = D} {T = T} = record {
  schemas = (set_init-IsCatalogSet {P = SchemaCatalogEntry D T} []).0;
  tables = λ k own e.
      absurd (none≢some own (sym (set_init-IsCatalogSet {P = SchemaCatalogEntry D T} k).1 ∙ e));
}
  where
    none≢some : (own : SchemaCatalogEntry D T) → none ≢ some own
    none≢some own = cc

module _ {D T M : Type 0} (c : Catalog D T M) where
  -- a lookup of a table through the two sets
  pub get_table-view :
      (k t : List ℕ) → catalog_get_table c k t ≡ table_in (catalog_view c.schemas k) t
  unfolding catalog_get_table catalog_get_schema catalog_view
  get_table-view k t = elim (Option-cases (catalog_set_get_entry c.schemas k)) [
    | inl e ↦ rw (catalog_get_table, catalog_get_schema, e) refl
    | inr (a, e) ↦ rw (catalog_get_table, catalog_get_schema, e) refl
  ]

module _ {D T M : Type 0} (c : Catalog D T M) where
  module _ (w : IsCatalog c) (name : List ℕ) (body : Option (SchemaCatalogEntry D T))
      (r : Bool × CatalogSet (SchemaCatalogEntry D T))
      (update : IsUpdate c.schemas name body r) where
    abbrev updated : Catalog D T M
    updated = with_schemas c r.1

    view_updated : (k : List ℕ) → catalog_view updated.schemas k ≡ catalog_view r.1 k
    unfolding with_schemas
    view_updated k = refl

    -- the body that the name has, by what `r` says
    pub body_new : r.0 ≡ true → catalog_view r.1 name ≡ body
    body_new d = update.1 ∙ ap (λ (b : Bool). if b then body else catalog_view c.schemas name) d

    pub body_old : r.0 ≡ false → catalog_view r.1 name ≡ catalog_view c.schemas name
    body_old d = update.1 ∙ ap (λ (b : Bool). if b then body else catalog_view c.schemas name) d

    pub updated-IsCatalog :
        ((own : SchemaCatalogEntry D T) → body ≡ some own → IsCatalogSet own.tables)
        → IsCatalog updated
    unfolding with_schemas
    updated-IsCatalog sound = record {
      schemas = update.0;
      tables = λ k own e. elim (same-cases c.schemas.nodes.key_compare w.schemas.map.law name k) [
        | inl (_, same) ↦
            let here = ap (catalog_view r.1) same ∙ e in
            elim (Bool-cases r.0) [
              | inl d ↦ sound own (sym (body_new d) ∙ here)
              | inr d ↦ w.tables name own (sym (body_old d) ∙ here)
            ]
        | inr (_, ne) ↦ w.tables k own (sym (update.2 k ne) ∙ e)
      ];
    }

    get_table-updated :
        (k t : List ℕ) → catalog_get_table updated k t ≡ table_in (catalog_view r.1 k) t
    get_table-updated k t =
        get_table-view updated k t
        ∙ ap (λ (o : Option (SchemaCatalogEntry D T)). table_in o t) (view_updated k)

    pub get_table-updated_self :
        (t : List ℕ) → r.0 ≡ true → catalog_get_table updated name t ≡ table_in body t
    get_table-updated_self t d =
        get_table-updated name t
        ∙ ap (λ (o : Option (SchemaCatalogEntry D T)). table_in o t) (body_new d)

    pub get_table-updated_same :
        (k t : List ℕ)
        → catalog_view r.1 k ≡ catalog_view c.schemas k
        → catalog_get_table updated k t ≡ catalog_get_table c k t
    get_table-updated_same k t e =
        get_table-updated k t
        ∙ ap (λ (o : Option (SchemaCatalogEntry D T)). table_in o t) e
        ∙ sym (get_table-view c k t)

    pub get_table-updated_other :
        (k t : List ℕ) → name ≢ k → catalog_get_table updated k t ≡ catalog_get_table c k t
    get_table-updated_other k t ne = get_table-updated_same k t (update.2 k ne)

    pub get_table-updated_test :
        (k t : List ℕ)
        → catalog_get_table updated k t
          ≡ (if r.0 && hmap_str_cmp name k then table_in body t else catalog_get_table c k t)
    get_table-updated_test k t =
        get_table-updated k t
        ∙ ap (λ (o : Option (SchemaCatalogEntry D T)). table_in o t)
            (view-update c.schemas name body r update k)
        ∙ branch (r.0 && hmap_str_cmp name k)
      where
        branch :
            (b : Bool)
            → table_in (if b then body else catalog_view c.schemas k) t
              ≡ (if b then table_in body t else catalog_get_table c k t)
        branch true = refl
        branch false = sym (get_table-view c k t)
