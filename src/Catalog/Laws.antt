-- ===== src/Catalog/Laws.antt =====
-- What catalogSet_init, catalogSet_create_entry and catalogSet_drop_entry do to the map from names to
-- bodies.
use mustdb.Catalog.Create.{IsUpdate, IsFresh, unchanged, link-IsUpdate, first-IsUpdate, done}
use mustdb.Catalog.Sets.{IsCatalogSet}
use mustdb.Catalog.View.{visible, catalog_view, view-absent, get_entry-found, get_entry-node}
use mustdb.Catalog.{
  CatalogEntry, CatalogSet, CreateMemory, invalid, entry_at, make_entry, link_entry, create_first,
  catalog_set_init, catalog_set_create_entry, catalog_set_get_entry, catalog_set_drop_entry,
  catalog_set_drop_entry_impl,
}
use mustdb.Hash.{hmap_str_hash}
use mustdb.Hmap.Keys.{hmap_init_str, hmap_str_cmp, hmap_str_cmp-IsEquality}
use mustdb.Hmap.Laws.{hmap_init-IsMap}
use mustdb.Hmap.Value.{insert-absent}
use mustdb.Hmap.{HmapNode, hmap_get, hmap_default_nbuckets}
use mustdb.Prelude.{
  ℕ, arith, ◌*◌, ◌^◌, ◌<◌, ◌≡◌, ◌≢◌, inl, inr, refl, sym, ap, ◌∙◌, Bool, true, false, none, some,
  List, length, ◌&&◌, Bool-cases, Option-cases,
}
use mathlib.Core.Path.{subst}

-- A new set is well-formed and maps no name.
pub set_init-IsCatalogSet :
    {P : Type 0} (k : List ℕ)
    → IsCatalogSet (catalog_set_init {P = P}) × (catalog_view (catalog_set_init {P = P}) k ≡ none)
unfolding catalog_set_init hmap_init_str
set_init-IsCatalogSet k =
    let start = λ (j : List ℕ).
      hmap_init-IsMap hmap_default_nbuckets hmap_str_hash hmap_str_cmp j hmap_str_cmp-IsEquality
        (omega arith) in
    (
      record {
        map = (start k).0;
        heads = λ j node e. absurd (none≢some node (sym (start j).1 ∙ e));
        links = λ a b lt e. absurd (omega arith);
      },
      view-absent catalog_set_init k (start k).1,
    )
  where
    none≢some : (n : HmapNode (List ℕ) ℕ) → none ≢ some n
    none≢some n = cc

module _ {P : Type 0} (s : CatalogSet P) (name : List ℕ) (memory : CreateMemory)
    (value : CatalogEntry P) where
  -- the three branches of catalogSet_create_entry
  pub create_absent :
      hmap_get s.nodes name ≡ none
      → catalog_set_create_entry memory s name value ≡ create_first memory s name value
  unfolding catalog_set_create_entry
  create_absent e = rw (catalog_set_create_entry, e) refl

  module _ (node : HmapNode (List ℕ) ℕ) (found : hmap_get s.nodes name ≡ some node) where
    pub create_deleted :
        (entry_at s node.value).deleted ≡ true
        → catalog_set_create_entry memory s name value ≡ (true, link_entry s name node.value value)
    unfolding catalog_set_create_entry
    create_deleted d = rw (catalog_set_create_entry, found, d) refl

    pub create_exists :
        (entry_at s node.value).deleted ≡ false
        → catalog_set_create_entry memory s name value ≡ (false, s)
    unfolding catalog_set_create_entry
    create_exists d = rw (catalog_set_create_entry, found, d) refl

  -- A name that is found is not created again, and the set is left as it was.
  pub create_entry-exists :
      (a : ℕ)
      → catalog_set_get_entry s name ≡ some a
      → catalog_set_create_entry memory s name value ≡ (false, s)
  create_entry-exists a e =
      let (node, found, _, live) = get_entry-node s name a e in create_exists node found live

module _ {P : Type 0} (s : CatalogSet P) (w : IsCatalogSet s) (name : List ℕ) where
  module _ (narrow : s.nodes.nbuckets * 2 < 2 ^ 64) (memory : CreateMemory) (value : CatalogEntry P)
      (fresh : IsFresh name value) where
    -- catalogSet_create_entry changes at most what is found under the name.
    pub create_entry-IsUpdate :
        IsUpdate s name (visible value) (catalog_set_create_entry memory s name value)
    create_entry-IsUpdate = elim (Option-cases (hmap_get s.nodes name)) [
      | inl absent ↦
          subst (IsUpdate s name (visible value)) (sym (create_absent s name memory value absent))
            (first-IsUpdate s w name memory value fresh narrow absent)
      | inr (node, found) ↦ elim (Bool-cases (entry_at s node.value).deleted) [
        | inl d ↦
            subst (IsUpdate s name (visible value))
              (sym (create_deleted s name memory value node found d))
              (link-IsUpdate s w name node value found fresh)
        | inr d ↦
            subst (IsUpdate s name (visible value))
              (sym (create_exists s name memory value node found d))
              (unchanged s w name (visible value))
      ]
    ]

  -- With memory, a name that is not found is created.
  pub create_entry-succeeds :
      (memory : CreateMemory) (value : CatalogEntry P)
      → s.nodes.nbuckets * 2 < 2 ^ 64
      → (memory.name_copy && memory.dummy) ≡ true
      → memory.node ≡ true
      → catalog_set_get_entry s name ≡ none
      → (catalog_set_create_entry memory s name value).0 ≡ true
  create_entry-succeeds memory value narrow granted stored free =
      elim (Option-cases (hmap_get s.nodes name)) [
        | inl absent ↦
            ap (λ p. p.0) (create_absent s name memory value absent)
            ∙ ap (λ p. p.0)
                (done s w name memory value granted
                  (record { key = name; value = length s.entries })
                  (insert-absent s.nodes w.map name narrow absent memory.buckets memory.node
                      (length s.entries)
                    ∙ rw stored refl))
        | inr (node, found) ↦ elim (Bool-cases (entry_at s node.value).deleted) [
          | inl d ↦ ap (λ p. p.0) (create_deleted s name memory value node found d)
          | inr d ↦
              absurd (none≢some node.value (sym free ∙ get_entry-found s name node found ∙ rw d))
        ]
      ]
    where
      none≢some : (a : ℕ) → none ≢ some a
      none≢some a = cc

  -- the entry that catalogSet_drop_entry_impl makes
  abbrev tombstone : ℕ → CatalogEntry P
  tombstone a = record (make_entry invalid (entry_at s a).name) { deleted = true }

  drop_absent :
      (granted : Bool)
      → hmap_get s.nodes name ≡ none
      → catalog_set_drop_entry granted s name ≡ (false, s)
  unfolding catalog_set_drop_entry
  drop_absent granted absent = rw (catalog_set_drop_entry, absent) refl

  drop_found :
      (node : HmapNode (List ℕ) ℕ)
      → hmap_get s.nodes name ≡ some node
      → catalog_set_drop_entry true s name
        ≡ (true, link_entry s name node.value (tombstone node.value))
  unfolding catalog_set_drop_entry catalog_set_drop_entry_impl
  drop_found node found = rw (catalog_set_drop_entry, found) refl

  drop_refused :
      (node : HmapNode (List ℕ) ℕ)
      → hmap_get s.nodes name ≡ some node
      → catalog_set_drop_entry false s name ≡ (true, s)
  unfolding catalog_set_drop_entry catalog_set_drop_entry_impl
  drop_refused node found = rw (catalog_set_drop_entry, found) refl

  -- a drop that finds no node
  pub drop_entry-missing :
      (granted : Bool)
      → (catalog_set_drop_entry granted s name).0 ≡ false
      → catalog_view s name ≡ none
  unfolding catalog_set_drop_entry
  drop_entry-missing granted e = elim (Option-cases (hmap_get s.nodes name)) [
    | inl absent ↦ view-absent s name absent
    | inr (node, found) ↦ absurd (true≢false (sym (rw (catalog_set_drop_entry, found) refl) ∙ e))
  ]
    where
      true≢false : true ≢ false
      true≢false = cc

  tombstone-IsFresh :
      (node : HmapNode (List ℕ) ℕ)
      → hmap_get s.nodes name ≡ some node
      → IsFresh name (tombstone node.value)
  unfolding make_entry
  tombstone-IsFresh node found = record { named = (w.heads name node found).1; orphan = refl }

  abbrev Dropped : Bool → Bool × CatalogSet P → Type 0
  Dropped granted r = IsUpdate s name none (granted && r.0, r.1)

  -- catalogSet_drop_entry changes at most what is found under the name.
  pub drop_entry-IsUpdate :
      (granted : Bool)
      → IsUpdate s name none (
        granted && (catalog_set_drop_entry granted s name).0,
        (catalog_set_drop_entry granted s name).1,
      )
  drop_entry-IsUpdate granted = elim (Option-cases (hmap_get s.nodes name)) [
    | inl absent ↦ subst (Dropped granted) (sym (drop_absent granted absent)) (absent_case granted)
    | inr (node, found) ↦ found_case granted node found
  ]
    where
      absent_case : (g : Bool) → Dropped g (false, s)
      absent_case true = unchanged s w name none
      absent_case false = unchanged s w name none

      found_case :
          (g : Bool) (node : HmapNode (List ℕ) ℕ)
          → hmap_get s.nodes name ≡ some node
          → Dropped g (catalog_set_drop_entry g s name)
      found_case true node found =
          subst (Dropped true) (sym (drop_found node found)) (
            link-IsUpdate s w name node (tombstone node.value) found (tombstone-IsFresh node found))
      found_case false node found =
          subst (Dropped false) (sym (drop_refused node found)) (unchanged s w name none)
