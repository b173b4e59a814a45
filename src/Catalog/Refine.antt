-- ===== src/Catalog/Refine.antt =====
-- catalogSet_create_entry and catalogSet_drop_entry as operations on a partial map.
use mustdb.Catalog.Create.{IsUpdate, IsFresh, first-result}
use mustdb.Hmap.{hmap_get}
use mustdb.Catalog.Sets.{IsCatalogSet}
use mustdb.Catalog.View.{visible, catalog_view, get_entry-absent, get_entry-found}
use mustdb.Catalog.{
  CatalogEntry, CatalogSet, CreateMemory, entry_at, catalog_set_create_entry, catalog_set_get_entry,
  catalog_set_drop_entry,
}
use mustdb.Hmap.Chain.{same-cases}
use mustdb.Hmap.Keys.{hmap_str_cmp, hmap_str_cmp-IsEquality}
use mustdb.Prelude.{
  ℕ, ◌*◌, ◌^◌, ◌<◌, ◌≡◌, ◌⊎◌, inl, inr, refl, sym, ap, ◌∙◌, Bool, true, false, Option, none, some,
  List, if◌then◌else◌, not, ◌&&◌, ◌||◌, Bool-cases, Option-cases, ◌≢◌,
}
use mustdb.Catalog.Laws.{
  create_entry-IsUpdate, create_absent, create_deleted, create_exists, drop_entry-IsUpdate,
  drop_entry-missing,
}

-- an update, by a test of the name
module _ {P : Type 0} (s : CatalogSet P) (name : List ℕ) (body : Option P) (r : Bool × CatalogSet P)
    (update : IsUpdate s name body r) where
  pub view-update :
      (j : List ℕ)
      → catalog_view r.1 j ≡ (if r.0 && hmap_str_cmp name j then body else catalog_view s j)
  view-update j = elim (same-cases hmap_str_cmp hmap_str_cmp-IsEquality name j) [
    | inl (t, same) ↦ ap (catalog_view r.1) (sym same) ∙ update.1 ∙ here t same (Bool-cases r.0)
    | inr (f, ne) ↦ update.2 j ne ∙ sym (away f (Bool-cases r.0))
  ]
    where
      here :
          hmap_str_cmp name j ≡ true
          → name ≡ j
          → (r.0 ≡ true) ⊎ (r.0 ≡ false)
          → (if r.0 then body else catalog_view s name)
            ≡ (if r.0 && hmap_str_cmp name j then body else catalog_view s j)
      here t same (inl d) = rw (d, t) refl
      here t same (inr d) = rw d (ap (catalog_view s) same)

      away :
          hmap_str_cmp name j ≡ false
          → (r.0 ≡ true) ⊎ (r.0 ≡ false)
          → (if r.0 && hmap_str_cmp name j then body else catalog_view s j) ≡ catalog_view s j
      away f (inl d) = rw (d, f) refl
      away f (inr d) = rw d refl

-- whether a lookup found something
unfoldable pub is_there {ℓ} : {A : Type ℓ} → Option A → Bool
is_there none = false
is_there (some a) = true

-- The name has no entry that is not deleted, and there is a node for it, or memory for one, for
-- its key and for the dummy.
abbrev pub can_create : {P : Type 0} → CatalogSet P → List ℕ → CreateMemory → Bool
can_create s name memory =
    not (is_there (catalog_set_get_entry s name))
    && (is_there (hmap_get s.nodes name) || ((memory.name_copy && memory.dummy) && memory.node))

create_entry-result :
    {P : Type 0} (s : CatalogSet P) (name : List ℕ) (memory : CreateMemory) (value : CatalogEntry P)
    → IsCatalogSet s
    → s.nodes.nbuckets * 2 < 2 ^ 64
    → IsFresh name value
    → (catalog_set_create_entry memory s name value).0 ≡ can_create s name memory
unfolding is_there
create_entry-result s name memory value w narrow fresh =
    elim (Option-cases (hmap_get s.nodes name)) [
      | inl absent ↦
          ap (λ r. r.0) (create_absent s name memory value absent)
          ∙ first-result s w name memory value fresh narrow absent
          ∙ rw (get_entry-absent s name absent, absent) refl
      | inr (node, found) ↦ elim (Bool-cases (entry_at s node.value).deleted) [
        | inl d ↦
            ap (λ r. r.0) (create_deleted s name memory value node found d)
            ∙ rw (get_entry-found s name node found, d, found) refl
        | inr d ↦
            ap (λ r. r.0) (create_exists s name memory value node found d)
            ∙ rw (get_entry-found s name node found, d) refl
      ]
    ]

drop_entry-result :
    {P : Type 0} (s : CatalogSet P) (name : List ℕ) (granted : Bool)
    → (catalog_set_drop_entry granted s name).0 ≡ is_there (hmap_get s.nodes name)
unfolding catalog_set_drop_entry is_there
drop_entry-result s name granted = elim (Option-cases (hmap_get s.nodes name)) [
  | inl absent ↦ rw (catalog_set_drop_entry, absent) refl
  | inr (node, found) ↦ rw (catalog_set_drop_entry, found) refl
]

-- catalogSet_create_entry refines the partial map from names to bodies: in a well-formed set
-- whose doubled number of buckets is a usize, with an entry made for the name, and whatever
-- memory is granted, the set stays well-formed, the call returns true just where a lookup did not
-- find the name and there was a node for it or memory for the key, the dummy and the node, and
-- then a lookup finds the new body under the name, if the new entry is not marked as deleted
-- itself; it finds what it found before under any other name, and under the name where the call
-- returns false.
pub view-create_entry :
    {P : Type 0} (s : CatalogSet P) (name : List ℕ) (memory : CreateMemory) (value : CatalogEntry P)
    (j : List ℕ)
    → IsCatalogSet s
    → s.nodes.nbuckets * 2 < 2 ^ 64
    → IsFresh name value
    → let r = catalog_set_create_entry memory s name value in
      IsCatalogSet r.1
      × (r.0 ≡ can_create s name memory)
      × (catalog_view r.1 j ≡ (
          if can_create s name memory && hmap_str_cmp name j
          then visible value
          else catalog_view s j))
view-create_entry s name memory value j w narrow fresh =
    let r = catalog_set_create_entry memory s name value in
    let update = create_entry-IsUpdate s w name narrow memory value fresh in
    let result = create_entry-result s name memory value w narrow fresh in
    (
      update.0,
      result,
      view-update s name (visible value) r update j
          ∙ ap (λ (b : Bool). if b && hmap_str_cmp name j then visible value else catalog_view s j)
              result,
    )

-- catalogSet_drop_entry refines the partial map: in a well-formed set it keeps the set well-
-- formed, returns true just where there is a node for the name, and where memory is granted a
-- lookup then finds nothing under the name, and what it found before under any other name, or
-- where memory is refused.
pub view-drop_entry :
    {P : Type 0} (s : CatalogSet P) (name : List ℕ) (granted : Bool) (j : List ℕ)
    → IsCatalogSet s
    → let r = catalog_set_drop_entry granted s name in
      IsCatalogSet r.1
      × (r.0 ≡ is_there (hmap_get s.nodes name))
      × (catalog_view r.1 j ≡ (if granted && hmap_str_cmp name j then none else catalog_view s j))
view-drop_entry s name granted j w =
    let r = catalog_set_drop_entry granted s name in
    let update = drop_entry-IsUpdate s w name granted in
    (
      update.0,
      drop_entry-result s name granted,
      view-update s name none (granted && r.0, r.1) update j
          ∙ missing granted r.0 (drop_entry-missing s w name granted)
              (same-cases hmap_str_cmp hmap_str_cmp-IsEquality name j),
    )
  where
    -- what is not there is not found before either
    missing :
        (g dropped : Bool)
        → (dropped ≡ false → catalog_view s name ≡ none)
        → ((hmap_str_cmp name j ≡ true) × (name ≡ j)) ⊎ ((hmap_str_cmp name j ≡ false) × (name ≢ j))
        → (if (g && dropped) && hmap_str_cmp name j then none else catalog_view s j)
          ≡ (if g && hmap_str_cmp name j then none else catalog_view s j)
    missing false dropped absent same = refl
    missing true true absent same = refl
    missing true false absent (inl (t, same)) = rw t (ap (catalog_view s) (sym same) ∙ absent refl)
    missing true false absent (inr (f, ne)) = rw f refl
