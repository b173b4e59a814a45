-- ===== src/Catalog/Create.antt =====
-- The branch of catalogSet_create_entry for a name that no node has.
use mathlib.Core.Path.{subst}
use mustdb.Catalog.Link.{link-IsCatalogSet, view-link_self, view-link_other}
use mustdb.Catalog.Push.{
  with_nodes-IsCatalogSet, view-with_nodes, push-IsCatalogSet, push-found, view-push_other,
}
use mustdb.Catalog.Sets.{IsCatalogSet}
use mustdb.Catalog.View.{visible, catalog_view}
use mustdb.Catalog.{
  CatalogEntry, CatalogSet, CreateMemory, invalid, make_entry, push_entry, with_nodes, link_entry,
  create_first,
}
use mustdb.Hmap.Laws.{hmap_insert-IsMap, get-insert_self, get-insert_other}
use mustdb.Hmap.Buckets.{IsMap}
use mustdb.Hmap.Value.{insert-absent, get-insert_refused, value-node}
use mustdb.Hmap.{Hmap, HmapNode, hmap_get, hmap_insert}
use mustdb.Prelude.{
  ℕ, ◌*◌, ◌^◌, ◌<◌, ◌≡◌, ◌≢◌, inl, inr, refl, sym, ap, ◌∙◌, Bool, true, false, Option, none, some,
  List, length, if◌then◌else◌, ◌&&◌, Bool-cases,
}

module _ {P : Type 0} (s : CatalogSet P) (name : List ℕ) where
  -- `r` is a well-formed set, in which the name has `body` where `r` says that it was put there, and
  -- where all else is as before
  abbrev pub IsUpdate : Option P → Bool × CatalogSet P → Type 0
  IsUpdate body r =
      IsCatalogSet r.1
      × (catalog_view r.1 name ≡ (if r.0 then body else catalog_view s name))
      × ((j : List ℕ) → name ≢ j → catalog_view r.1 j ≡ catalog_view s j)

-- an entry as its maker initialises it, for the name `k`
pub record IsFresh {P : Type 0} (k : List ℕ) (value : CatalogEntry P) : Type 0 where
  pub named : value.name ≡ k
  pub orphan : value.parent ≡ none

module _ {P : Type 0} (s : CatalogSet P) (w : IsCatalogSet s) (name : List ℕ) where
  pub unchanged : (body : Option P) → IsUpdate s name body (false, s)
  unchanged body = (w, refl, λ j _. refl)

  pub link-IsUpdate :
      (node : HmapNode (List ℕ) ℕ) (value : CatalogEntry P)
      → hmap_get s.nodes name ≡ some node
      → IsFresh name value
      → IsUpdate s name (visible value) (true, link_entry s name node.value value)
  link-IsUpdate node value found fresh = (
    link-IsCatalogSet s w name node found value fresh.named fresh.orphan,
    view-link_self s w name node found value,
    view-link_other s w name node found value,
  )

conjunction : (a b x y : Bool) → a ≡ x → b ≡ y → (a && b) ≡ (x && y)
conjunction a b x y e f = rw (e, f) refl

module _ {P : Type 0} (s : CatalogSet P) (w : IsCatalogSet s) (name : List ℕ) where
  module _ (memory : CreateMemory) (value : CatalogEntry P) where
    abbrev pub inserted : Option (HmapNode (List ℕ) ℕ) × Hmap (List ℕ) ℕ
    inserted = hmap_insert memory.buckets memory.node s.nodes name (length s.entries)

    abbrev pub pushed : CatalogSet P
    pushed = push_entry (with_nodes s inserted.1) (make_entry invalid name)

    refused :
        (memory.name_copy && memory.dummy) ≡ false → create_first memory s name value ≡ (false, s)
    unfolding create_first
    refused e = rw (create_first, e) refl

    module _ (granted : (memory.name_copy && memory.dummy) ≡ true) where
      full : inserted.0 ≡ none → create_first memory s name value ≡ (false, with_nodes s inserted.1)
      unfolding create_first
      full e = rw (create_first, granted, e) refl

      pub done :
          (node : HmapNode (List ℕ) ℕ)
          → inserted.0 ≡ some node
          → create_first memory s name value
            ≡ (true, link_entry pushed name (length s.entries) value)
      unfolding create_first
      done node e = rw (create_first, granted, e) refl

    module _ (fresh : IsFresh name value) (narrow : s.nodes.nbuckets * 2 < 2 ^ 64) where
      module _ (absent : hmap_get s.nodes name ≡ none) where
        inserted-IsMap : IsMap inserted.1
        inserted-IsMap =
            hmap_insert-IsMap s.nodes w.map narrow memory.buckets memory.node name
              (length s.entries)

        -- the dummy is in the table
        dummy_node :
            memory.node ≡ true
            → (node : HmapNode (List ℕ) ℕ) × (hmap_get inserted.1 name ≡ some node)
              × (node.value ≡ length s.entries)
        dummy_node e =
            value-node inserted.1 name (length s.entries)
              (rw e (get-insert_self s.nodes w.map narrow memory.buckets name (length s.entries)))

        pushed-IsUpdate :
            memory.node ≡ true
            → IsUpdate s name
                (visible value)
                (true, link_entry pushed name (length s.entries) value)
        pushed-IsUpdate e =
            let (node, here, address) = dummy_node e in
            let there = λ (j : List ℕ) (ne : name ≢ j).
              get-insert_other s.nodes w.map narrow memory.buckets memory.node name j
                (length s.entries) ne in
            let start =
              push-IsCatalogSet s w inserted.1 inserted-IsMap name node here address there in
            let found = push-found s w inserted.1 inserted-IsMap name node here address there in
            let update = link-IsUpdate pushed start name node value found fresh in
            subst
              (λ (a : ℕ). IsUpdate s name (visible value) (true, link_entry pushed name a value))
              address
              (
                update.0,
                update.1,
                λ j ne.
                    update.2 j ne
                    ∙ view-push_other s w inserted.1 inserted-IsMap name node here address there j
                        ne,
              )

        full-IsUpdate :
            memory.node ≡ false → IsUpdate s name (visible value) (false, with_nodes s inserted.1)
        full-IsUpdate e =
            let same = λ (j : List ℕ).
              ap
                (λ (g : Bool).
                  hmap_get (hmap_insert memory.buckets g s.nodes name (length s.entries)).1 j)
                e
              ∙ get-insert_refused s.nodes w.map name narrow absent memory.buckets
                  (length s.entries) j in
            let view = view-with_nodes s w inserted.1 inserted-IsMap same in
            (with_nodes-IsCatalogSet s w inserted.1 inserted-IsMap same, view name, λ j _. view j)

        pub first-IsUpdate : IsUpdate s name (visible value) (create_first memory s name value)
        first-IsUpdate = elim (Bool-cases (memory.name_copy && memory.dummy)) [
          | inl granted ↦ elim (Bool-cases memory.node) [
            | inl e ↦
                subst (IsUpdate s name (visible value))
                  (sym (
                    done granted (record { key = name; value = length s.entries })
                      (insert-absent s.nodes w.map name narrow absent memory.buckets memory.node
                          (length s.entries)
                        ∙ rw e refl)))
                  (pushed-IsUpdate e)
            | inr e ↦
                subst (IsUpdate s name (visible value))
                  (sym (
                    full granted (
                      insert-absent s.nodes w.map name narrow absent memory.buckets memory.node
                        (length s.entries)
                      ∙ rw e refl)))
                  (full-IsUpdate e)
          ]
          | inr e ↦
              subst (IsUpdate s name (visible value)) (sym (refused e))
                (unchanged s w name (visible value))
        ]

        -- Without a node, an entry is made where the name, the dummy and the node get memory.
        pub first-result :
            (create_first memory s name value).0
            ≡ ((memory.name_copy && memory.dummy) && memory.node)
        first-result = elim (Bool-cases (memory.name_copy && memory.dummy)) [
          | inl granted ↦ elim (Bool-cases memory.node) [
            | inl e ↦
                ap (λ r. r.0)
                  (done granted (record { key = name; value = length s.entries })
                    (insert-absent s.nodes w.map name narrow absent memory.buckets memory.node
                        (length s.entries)
                      ∙ rw e refl))
                ∙ sym (conjunction _ _ true true granted e)
            | inr e ↦
                ap (λ r. r.0)
                  (full granted (
                    insert-absent s.nodes w.map name narrow absent memory.buckets memory.node
                      (length s.entries)
                    ∙ rw e refl))
                ∙ sym (conjunction _ _ true false granted e)
          ]
          | inr e ↦
              ap (λ r. r.0) (refused e) ∙ sym (conjunction _ memory.node false memory.node e refl)
        ]
