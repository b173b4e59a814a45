-- ===== src/Catalog/View.antt =====
-- A catalog set as a partial map from names to bodies.
use mustdb.Catalog.{CatalogEntry, CatalogSet, entry_at, catalog_set_get_entry}
use mustdb.Hmap.{HmapNode, hmap_get}
use mustdb.Prelude.{
  ℕ, ◌≡◌, refl, ap, ◌∙◌, false, Option, none, some, List, if◌then◌else◌, Bool-cases, inl, inr, sym,
  ◌≢◌, Option-cases,
}

abbrev pub visible : {P : Type 0} → CatalogEntry P → Option P
visible e = if e.deleted then none else e.body

module _ {P : Type 0} (s : CatalogSet P) where
  abbrev pub body_at : Option ℕ → Option P
  body_at none = none
  body_at (some a) = (entry_at s a).body

  module _ (k : List ℕ) where
    -- the body of the entry that catalogSet_get_entry returns
    unfoldable pub catalog_view : Option P
    catalog_view = body_at (catalog_set_get_entry s k)

    pub get_entry-absent : hmap_get s.nodes k ≡ none → catalog_set_get_entry s k ≡ none
    unfolding catalog_set_get_entry
    get_entry-absent e = rw (catalog_set_get_entry, e) refl

    pub get_entry-found :
        (n : HmapNode (List ℕ) ℕ)
        → hmap_get s.nodes k ≡ some n
        → catalog_set_get_entry s k ≡ (if (entry_at s n.value).deleted then none else some n.value)
    unfolding catalog_set_get_entry
    get_entry-found n e = rw (catalog_set_get_entry, e) refl

    pub view-absent : hmap_get s.nodes k ≡ none → catalog_view ≡ none
    unfolding catalog_view
    view-absent e = ap body_at (get_entry-absent e)

    pub view-found :
        (n : HmapNode (List ℕ) ℕ)
        → hmap_get s.nodes k ≡ some n
        → catalog_view ≡ visible (entry_at s n.value)
    unfolding catalog_view
    view-found n e = elim (Bool-cases (entry_at s n.value).deleted) [
      | inl d ↦ ap body_at (get_entry-found n e) ∙ rw d
      | inr d ↦ ap body_at (get_entry-found n e) ∙ rw d
    ]

    -- the node behind an address
    pub get_entry-node :
        (a : ℕ)
        → catalog_set_get_entry s k ≡ some a
        → (node : HmapNode (List ℕ) ℕ) × (hmap_get s.nodes k ≡ some node)
          × (node.value ≡ a)
          × ((entry_at s node.value).deleted ≡ false)
    get_entry-node a e = elim (Option-cases (hmap_get s.nodes k)) [
      | inl absent ↦ absurd (none≢some (sym (get_entry-absent absent) ∙ e))
      | inr (node, found) ↦ elim (Bool-cases (entry_at s node.value).deleted) [
        | inl d ↦ absurd (none≢some (sym (get_entry-found node found ∙ rw d) ∙ e))
        | inr d ↦
            let same : some node.value ≡ some a = sym (get_entry-found node found ∙ rw d) ∙ e in
            (node, found, value_of node.value same, d)
      ]
    ]
      where
        none≢some : none ≢ some a
        none≢some = cc

        value_of : (b : ℕ) → some b ≡ some a → b ≡ a
        value_of b e = cc

    -- the entry behind a body
    pub view-entry :
        (body : P)
        → catalog_view ≡ some body
        → (a : ℕ) × (catalog_set_get_entry s k ≡ some a) × ((entry_at s a).body ≡ some body)
    unfolding catalog_view
    view-entry body e = elim (Option-cases (catalog_set_get_entry s k)) [
      | inl absent ↦ absurd (none≢some (sym (ap body_at absent) ∙ e))
      | inr (a, found) ↦ (a, found, sym (ap body_at found) ∙ e)
    ]
      where
        none≢some : none ≢ some body
        none≢some = cc
