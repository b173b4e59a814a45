-- ===== src/Catalog/Body.antt =====
-- Changing the body of an entry that a lookup returned.
use mathlib.Core.Path.{subst}
use mustdb.Catalog.Schemas.{set_body}
use mustdb.Catalog.Sets.{IsCatalogSet}
use mustdb.Catalog.View.{visible, catalog_view, view-absent, view-found, get_entry-node}
use mustdb.Catalog.{CatalogEntry, CatalogSet, invalid, entry_at, make_entry, catalog_set_get_entry}
use mustdb.Hmap.Buckets.{nat-cases}
use mustdb.Hmap.{HmapNode, hmap_get}
use mustdb.Prelude.{
  ℕ, ◌<◌, ◌≡◌, ◌≢◌, inl, inr, refl, sym, ap, ◌∙◌, some, List, [], length, length-set,
  get_or-set_self, get_or-set_ne, Option-cases,
}

module _ {P : Type 0} (s : CatalogSet P) (a : ℕ) (body : P) where
  abbrev changed : CatalogSet P
  changed = set_body s a body

  length-changed : length changed.entries ≡ length s.entries
  unfolding set_body
  length-changed = length-set s.entries a (record (entry_at s a) { body = some body })

  entry_self :
      a < length s.entries → entry_at changed a ≡ record (entry_at s a) { body = some body }
  unfolding set_body entry_at
  entry_self lt =
      get_or-set_self s.entries a (record (entry_at s a) { body = some body })
        (make_entry invalid []) lt

  entry_other : (b : ℕ) → a ≢ b → entry_at changed b ≡ entry_at s b
  unfolding set_body entry_at
  entry_other b ne =
      get_or-set_ne s.entries a b (record (entry_at s a) { body = some body })
        (make_entry invalid []) ne

  module _ (lt : a < length s.entries) where
    -- only the body of that entry changes
    same_field {ℓ} :
        {C : Type ℓ} (field : CatalogEntry P → C)
        → ((e : CatalogEntry P) → field (record e { body = some body }) ≡ field e)
        → (b : ℕ) → field (entry_at changed b) ≡ field (entry_at s b)
    same_field field keeps b = elim (nat-cases a b) [
      | inl e ↦
          subst (λ (x : ℕ). field (entry_at changed x) ≡ field (entry_at s x)) e
            (ap field (entry_self lt) ∙ keeps (entry_at s a))
      | inr ne ↦ ap field (entry_other b ne)
    ]

    same_parent : (b : ℕ) → (entry_at changed b).parent ≡ (entry_at s b).parent
    same_parent b = same_field (λ (e : CatalogEntry P). e.parent) (λ e. refl) b

    same_name : (b : ℕ) → (entry_at changed b).name ≡ (entry_at s b).name
    same_name b = same_field (λ (e : CatalogEntry P). e.name) (λ e. refl) b

    same_child : (b : ℕ) → (entry_at changed b).child ≡ (entry_at s b).child
    same_child b = same_field (λ (e : CatalogEntry P). e.child) (λ e. refl) b

    pub set_body-IsCatalogSet : IsCatalogSet s → IsCatalogSet changed
    unfolding set_body
    set_body-IsCatalogSet w = record {
      map = w.map;
      heads = λ k node e.
          let h = w.heads k node e in
          (rw length-changed h.0, same_name node.value ∙ h.1, same_parent node.value ∙ h.2);
      links = λ x y below e.
          let l = w.links x y (rw (← length-changed) below) (sym (same_child x) ∙ e) in
          (l.0, same_parent y ∙ l.1);
    }

module _ {P : Type 0} (s : CatalogSet P) (w : IsCatalogSet s) (k : List ℕ) (a : ℕ)
    (found : catalog_set_get_entry s k ≡ some a) where
  pub get_entry-lt : a < length s.entries
  get_entry-lt =
      let (node, e, at, _) = get_entry-node s k a found in
      subst (λ (x : ℕ). x < length s.entries) at (w.heads k node e).0

  module _ (body : P) where
    -- no table is changed
    same_nodes : (j : List ℕ) → hmap_get (set_body s a body).nodes j ≡ hmap_get s.nodes j
    unfolding set_body
    same_nodes j = refl

    pub view-set_body_self : catalog_view (set_body s a body) k ≡ some body
    view-set_body_self =
        let (node, e, at, live) = get_entry-node s k a found in
        view-found (set_body s a body) k node (same_nodes k ∙ e)
        ∙ ap (λ (x : ℕ). visible (entry_at (set_body s a body) x)) at
        ∙ ap visible (entry_self s a body get_entry-lt)
        ∙ rw (ap (λ (x : ℕ). (entry_at s x).deleted) (sym at) ∙ live) refl

    pub view-set_body_other :
        (j : List ℕ) → k ≢ j → catalog_view (set_body s a body) j ≡ catalog_view s j
    view-set_body_other j ne = elim (Option-cases (hmap_get s.nodes j)) [
      | inl e ↦ view-absent (set_body s a body) j (same_nodes j ∙ e) ∙ sym (view-absent s j e)
      | inr (n, e) ↦
          view-found (set_body s a body) j n (same_nodes j ∙ e)
          ∙ ap visible (entry_other s a body n.value (apart n e))
          ∙ sym (view-found s j n e)
    ]
      where
        apart : (n : HmapNode (List ℕ) ℕ) → hmap_get s.nodes j ≡ some n → a ≢ n.value
        apart n e same =
            let (node, here, at, _) = get_entry-node s k a found in
            ne (
              sym (w.heads k node here).1
              ∙ ap (λ (x : ℕ). (entry_at s x).name) (at ∙ same)
              ∙ (w.heads j n e).1)
