-- ===== src/Catalog/Link.antt =====
-- Putting an entry in front of the chain of a name.
use mathlib.Core.Path.{subst}
use mustdb.Catalog.Sets.{
  some_eq, IsCatalogSet, length-linked, entry-linked_new, entry-linked_child, entry-linked_old,
  same-linked_old,
}
use mustdb.Catalog.{CatalogEntry, CatalogSet, entry_at, link_entry}
use mustdb.Catalog.View.{visible, catalog_view, view-absent, view-found}
use mustdb.Hmap.Buckets.{nat-cases}
use mustdb.Hmap.Chain.{same-cases}
use mustdb.Hmap.Value.{set_value-IsMap, get-set_value_self, get-set_value_other}
use mustdb.Hmap.{HmapNode, hmap_get}
use mustdb.Prelude.{
  ℕ, ◌+◌, ◌<◌, ◌≡◌, ◌≢◌, inl, inr, refl, sym, ap, ◌∙◌, arith, Option, none, some, List, length,
  Option-cases,
}

abbrev pub child_of : {P : Type 0} → CatalogEntry P → Option ℕ
child_of e = e.child

module _ {P : Type 0} (s : CatalogSet P) (w : IsCatalogSet s) (k : List ℕ)
    (node : HmapNode (List ℕ) ℕ) (found : hmap_get s.nodes k ≡ some node)
    (value : CatalogEntry P) where
  abbrev linked : CatalogSet P
  linked = link_entry s k node.value value

  head_lt : node.value < length s.entries
  head_lt = (w.heads k node found).0

  -- where the nodes point afterwards
  node_new : hmap_get linked.nodes k ≡ some (record node { value = length s.entries })
  unfolding link_entry
  node_new = get-set_value_self s.nodes w.map k (length s.entries) node found

  node_self :
      (n : HmapNode (List ℕ) ℕ) → hmap_get linked.nodes k ≡ some n → n.value ≡ length s.entries
  node_self n e = ap (λ (x : HmapNode (List ℕ) ℕ). x.value) (some_eq (sym e ∙ node_new))

  node_other : (j : List ℕ) → k ≢ j → hmap_get linked.nodes j ≡ hmap_get s.nodes j
  unfolding link_entry
  node_other j ne = get-set_value_other s.nodes w.map k (length s.entries) j ne

  -- a node of another name does not point to the entry that is covered
  not_head :
      (j : List ℕ) (n : HmapNode (List ℕ) ℕ)
      → k ≢ j
      → hmap_get s.nodes j ≡ some n
      → node.value ≢ n.value
  not_head j n ne e same =
      ne (
        sym (w.heads k node found).1 ∙ ap (λ (a : ℕ). (entry_at s a).name) same ∙ (w.heads j n e).1)

  longer : length linked.entries ≡ length s.entries + 1
  longer = length-linked s k node.value value head_lt

  newest : entry_at linked (length s.entries) ≡ record value { child = some node.value }
  newest = entry-linked_new s k node.value value head_lt

  -- the head of another name is the same entry as before
  other_entry :
      (j : List ℕ) (n : HmapNode (List ℕ) ℕ)
      → k ≢ j
      → hmap_get s.nodes j ≡ some n
      → entry_at linked n.value ≡ entry_at s n.value
  other_entry j n ne e =
      entry-linked_old s k node.value value head_lt n.value (w.heads j n e).0 (not_head j n ne e)

  abbrev IsHead : List ℕ → ℕ → Type 0
  IsHead j a =
      (a < length linked.entries)
      × ((entry_at linked a).name ≡ j)
      × ((entry_at linked a).parent ≡ none)

  abbrev IsLink : ℕ → ℕ → Type 0
  IsLink a b = (b < a) × ((entry_at linked b).parent ≡ some a)

  IsHead-self : value.name ≡ k → value.parent ≡ none → IsHead k (length s.entries)
  IsHead-self named orphan = (
    omega (arith, longer),
    ap (λ (e : CatalogEntry P). e.name) newest ∙ named,
    ap (λ (e : CatalogEntry P). e.parent) newest ∙ orphan,
  )

  IsHead-other :
      (j : List ℕ) (n : HmapNode (List ℕ) ℕ)
      → k ≢ j
      → hmap_get s.nodes j ≡ some n
      → IsHead j n.value
  IsHead-other j n ne e =
      let h = w.heads j n e in
      let same = other_entry j n ne e in
      (
        omega (arith, longer, h.0),
        ap (λ (x : CatalogEntry P). x.name) same ∙ h.1,
        ap (λ (x : CatalogEntry P). x.parent) same ∙ h.2,
      )

  IsLink-new :
      (b : ℕ) → (entry_at linked (length s.entries)).child ≡ some b → IsLink (length s.entries) b
  IsLink-new b child =
      subst (IsLink (length s.entries)) (some_eq (sym (ap child_of newest) ∙ child)) (
        head_lt,
        ap (λ (e : CatalogEntry P). e.parent) (entry-linked_child s k node.value value head_lt),
      )

  IsLink-old : (a b : ℕ) → a < length s.entries → (entry_at linked a).child ≡ some b → IsLink a b
  IsLink-old a b old child =
      let was =
        w.links a b old
          (sym (same-linked_old s k node.value value head_lt child_of (λ e. refl) a old) ∙ child) in
      let below : b < length s.entries = omega (arith, was.0) in
      let apart : node.value ≢ b = λ e.
        none≢some
          (sym (w.heads k node found).2 ∙ ap (λ (x : ℕ). (entry_at s x).parent) e ∙ was.1) in
      (
        was.0,
        ap (λ (e : CatalogEntry P). e.parent)
              (entry-linked_old s k node.value value head_lt b below apart)
            ∙ was.1,
      )
    where
      none≢some : {x : ℕ} → none ≢ some x
      none≢some = cc

  -- The set stays well-formed.
  pub link-IsCatalogSet : value.name ≡ k → value.parent ≡ none → IsCatalogSet linked
  unfolding link_entry
  link-IsCatalogSet named orphan = record {
    map = set_value-IsMap s.nodes w.map k (length s.entries);
    heads = λ j n e. elim (same-cases s.nodes.key_compare w.map.law k j) [
      | inl (_, same) ↦
          subst (λ (i : List ℕ). IsHead i n.value) same
            (subst (IsHead k) (sym (node_self n (ap (hmap_get linked.nodes) same ∙ e)))
              (IsHead-self named orphan))
      | inr (_, ne) ↦ IsHead-other j n ne (sym (node_other j ne) ∙ e)
    ];
    links = λ a b lt child. elim (nat-cases a (length s.entries)) [
      | inl e ↦
          subst (λ (x : ℕ). IsLink x b) (sym e)
            (IsLink-new b (ap (λ (x : ℕ). (entry_at linked x).child) (sym e) ∙ child))
      | inr ne ↦ IsLink-old a b (omega (arith, longer)) child
    ];
  }

  -- the name has the body of the value, unless that is deleted, and the others keep what they have
  pub view-link_self : catalog_view linked k ≡ visible value
  view-link_self =
      view-found linked k (record node { value = length s.entries }) node_new ∙ ap visible newest

  pub view-link_other : (j : List ℕ) → k ≢ j → catalog_view linked j ≡ catalog_view s j
  view-link_other j ne = elim (Option-cases (hmap_get s.nodes j)) [
    | inl e ↦ view-absent linked j (node_other j ne ∙ e) ∙ sym (view-absent s j e)
    | inr (n, e) ↦
        view-found linked j n (node_other j ne ∙ e)
        ∙ ap visible (other_entry j n ne e)
        ∙ sym (view-found s j n e)
  ]
