-- ===== src/Catalog/Push.antt =====
-- The dummy entry that a new name gets, and a table that finds what the old one found.
use mathlib.Core.Path.{subst}
use mustdb.Catalog.Sets.{some_eq, IsCatalogSet}
use mustdb.Catalog.View.{visible, catalog_view, view-absent, view-found}
use mustdb.Catalog.{CatalogEntry, CatalogSet, invalid, entry_at, make_entry, push_entry, with_nodes}
use mustdb.Hmap.Buckets.{IsMap, nat-cases}
use mustdb.Hmap.Chain.{same-cases}
use mustdb.Hmap.{Hmap, HmapNode, hmap_get}
use mustdb.Prelude.{
  ℕ, ◌+◌, ◌<◌, ◌≡◌, ◌≢◌, inl, inr, sym, ap, ◌∙◌, arith, none, some, List, [], ◌∷◌, length,
  length-append, get_or-append_lt, get_or-append_at, Option-cases,
}

module _ {P : Type 0} (s : CatalogSet P) (w : IsCatalogSet s) (t : Hmap (List ℕ) ℕ)
    (m : IsMap t) where
  -- Another table that finds the same changes nothing.
  module _ (same : (j : List ℕ) → hmap_get t j ≡ hmap_get s.nodes j) where
    pub with_nodes-IsCatalogSet : IsCatalogSet (with_nodes s t)
    unfolding with_nodes entry_at
    with_nodes-IsCatalogSet = record {
      map = m;
      heads = λ j n e. w.heads j n (sym (same j) ∙ e);
      links = w.links;
    }

    pub view-with_nodes : (j : List ℕ) → catalog_view (with_nodes s t) j ≡ catalog_view s j
    unfolding with_nodes entry_at
    view-with_nodes j = elim (Option-cases (hmap_get s.nodes j)) [
      | inl e ↦ view-absent (with_nodes s t) j (same j ∙ e) ∙ sym (view-absent s j e)
      | inr (n, e) ↦ view-found (with_nodes s t) j n (same j ∙ e) ∙ sym (view-found s j n e)
    ]

  -- The table finds the dummy, which is put behind the entries, and else the same.
  module _ (k : List ℕ) (node : HmapNode (List ℕ) ℕ) (here : hmap_get t k ≡ some node)
      (address : node.value ≡ length s.entries)
      (there : (j : List ℕ) → k ≢ j → hmap_get t j ≡ hmap_get s.nodes j) where
    abbrev pushed : CatalogSet P
    pushed = push_entry (with_nodes s t) (make_entry invalid k)

    length-pushed : length pushed.entries ≡ length s.entries + 1
    unfolding push_entry with_nodes
    length-pushed = length-append s.entries (make_entry invalid k ∷ [])

    entry-pushed_new : entry_at pushed (length s.entries) ≡ make_entry invalid k
    unfolding push_entry with_nodes entry_at
    entry-pushed_new = get_or-append_at s.entries (make_entry invalid k) (make_entry invalid [])

    entry-pushed_old : (a : ℕ) → a < length s.entries → entry_at pushed a ≡ entry_at s a
    unfolding push_entry with_nodes entry_at
    entry-pushed_old a old =
        get_or-append_lt s.entries (make_entry invalid k ∷ []) a (make_entry invalid []) old

    pub push-found : hmap_get pushed.nodes k ≡ some node
    unfolding push_entry with_nodes
    push-found = here

    found_other : (j : List ℕ) → k ≢ j → hmap_get pushed.nodes j ≡ hmap_get s.nodes j
    unfolding push_entry with_nodes
    found_other j ne = there j ne

    pushed-IsMap : IsMap pushed.nodes
    unfolding push_entry with_nodes
    pushed-IsMap = m

    abbrev IsHead : List ℕ → ℕ → Type 0
    IsHead j a =
        (a < length pushed.entries)
        × ((entry_at pushed a).name ≡ j)
        × ((entry_at pushed a).parent ≡ none)

    IsHead-new : IsHead k (length s.entries)
    unfolding make_entry
    IsHead-new = (
      omega (arith, length-pushed),
      ap (λ (e : CatalogEntry P). e.name) entry-pushed_new,
      ap (λ (e : CatalogEntry P). e.parent) entry-pushed_new,
    )

    IsHead-old :
        (j : List ℕ) (n : HmapNode (List ℕ) ℕ) → hmap_get s.nodes j ≡ some n → IsHead j n.value
    IsHead-old j n e =
        let h = w.heads j n e in
        let old = entry-pushed_old n.value h.0 in
        (
          omega (arith, length-pushed, h.0),
          ap (λ (x : CatalogEntry P). x.name) old ∙ h.1,
          ap (λ (x : CatalogEntry P). x.parent) old ∙ h.2,
        )

    no_child : (b : ℕ) → (entry_at pushed (length s.entries)).child ≢ some b
    unfolding make_entry
    no_child b e = none≢some (sym (ap (λ (x : CatalogEntry P). x.child) entry-pushed_new) ∙ e)
      where
        none≢some : none ≢ some b
        none≢some = cc

    pub push-IsCatalogSet : IsCatalogSet pushed
    push-IsCatalogSet = record {
      map = pushed-IsMap;
      heads = λ j n e. elim (same-cases t.key_compare m.law k j) [
        | inl (_, same) ↦
            subst (λ (i : List ℕ). IsHead i n.value) same
              (subst (IsHead k)
                (sym (
                  ap (λ (x : HmapNode (List ℕ) ℕ). x.value)
                    (some_eq (sym (ap (hmap_get pushed.nodes) same ∙ e) ∙ push-found))
                  ∙ address))
                IsHead-new)
        | inr (_, ne) ↦ IsHead-old j n (sym (found_other j ne) ∙ e)
      ];
      links = λ a b lt child. elim (nat-cases a (length s.entries)) [
        | inl e ↦ absurd (no_child b (ap (λ (x : ℕ). (entry_at pushed x).child) (sym e) ∙ child))
        | inr ne ↦
            let old : a < length s.entries = omega (arith, length-pushed) in
            let was =
              w.links a b old
                (sym (ap (λ (x : CatalogEntry P). x.child) (entry-pushed_old a old)) ∙ child) in
            (
              was.0,
              ap (λ (x : CatalogEntry P). x.parent) (entry-pushed_old b (omega (arith, was.0)))
                  ∙ was.1,
            )
      ];
    }

    pub view-push_other : (j : List ℕ) → k ≢ j → catalog_view pushed j ≡ catalog_view s j
    view-push_other j ne = elim (Option-cases (hmap_get s.nodes j)) [
      | inl e ↦ view-absent pushed j (found_other j ne ∙ e) ∙ sym (view-absent s j e)
      | inr (n, e) ↦
          view-found pushed j n (found_other j ne ∙ e)
          ∙ ap visible (entry-pushed_old n.value (w.heads j n e).0)
          ∙ sym (view-found s j n e)
    ]
