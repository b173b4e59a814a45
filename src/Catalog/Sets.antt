-- ===== src/Catalog/Sets.antt =====
-- The well-formed catalog set, and what putting an entry in front of a chain does to it.
use mathlib.Core.Path.{subst}
use mustdb.Catalog.{CatalogEntry, CatalogSet, invalid, entry_at, link_entry, make_entry}
use mustdb.Hmap.Buckets.{IsMap, nat-cases}
use mustdb.Hmap.{HmapNode, hmap_get}
use mustdb.Prelude.{
  ℕ, ◌+◌, ◌<◌, ◌≡◌, ◌≢◌, inl, inr, sym, ap, ◌∙◌, none, some, List, [], ◌∷◌, length, get_or, set,
  length-append, length-set, get_or-set_self, get_or-set_ne, get_or-append_lt, get_or-append_at,
}

-- The table is well-formed; a node points to an entry of its name that has no parent; a child is an
-- older entry, whose parent is the entry it is a child of.
pub record IsCatalogSet {P : Type 0} (s : CatalogSet P) : Type 0 where
  pub map : IsMap s.nodes
  pub heads :
      (k : List ℕ) (node : HmapNode (List ℕ) ℕ)
      → hmap_get s.nodes k ≡ some node
      → (node.value < length s.entries)
        × ((entry_at s node.value).name ≡ k)
        × ((entry_at s node.value).parent ≡ none)
  pub links :
      (a b : ℕ)
      → a < length s.entries
      → (entry_at s a).child ≡ some b
      → (b < a) × ((entry_at s b).parent ≡ some a)

pub some_eq {ℓ} : {A : Type ℓ} {a b : A} → some a ≡ some b → a ≡ b
some_eq e = cc

-- the entry of an address that is not one
abbrev unused : {P : Type 0} → CatalogEntry P
unused = make_entry invalid []

module _ {P : Type 0} (s : CatalogSet P) where
  -- the entries of a set in which `value` has been put in front of the entry at `a`
  module _ (k : List ℕ) (a : ℕ) (value : CatalogEntry P) (lt : a < length s.entries) where
    abbrev linked : CatalogSet P
    linked = link_entry s k a value

    abbrev covered : CatalogEntry P
    covered = record (entry_at s a) { parent = some (length s.entries) }

    pub length-linked : length linked.entries ≡ length s.entries + 1
    unfolding link_entry
    length-linked =
        length-append (set s.entries a covered) (record value { child = some a } ∷ [])
        ∙ ap (λ (n : ℕ). n + 1) (length-set s.entries a covered)

    pub entry-linked_new : entry_at linked (length s.entries) ≡ record value { child = some a }
    unfolding link_entry entry_at
    entry-linked_new =
        ap (λ (n : ℕ). get_or linked.entries n unused) (sym (length-set s.entries a covered))
        ∙ get_or-append_at (set s.entries a covered) (record value { child = some a }) unused

    old_entry :
        (b : ℕ)
        → b < length s.entries
        → entry_at linked b ≡ get_or (set s.entries a covered) b unused
    unfolding link_entry entry_at
    old_entry b old =
        get_or-append_lt (set s.entries a covered) (record value { child = some a } ∷ []) b unused
          (rw (length-set s.entries a covered) old)

    pub entry-linked_child : entry_at linked a ≡ covered
    entry-linked_child = old_entry a lt ∙ get_or-set_self s.entries a covered unused lt

    pub entry-linked_old : (b : ℕ) → b < length s.entries → a ≢ b → entry_at linked b ≡ entry_at s b
    unfolding entry_at
    entry-linked_old b old ne = old_entry b old ∙ get_or-set_ne s.entries a b covered unused ne

    -- only the parent of an older entry changes
    pub same-linked_old {ℓ} :
        {C : Type ℓ} (field : CatalogEntry P → C)
        → ((e : CatalogEntry P) → field (record e { parent = some (length s.entries) }) ≡ field e)
        → (b : ℕ) → b < length s.entries
        → field (entry_at linked b) ≡ field (entry_at s b)
    same-linked_old field keeps b old = elim (nat-cases a b) [
      | inl e ↦
          subst (λ (x : ℕ). field (entry_at linked x) ≡ field (entry_at s x)) e
            (ap field entry-linked_child ∙ keeps (entry_at s a))
      | inr ne ↦ ap field (entry-linked_old b old ne)
    ]
