-- ===== src/Hmap/Lookup.antt =====
-- The hash table as a map: what a lookup returns after an insertion without growing, and after a
-- deletion.
use mustdb.Hmap.Buckets.{
  IsMap, with_chain-IsMap, get-with_chain_self, get-with_chain_other, with_len-IsMap,
}
use mustdb.Hmap.Chain.{
  more, find-cons_self, find-cons_other, find-update_self, find-update_other, find-unlink_self,
  find-unlink_other, update_node-Distinct, unlink_node-Distinct,
}
use mustdb.Hmap.{
  HmapNode, Hmap, bucket_index, chain_of, with_chain, find_node, update_node, unlink_node,
  insert_node, hmap_get, hmap_get_value, hmap_delete,
}
use mustdb.Prelude.{
  ◌+◌, ◌-◌, ◌^◌, ◌≡◌, ◌≢◌, inl, inr, refl, sym, ap, ◌∙◌, Bool, true, false, Option, none, some, ◌∷◌,
  Option-cases, u64,
}

module _ {ℓ} {K V : Type ℓ} (h : Hmap K V) (m : IsMap h) (k : K) where
  -- a key of another bucket is not this one
  elsewhere : (j : K) → bucket_index h j ≢ bucket_index h k → k ≢ j
  elsewhere j far e = far (ap (bucket_index h) (sym e))

  away :
      (j : K)
      → bucket_index h j ≢ bucket_index h k
      → find_node h.key_compare j (chain_of h k) ≡ none
  away j far = m.placed (bucket_index h k) j far

  abbrev new_node : V → HmapNode K V
  new_node v = record { key = k; value = v }

  -- the three outcomes of insert_node
  insert_found :
      (granted : Bool) (v : V) (node : HmapNode K V)
      → find_node h.key_compare k (chain_of h k) ≡ some node
      → insert_node granted h k v ≡ (
        some (record node { value = v }),
        with_chain h k (update_node h.key_compare k v (chain_of h k)),
      )
  unfolding insert_node
  insert_found granted v node found = rw (insert_node, found) refl

  pub insert_absent :
      (v : V)
      → find_node h.key_compare k (chain_of h k) ≡ none
      → insert_node true h k v ≡ (
        some (new_node v),
        record (with_chain h k (new_node v ∷ chain_of h k)) { len = u64 (h.len + 1) },
      )
  unfolding insert_node
  insert_absent v absent = rw (insert_node, absent) refl

  pub insert_refused :
      (v : V)
      → find_node h.key_compare k (chain_of h k) ≡ none
      → insert_node false h k v ≡ (none, h)
  unfolding insert_node
  insert_refused v absent = rw (insert_node, absent) refl

  -- insert_node keeps the table well-formed, whether or not the node gets memory.
  pub insert_node-IsMap : (granted : Bool) (v : V) → IsMap (insert_node granted h k v).1
  insert_node-IsMap granted v = elim (Option-cases (find_node h.key_compare k (chain_of h k))) [
    | inl absent ↦ added granted absent
    | inr (node, found) ↦ rw (insert_found granted v node found) (
        with_chain-IsMap h m k (update_node h.key_compare k v (chain_of h k))
          (update_node-Distinct h.key_compare m.law (chain_of h k) k v
            (m.distinct (bucket_index h k)))
          (λ j far.
            find-update_other h.key_compare m.law (chain_of h k) k j v (elsewhere j far)
            ∙ away j far))
  ]
    where
      added :
          (g : Bool)
          → find_node h.key_compare k (chain_of h k) ≡ none
          → IsMap (insert_node g h k v).1
      added true absent = rw (insert_absent v absent) (
          with_len-IsMap (with_chain h k (new_node v ∷ chain_of h k)) (u64 (h.len + 1)) (
            with_chain-IsMap h m k (new_node v ∷ chain_of h k)
              (more absent (m.distinct (bucket_index h k)))
              (λ j far.
                find-cons_other h.key_compare m.law (new_node v) (chain_of h k) j (elsewhere j far)
                ∙ away j far)))
      added false absent = rw (insert_refused v absent) m

  -- After insert_node with memory, the key has the value.
  pub get-insert_node_self : (v : V) → hmap_get_value (insert_node true h k v).1 k ≡ some v
  unfolding hmap_get_value
  get-insert_node_self v = elim (Option-cases (find_node h.key_compare k (chain_of h k))) [
    | inl absent ↦ rw (insert_absent v absent) (ap value_of (here-absent))
    | inr (node, found) ↦ rw (insert_found true v node found) (ap value_of (here-found node found))
  ]
    where
      value_of : Option (HmapNode K V) → Option V
      value_of o = elim o [ some node ↦ some node.value | none ↦ none ]

      here-absent : hmap_get (with_chain h k (new_node v ∷ chain_of h k)) k ≡ some (new_node v)
      here-absent =
          get-with_chain_self h m k (new_node v ∷ chain_of h k)
          ∙ find-cons_self h.key_compare m.law (new_node v) (chain_of h k) k refl

      here-found :
          (node : HmapNode K V)
          → find_node h.key_compare k (chain_of h k) ≡ some node
          → hmap_get (with_chain h k (update_node h.key_compare k v (chain_of h k))) k
            ≡ some (record node { value = v })
      here-found node found =
          get-with_chain_self h m k (update_node h.key_compare k v (chain_of h k))
          ∙ find-update_self h.key_compare m.law (chain_of h k) k v node found

  -- Other keys keep what they have.
  pub get-insert_node_other :
      (granted : Bool) (v : V) (j : K)
      → k ≢ j
      → hmap_get (insert_node granted h k v).1 j ≡ hmap_get h j
  unfolding hmap_get
  get-insert_node_other granted v j ne =
      elim (Option-cases (find_node h.key_compare k (chain_of h k))) [
        | inl absent ↦ kept granted absent
        | inr (node, found) ↦ rw (insert_found granted v node found) (
            get-with_chain_other h m k (update_node h.key_compare k v (chain_of h k)) j
              (find-update_other h.key_compare m.law (chain_of h k) k j v ne))
      ]
    where
      kept :
          (g : Bool)
          → find_node h.key_compare k (chain_of h k) ≡ none
          → hmap_get (insert_node g h k v).1 j ≡ hmap_get h j
      kept true absent = rw (insert_absent v absent) (
          get-with_chain_other h m k (new_node v ∷ chain_of h k) j
            (find-cons_other h.key_compare m.law (new_node v) (chain_of h k) j ne))
      kept false absent = rw (insert_refused v absent) refl

  abbrev unlinked : Hmap K V
  unlinked = with_chain h k (unlink_node h.key_compare k (chain_of h k))

  delete_found :
      (node : HmapNode K V)
      → find_node h.key_compare k (chain_of h k) ≡ some node
      → hmap_delete h k ≡ (some node.value, record unlinked { len = u64 (h.len + 2 ^ 64 - 1) })
  unfolding hmap_delete
  delete_found node found = rw (hmap_delete, found) refl

  delete_absent : find_node h.key_compare k (chain_of h k) ≡ none → hmap_delete h k ≡ (none, h)
  unfolding hmap_delete
  delete_absent absent = rw (hmap_delete, absent) refl

  -- hmap_delete of a key in a well-formed table hands out what a lookup of it finds, after which
  -- it is found no more, and the table stays well-formed.
  pub get-delete_self :
      ((hmap_delete h k).0 ≡ hmap_get_value h k)
      × (hmap_get (hmap_delete h k).1 k ≡ none)
      × IsMap (hmap_delete h k).1
  unfolding hmap_get_value
  get-delete_self = elim (Option-cases (find_node h.key_compare k (chain_of h k))) [
    | inl absent ↦ rw (delete_absent absent) (rw (hmap_get_value, absent) refl, absent, m)
    | inr (node, found) ↦ rw (delete_found node found) (
      rw (hmap_get_value, found) refl,
      get-with_chain_self h m k (unlink_node h.key_compare k (chain_of h k))
          ∙ find-unlink_self h.key_compare m.law (chain_of h k) k (m.distinct (bucket_index h k)),
      with_len-IsMap unlinked (u64 (h.len + 2 ^ 64 - 1)) (
          with_chain-IsMap h m k (unlink_node h.key_compare k (chain_of h k))
            (unlink_node-Distinct h.key_compare m.law (chain_of h k) k
              (m.distinct (bucket_index h k)))
            (λ j far.
              find-unlink_other h.key_compare m.law (chain_of h k) k j (elsewhere j far)
              ∙ away j far)),
    )
  ]

  -- hmap_delete in a well-formed table leaves what a lookup of any other key returns as it was.
  pub get-delete_other : (j : K) → k ≢ j → hmap_get (hmap_delete h k).1 j ≡ hmap_get h j
  unfolding hmap_get
  get-delete_other j ne = elim (Option-cases (find_node h.key_compare k (chain_of h k))) [
    | inl absent ↦ rw (delete_absent absent) refl
    | inr (node, found) ↦ rw (delete_found node found) (
        get-with_chain_other h m k (unlink_node h.key_compare k (chain_of h k)) j
          (find-unlink_other h.key_compare m.law (chain_of h k) k j ne))
  ]
