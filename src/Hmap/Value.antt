-- ===== src/Hmap/Value.antt =====
-- Writing through the node that a lookup returned, and what hmap_insert returns.
use mustdb.Hmap.Buckets.{IsMap, with_chain-IsMap, get-with_chain_self, get-with_chain_other}
use mustdb.Hmap.Chain.{find-update_self, find-update_other, update_node-Distinct}
use mustdb.Hmap.Laws.{roomy, roomy_lem}
use mustdb.Hmap.Lookup.{insert_absent, insert_refused}
use mustdb.Hmap.{
  HmapNode, Hmap, bucket_index, chain_of, update_node, hmap_get, hmap_set_value, hmap_insert,
  hmap_get_value,
}
use mustdb.Prelude.{
  ◌*◌, ◌^◌, ◌<◌, ◌≡◌, ◌≢◌, sym, ap, ◌∙◌, Bool, true, false, none, some, Option-cases, inl, inr,
  refl,
}

module _ {ℓ} {K V : Type ℓ} (h : Hmap K V) (m : IsMap h) (k : K) where
  -- Writing a value keeps the table well-formed.
  pub set_value-IsMap : (v : V) → IsMap (hmap_set_value h k v)
  unfolding hmap_set_value
  set_value-IsMap v =
      with_chain-IsMap h m k (update_node h.key_compare k v (chain_of h k))
        (update_node-Distinct h.key_compare m.law (chain_of h k) k v
          (m.distinct (bucket_index h k)))
        (λ j far.
          find-update_other h.key_compare m.law (chain_of h k) k j v
            (λ e. far (ap (bucket_index h) (sym e)))
          ∙ m.placed (bucket_index h k) j far)

  pub get-set_value_self :
      (v : V) (node : HmapNode K V)
      → hmap_get h k ≡ some node
      → hmap_get (hmap_set_value h k v) k ≡ some (record node { value = v })
  unfolding hmap_set_value hmap_get
  get-set_value_self v node found =
      get-with_chain_self h m k (update_node h.key_compare k v (chain_of h k))
      ∙ find-update_self h.key_compare m.law (chain_of h k) k v node found

  pub get-set_value_other :
      (v : V) (j : K) → k ≢ j → hmap_get (hmap_set_value h k v) j ≡ hmap_get h j
  unfolding hmap_set_value
  get-set_value_other v j ne =
      get-with_chain_other h m k (update_node h.key_compare k v (chain_of h k)) j
        (find-update_other h.key_compare m.law (chain_of h k) k j v ne)

  -- what hmap_insert of a key that is not there returns
  pub insert-absent :
      h.nbuckets * 2 < 2 ^ 64
      → hmap_get h k ≡ none
      → (granted_buckets granted : Bool) (v : V)
      → (hmap_insert granted_buckets granted h k v).0
        ≡ elim granted [ true ↦ some (record { key = k; value = v }) | false ↦ none ]
  unfolding hmap_insert hmap_get
  insert-absent narrow absent granted_buckets true v =
      let r = roomy_lem h m narrow granted_buckets k in
      ap (λ p. p.0) (insert_absent (roomy h m narrow granted_buckets) r.0 k v (r.1 ∙ absent))
  insert-absent narrow absent granted_buckets false v =
      let r = roomy_lem h m narrow granted_buckets k in
      ap (λ p. p.0) (insert_refused (roomy h m narrow granted_buckets) r.0 k v (r.1 ∙ absent))

  -- an insertion whose node gets no memory changes no lookup
  pub get-insert_refused :
      h.nbuckets * 2 < 2 ^ 64
      → hmap_get h k ≡ none
      → (granted_buckets : Bool) (v : V) (j : K)
      → hmap_get (hmap_insert granted_buckets false h k v).1 j ≡ hmap_get h j
  unfolding hmap_insert hmap_get
  get-insert_refused narrow absent granted_buckets v j =
      let r = roomy_lem h m narrow granted_buckets in
      ap (λ p. hmap_get p.1 j)
        (insert_refused (roomy h m narrow granted_buckets) (r k).0 k v ((r k).1 ∙ absent))
      ∙ (r j).1

-- the node behind a value
module _ {ℓ} {K V : Type ℓ} (h : Hmap K V) (k : K) (v : V) where
  none≢some : none ≢ some v
  none≢some = cc

  same_value : (a : V) → some a ≡ some v → a ≡ v
  same_value a e = cc

  pub value-node :
      hmap_get_value h k ≡ some v
      → (node : HmapNode K V) × (hmap_get h k ≡ some node) × (node.value ≡ v)
  unfolding hmap_get_value
  value-node e = elim (Option-cases (hmap_get h k)) [
    | inl absent ↦ absurd (none≢some (sym (rw (hmap_get_value, absent) refl) ∙ e))
    | inr (node, found) ↦
        (node, found, same_value node.value (sym (rw (hmap_get_value, found) refl) ∙ e))
  ]
