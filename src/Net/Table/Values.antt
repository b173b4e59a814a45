-- ===== src/Net/Table/Values.antt =====
-- libv/src/hash.c, the table from descriptors to addresses as a worker of libv/src/net/net.c uses
-- it: lookups of values, and the number of buckets.
use mustdb.Hmap.{
  Hmap, HmapNode, hmap_get, hmap_get_value, hmap_insert, insert_node, hmap_grow, hmap_delete,
}
use mustdb.Hmap.Buckets.{IsMap, nat-cases}
use mustdb.Hmap.Laws.{roomy, roomy_lem, get-insert_self, get-insert_other}
use mustdb.Hmap.Lookup.{insert_refused}
use mustdb.Prelude.{
  ℕ, ◌-◌, ◌*◌, ◌/◌, ◌^◌, ◌<◌, ◌≡◌, ◌≢◌, refl, sym, ap, ◌∙◌, arith, Bool, true, false, Option, none,
  some, leb, u64, Option-cases, Bool-cases, inl, inr, ◌⊎◌,
}

pub none≢some {ℓ} : {A : Type ℓ} (a : A) → none ≢ some a
none≢some a = cc

pub some_eq {ℓ} : {A : Type ℓ} (a b : A) → some a ≡ some b → a ≡ b
some_eq a b e = cc

value_of : Option (HmapNode ℕ ℕ) → Option ℕ
value_of o = elim o [ some node ↦ some node.value | none ↦ none ]

get_value-as : (h : Hmap ℕ ℕ) (k : ℕ) → hmap_get_value h k ≡ value_of (hmap_get h k)
unfolding hmap_get_value value_of
get_value-as h k = refl

pub same_value :
    (h g : Hmap ℕ ℕ) (k : ℕ) → hmap_get h k ≡ hmap_get g k → hmap_get_value h k ≡ hmap_get_value g k
same_value h g k e = get_value-as h k ∙ ap value_of e ∙ sym (get_value-as g k)

pub absent_value : (h : Hmap ℕ ℕ) (k : ℕ) → hmap_get h k ≡ none → hmap_get_value h k ≡ none
unfolding value_of
absent_value h k e = get_value-as h k ∙ ap value_of e

value_absent : (h : Hmap ℕ ℕ) (k : ℕ) → hmap_get_value h k ≡ none → hmap_get h k ≡ none
unfolding value_of
value_absent h k e = elim (Option-cases (hmap_get h k)) [
  | inl absent ↦ absent
  | inr (node, found) ↦ absurd (none≢some node.value (sym e ∙ get_value-as h k ∙ ap value_of found))
]

pub delete-nbuckets : (h : Hmap ℕ ℕ) (k : ℕ) → (hmap_delete h k).1.nbuckets ≡ h.nbuckets
unfolding hmap_delete
delete-nbuckets h k = ground arith

module _ (h : Hmap ℕ ℕ) (m : IsMap h) (narrow : h.nbuckets < 2 ^ 61) where
  pub doubled : h.nbuckets * 2 < 2 ^ 64
  doubled = omega arith

  grow-narrow :
      (granted : Bool)
      → (granted ≡ true → u64 (h.nbuckets * 2) < 2 ^ 61)
      → (hmap_grow granted h).nbuckets < 2 ^ 61
  unfolding hmap_grow
  grow-narrow true fits = fits refl
  grow-narrow false fits = narrow

  insert_node-nbuckets :
      (g : Hmap ℕ ℕ) (granted : Bool) (k v : ℕ)
      → (insert_node granted g k v).1.nbuckets ≡ g.nbuckets
  unfolding insert_node
  insert_node-nbuckets g granted k v = ground arith

  pub insert-narrow :
      (granted_buckets granted : Bool) (k v : ℕ)
      → (granted_buckets ≡ true → u64 (h.nbuckets * 2) < 2 ^ 61)
      → (hmap_insert granted_buckets granted h k v).1.nbuckets < 2 ^ 61
  unfolding hmap_insert
  insert-narrow granted_buckets granted k v fits =
      rw (insert_node-nbuckets (roomy h m doubled granted_buckets) granted k v)
        (elim (Bool-cases (leb (h.nbuckets - h.nbuckets / 4) h.len)) [
          | inl e ↦ rw e (grow-narrow granted_buckets fits)
          | inr e ↦ rw e narrow
        ])

  refused_value :
      (granted_buckets : Bool) (k v : ℕ)
      → hmap_get_value h k ≡ none
      → hmap_get_value (hmap_insert granted_buckets false h k v).1 k ≡ none
  unfolding hmap_insert hmap_get
  refused_value granted_buckets k v new =
      let room = roomy h m doubled granted_buckets in
      let (well, same) = roomy_lem h m doubled granted_buckets k in
      let absent : hmap_get room k ≡ none = same ∙ value_absent h k new in
      ap (λ (r : Option (HmapNode ℕ ℕ) × Hmap ℕ ℕ). hmap_get_value r.1 k)
        (insert_refused room well k v absent)
      ∙ absent_value room k absent

  -- what a lookup finds after the insertion of a new key, whether or not it gets memory
  pub insert_new :
      (granted_buckets granted : Bool) (k v j w : ℕ)
      → hmap_get_value h k ≡ none
      → hmap_get_value (hmap_insert granted_buckets granted h k v).1 j ≡ some w
      → ((j ≡ k) × (w ≡ v)) ⊎ (hmap_get_value h j ≡ some w)
  insert_new granted_buckets granted k v j w new found = elim (nat-cases k j) [
    | inl e ↦ inl (sym e, here granted (ap (hmap_get_value _) e ∙ found))
    | inr ne ↦ inr (
        sym (same_value _ h j (get-insert_other h m doubled granted_buckets granted k j v ne))
        ∙ found)
  ]
    where
      here :
          (granted : Bool)
          → hmap_get_value (hmap_insert granted_buckets granted h k v).1 k ≡ some w
          → w ≡ v
      here true found = some_eq w v (sym found ∙ get-insert_self h m doubled granted_buckets k v)
      here false found = absurd (none≢some w (sym (refused_value granted_buckets k v new) ∙ found))
