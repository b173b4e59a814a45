-- ===== src/Hmap/Laws.antt =====
-- What hmap_init, hmap_grow and hmap_insert promise.
use native.Mathlib.Nat.{mod-eq_of_lt}
use mustdb.Hmap.Buckets.{IsMap}
use mustdb.Hmap.Chain.{IsEquality}
use mustdb.Hmap.Grow.{empty-IsMap, get-empty, move_chains-IsMap}
use mustdb.Hmap.Lookup.{insert_node-IsMap, get-insert_node_self, get-insert_node_other}
use mustdb.Hmap.{
  Hmap, bucket_index, find_node, hmap_get, hmap_get_value, hmap_grow, hmap_init, hmap_insert,
}
use mustdb.Prelude.{
  ℕ, ◌+◌, ◌-◌, ◌*◌, ◌/◌, ◌^◌, ◌<◌, ◌≡◌, ◌≢◌, inl, inr, refl, ap, ◌∙◌, arith, Bool, true, false,
  none, some, [], get_or, replicate, leb, if◌then◌else◌, Bool-cases, u64,
}

-- A new table with at least one bucket is well-formed and finds no key.
pub hmap_init-IsMap {ℓ} :
    {K V : Type ℓ} (nbuckets : ℕ) (hash_func : K → ℕ) (key_compare : K → K → Bool) (k : K)
    → IsEquality key_compare
    → 0 < nbuckets
    → let h = hmap_init {V = V} nbuckets hash_func key_compare in IsMap h × (hmap_get h k ≡ none)
unfolding hmap_init hmap_get
hmap_init-IsMap nbuckets hash_func key_compare k law pos =
    let h = hmap_init nbuckets hash_func key_compare in
    let m = empty-IsMap h nbuckets law pos in (m, get-empty h nbuckets k)

zero_plus : (q : ℕ) → q ≡ 0 + q
zero_plus q = omega arith

minus_zero : (q : ℕ) → q - 0 ≡ q
minus_zero q = omega arith

module _ {ℓ} {K V : Type ℓ} (h : Hmap K V) (m : IsMap h) (narrow : h.nbuckets * 2 < 2 ^ 64) where
  grow_lem :
      (granted : Bool)
      → IsMap (hmap_grow granted h) × ((j : K) → hmap_get (hmap_grow granted h) j ≡ hmap_get h j)
  unfolding hmap_grow hmap_get
  grow_lem false = (m, λ j. refl)
  grow_lem true =
      let n : u64 (h.nbuckets * 2) ≡ h.nbuckets * 2 = mod-eq_of_lt narrow in
      let start = empty-IsMap h (h.nbuckets * 2) m.law (omega (arith, m.filled)) in
      let (grown, _, found) =
        move_chains-IsMap h m.law (h.nbuckets * 2) 0 h.buckets (replicate (h.nbuckets * 2) [])
          m.distinct (λ q j ne. m.placed q j (λ e. ne (e ∙ zero_plus q))) start
          (λ j _. get-empty h (h.nbuckets * 2) j) in
      rw n (
        grown,
        λ j.
            found j (omega arith)
            ∙ ap (λ (q : ℕ). find_node h.key_compare j (get_or h.buckets q []))
                (minus_zero (bucket_index h j)),
      )

  -- hmap_grow of a well-formed table whose doubled number of buckets is a usize keeps it well-
  -- formed and every lookup the same.
  pub get-grow :
      (granted : Bool) (j : K)
      → IsMap (hmap_grow granted h) × (hmap_get (hmap_grow granted h) j ≡ hmap_get h j)
  get-grow granted j = let (grown, same) = grow_lem granted in (grown, same j)

  -- the table that the node goes to
  abbrev pub roomy : Bool → Hmap K V
  roomy granted = if leb (h.nbuckets - h.nbuckets / 4) h.len then hmap_grow granted h else h

  pub roomy_lem :
      (granted : Bool) (j : K) → IsMap (roomy granted) × (hmap_get (roomy granted) j ≡ hmap_get h j)
  roomy_lem granted j = elim (Bool-cases (leb (h.nbuckets - h.nbuckets / 4) h.len)) [
    | inl p ↦ rw p (get-grow granted j)
    | inr p ↦ rw p (m, refl)
  ]

  -- hmap_insert keeps a table whose doubled number of buckets is a usize well-formed: no key
  -- twice in a chain, and no key outside the chain of its bucket.
  pub hmap_insert-IsMap :
      (granted_buckets granted : Bool) (k : K) (v : V)
      → IsMap (hmap_insert granted_buckets granted h k v).1
  unfolding hmap_insert
  hmap_insert-IsMap granted_buckets granted k v =
      insert_node-IsMap (roomy granted_buckets) (roomy_lem granted_buckets k).0 k granted v

  -- In a well-formed table whose doubled number of buckets is a usize, a lookup of a key after
  -- hmap_insert with memory for the node finds the inserted value, whether the table grows,
  -- cannot grow, or need not.
  pub get-insert_self :
      (granted_buckets : Bool) (k : K) (v : V)
      → hmap_get_value (hmap_insert granted_buckets true h k v).1 k ≡ some v
  unfolding hmap_insert
  get-insert_self granted_buckets k v =
      get-insert_node_self (roomy granted_buckets) (roomy_lem granted_buckets k).0 k v

  -- In a well-formed table whose doubled number of buckets is a usize, hmap_insert leaves what a
  -- lookup of any other key returns as it was, also when memory is refused.
  pub get-insert_other :
      (granted_buckets granted : Bool) (k j : K) (v : V)
      → k ≢ j
      → hmap_get (hmap_insert granted_buckets granted h k v).1 j ≡ hmap_get h j
  unfolding hmap_insert
  get-insert_other granted_buckets granted k j v ne =
      get-insert_node_other (roomy granted_buckets) (roomy_lem granted_buckets j).0 k granted v j ne
      ∙ (roomy_lem granted_buckets j).1
