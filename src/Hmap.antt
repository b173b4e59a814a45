-- ===== src/Hmap.antt =====
-- libv/src/hash.c and libv/src/include/hash.h, the chained hash table. A chain of nodes is a list,
-- and the memory that malloc and calloc may refuse is an argument (`granted`). Keys and values are
-- those that the copies in the nodes hold. The functions are those of a table that is not NULL, whose
-- buckets got their memory in hmap_init (it does not look at the result of calloc).
pub mod Chain
pub mod Grow
pub mod Buckets
pub mod Lookup
pub mod Laws
pub mod Keys
pub mod Value
pub mod Iterate
mod Tests
use mustdb.Prelude.{
  ℕ, zero, suc, ◌+◌, ◌-◌, ◌*◌, ◌/◌, ◌%◌, ◌^◌, Bool, true, false, Option, none, some, List, [], ◌∷◌,
  get_or, set, drop, replicate, ltb, leb, if◌then◌else◌, u64,
}

pub record HmapNode {ℓ} (K V : Type ℓ) : Type ℓ where
  pub key : K
  pub value : V

-- `key_compare` is the test whether the C function returns 0.
pub record Hmap {ℓ} (K V : Type ℓ) : Type ℓ where
  pub buckets : List (List (HmapNode K V))
  pub nbuckets : ℕ
  pub len : ℕ
  pub hash_func : K → ℕ
  pub key_compare : K → K → Bool

abbrev pub hmap_default_nbuckets : ℕ
hmap_default_nbuckets = 16

module _ {ℓ} {K V : Type ℓ} where
  unfoldable pub hmap_init : ℕ → (K → ℕ) → (K → K → Bool) → Hmap K V
  hmap_init nbuckets hash_func key_compare = record {
    buckets = replicate nbuckets [];
    nbuckets = nbuckets;
    len = 0;
    hash_func = hash_func;
    key_compare = key_compare;
  }

  unfoldable pub hmap_deinit : Hmap K V → Hmap K V
  hmap_deinit h = record h { buckets = []; nbuckets = 0; len = 0 }

  -- `node` goes to the front of its chain in the new buckets
  abbrev pub push_node :
      (K → ℕ) → ℕ → HmapNode K V → List (List (HmapNode K V)) → List (List (HmapNode K V))
  push_node hash_func n node buckets =
      let i = hash_func node.key % n in set buckets i (node ∷ get_or buckets i [])

  -- the inner and the outer loop of hmap_grow
  unfoldable pub move_chain :
      (K → ℕ) → ℕ → List (HmapNode K V) → List (List (HmapNode K V)) → List (List (HmapNode K V))
  move_chain hash_func n [] new_buckets = new_buckets
  move_chain hash_func n (node ∷ chain) new_buckets =
      move_chain hash_func n chain (push_node hash_func n node new_buckets)

  unfoldable pub move_chains :
      (K → ℕ)
      → ℕ
      → List (List (HmapNode K V))
      → List (List (HmapNode K V))
      → List (List (HmapNode K V))
  unfolding move_chain
  move_chains hash_func n [] new_buckets = new_buckets
  move_chains hash_func n (chain ∷ chains) new_buckets =
      move_chains hash_func n chains (move_chain hash_func n chain new_buckets)

  unfoldable pub hmap_grow : Bool → Hmap K V → Hmap K V
  unfolding move_chains
  hmap_grow granted h =
      let new_nbuckets = u64 (h.nbuckets * 2) in
      if granted
      then record h {
        buckets = move_chains h.hash_func new_nbuckets h.buckets (replicate new_nbuckets []);
        nbuckets = new_nbuckets;
      }
      else h

  -- the first node of a chain that has the key
  unfoldable pub find_node : (K → K → Bool) → K → List (HmapNode K V) → Option (HmapNode K V)
  find_node key_compare key [] = none
  find_node key_compare key (node ∷ chain) =
      let rest = find_node key_compare key chain in
      if key_compare node.key key then some node else rest

  -- the chain in which that node has another value, and the chain without that node
  unfoldable pub update_node : (K → K → Bool) → K → V → List (HmapNode K V) → List (HmapNode K V)
  update_node key_compare key value [] = []
  update_node key_compare key value (node ∷ chain) =
      let rest = update_node key_compare key value chain in
      if key_compare node.key key then record node { value = value } ∷ chain else node ∷ rest

  unfoldable pub unlink_node : (K → K → Bool) → K → List (HmapNode K V) → List (HmapNode K V)
  unlink_node key_compare key [] = []
  unlink_node key_compare key (node ∷ chain) =
      let rest = unlink_node key_compare key chain in
      if key_compare node.key key then chain else node ∷ rest

  abbrev pub bucket_index : Hmap K V → K → ℕ
  bucket_index h key = h.hash_func key % h.nbuckets

  abbrev pub chain_of : Hmap K V → K → List (HmapNode K V)
  chain_of h key = get_or h.buckets (bucket_index h key) []

  abbrev pub with_chain : Hmap K V → K → List (HmapNode K V) → Hmap K V
  with_chain h key chain = record h { buckets = set h.buckets (bucket_index h key) chain }

  -- hmap_insert once there is room; `none` is the NULL of a node that gets no memory
  unfoldable pub insert_node : Bool → Hmap K V → K → V → Option (HmapNode K V) × Hmap K V
  unfolding find_node update_node
  insert_node granted h key value = elim (find_node h.key_compare key (chain_of h key)) [
    | some node ↦ (
      some (record node { value = value }),
      with_chain h key (update_node h.key_compare key value (chain_of h key)),
    )
    | none ↦
        let node : HmapNode K V = record { key = key; value = value } in
        if granted
        then (
          some node,
          record (with_chain h key (node ∷ chain_of h key)) { len = u64 (h.len + 1) },
        )
        else (none, h)
  ]

  -- The first argument is for the buckets of hmap_grow, the second for the node. At 75% load or
  -- more the table grows first.
  unfoldable pub hmap_insert : Bool → Bool → Hmap K V → K → V → Option (HmapNode K V) × Hmap K V
  unfolding hmap_grow insert_node
  hmap_insert granted_buckets granted h key value =
      insert_node granted
        (if leb (h.nbuckets - h.nbuckets / 4) h.len then hmap_grow granted_buckets h else h) key
        value

  unfoldable pub hmap_get : Hmap K V → K → Option (HmapNode K V)
  unfolding find_node
  hmap_get h key = find_node h.key_compare key (chain_of h key)

  unfoldable pub hmap_get_value : Hmap K V → K → Option V
  unfolding hmap_get
  hmap_get_value h key = elim (hmap_get h key) [ some node ↦ some node.value | none ↦ none ]

  -- The value goes through `out`; `none` is -1.
  unfoldable pub hmap_delete : Hmap K V → K → Option V × Hmap K V
  unfolding find_node unlink_node
  hmap_delete h key = elim (find_node h.key_compare key (chain_of h key)) [
    | some node ↦ (
      some node.value,
      record (with_chain h key (unlink_node h.key_compare key (chain_of h key))) {
        len = u64 (h.len + 2 ^ 64 - 1);
      },
    )
    | none ↦ (none, h)
  ]

  unfoldable pub hmap_contains : Hmap K V → K → Bool
  unfolding find_node
  hmap_contains h key = elim (find_node h.key_compare key (chain_of h key)) [
    | some node ↦ true
    | none ↦ false
  ]

  unfoldable pub hmap_size : Hmap K V → ℕ
  hmap_size h = h.len

  -- an assignment through HMAP_VALUE to the value of the node that a lookup of `key` finds
  unfoldable pub hmap_set_value : Hmap K V → K → V → Hmap K V
  unfolding update_node
  hmap_set_value h key value =
      with_chain h key (update_node h.key_compare key value (chain_of h key))

-- `node` is the chain from the current node on, empty where the node is NULL.
pub record HmapIterator {ℓ} (K V : Type ℓ) : Type ℓ where
  pub bucket_idx : ℕ
  pub node : List (HmapNode K V)

module _ {ℓ} {K V : Type ℓ} where
  unfoldable pub hmap_iter_init : HmapIterator K V
  hmap_iter_init = record { bucket_idx = 0; node = [] }

  -- the search for the next chain that is not empty, over the buckets left
  unfoldable pub next_chain : List (List (HmapNode K V)) → ℕ → Bool × HmapIterator K V
  next_chain [] i = (false, record { bucket_idx = i; node = [] })
  next_chain ([] ∷ chains) i = next_chain chains (i + 1)
  next_chain ((node ∷ chain) ∷ chains) i =
      (true, record { bucket_idx = i + 1; node = node ∷ chain })

  unfoldable pub hmap_iter_next : Hmap K V → HmapIterator K V → Bool × HmapIterator K V
  unfolding next_chain
  hmap_iter_next h iter = step iter.node
    where
      step : List (HmapNode K V) → Bool × HmapIterator K V
      step (_ ∷ node ∷ chain) = (true, record iter { node = node ∷ chain })
      step _ = next_chain (drop iter.bucket_idx h.buckets) iter.bucket_idx

  unfoldable pub hmap_iter_value : HmapIterator K V → Option V
  hmap_iter_value iter = current iter.node
    where
      current : List (HmapNode K V) → Option V
      current [] = none
      current (node ∷ chain) = some node.value

  unfoldable pub hmap_iter_key : HmapIterator K V → Option K
  hmap_iter_key iter = current iter.node
    where
      current : List (HmapNode K V) → Option K
      current [] = none
      current (node ∷ chain) = some node.key
