-- ===== src/Hmap/Grow.antt =====
-- hmap_grow: every node moves to its chain of the larger table, and lookups stay the same.
use mustdb.Hmap.Buckets.{
  IsMap, with_chain-IsMap, get-with_chain_self, get-with_chain_other, nat-cases,
}
use mustdb.Hmap.Chain.{
  IsEquality, Distinct, empty, more, same-cases, find-cons_self, find-cons_other,
}
use mustdb.Hmap.{
  HmapNode, Hmap, bucket_index, chain_of, with_chain, find_node, move_chain, move_chains, hmap_get,
}
use mustdb.Prelude.{
  ℕ, zero, suc, ◌+◌, ◌-◌, ◌%◌, ◌≤◌, ◌<◌, ◌≡◌, ◌≢◌, ◌⊎◌, inl, inr, refl, sym, ap, ap₂, ◌∙◌, arith,
  Option, none, some, List, [], ◌∷◌, get_or, replicate, length-replicate,
}

abbrev or_else {ℓ} : {A : Type ℓ} → Option A → Option A → Option A
or_else (some a) o = some a
or_else none o = o

or_else-none {ℓ} : {A : Type ℓ} (o : Option A) → or_else o none ≡ o
or_else-none none = refl
or_else-none (some a) = refl

get_or-replicate {ℓ} : {A : Type ℓ} (n i : ℕ) (a : A) → get_or (replicate n a) i a ≡ a
get_or-replicate zero i a = refl
get_or-replicate (suc n) zero a = refl
get_or-replicate (suc n) (suc i) a = get_or-replicate n i a

plus_zero : (i : ℕ) → i + 0 ≡ i
plus_zero i = omega arith

plus_suc : (i q : ℕ) → i + suc q ≡ suc i + q
plus_suc i q = omega arith

zero_as : (i j : ℕ) → j ≡ i → 0 ≡ j - i
zero_as i j e = omega arith

suc_as : (i j : ℕ) → i < j → suc (j - suc i) ≡ j - i
suc_as i j lt = omega arith

-- A table of empty chains is well-formed and finds nothing.
pub empty-IsMap {ℓ} :
    {K V : Type ℓ} (h : Hmap K V) (n : ℕ)
    → IsEquality h.key_compare
    → 0 < n
    → IsMap (record h { buckets = replicate n []; nbuckets = n })
unfolding find_node
empty-IsMap {K = K} {V = V} h n law pos = record {
  law = law;
  size = length-replicate n [];
  filled = pos;
  distinct = λ i. rw (get_or-replicate {A = List (HmapNode K V)} n i []) empty;
  placed = λ i k far. rw (get_or-replicate {A = List (HmapNode K V)} n i []) refl;
}

pub get-empty {ℓ} :
    {K V : Type ℓ} (h : Hmap K V) (n : ℕ) (k : K)
    → hmap_get (record h { buckets = replicate n []; nbuckets = n }) k ≡ none
unfolding hmap_get
get-empty {K = K} {V = V} h n k =
    ap (find_node h.key_compare k)
      (get_or-replicate {A = List (HmapNode K V)} n (h.hash_func k % n) [])

module _ {ℓ} {K V : Type ℓ} (h : Hmap K V) (law : IsEquality h.key_compare) (n : ℕ) where
  -- the table with the new buckets as they are filled
  abbrev table : List (List (HmapNode K V)) → Hmap K V
  table buckets = record h { buckets = buckets; nbuckets = n }

  -- What one chain adds, where none of its keys is in the new table yet.
  move_chain-IsMap :
      (chain : List (HmapNode K V)) (acc : List (List (HmapNode K V)))
      → Distinct h.key_compare chain
      → IsMap (table acc)
      → ((j : K) → (find_node h.key_compare j chain ≡ none) ⊎ (hmap_get (table acc) j ≡ none))
      → let t = table (move_chain h.hash_func n chain acc) in
        IsMap t
        × ((j : K)
            → hmap_get t j ≡ or_else (find_node h.key_compare j chain) (hmap_get (table acc) j))
  unfolding move_chain hmap_get
  move_chain-IsMap [] acc d m apart = (m, λ j. refl)
  move_chain-IsMap (node ∷ chain) acc (more absent d) m apart =
      let t = table acc in
      let pushed = node ∷ chain_of t node.key in
      let t1 = with_chain t node.key pushed in
      let fresh : hmap_get t node.key ≡ none = elim (apart node.key) [
        | inl e ↦
            let bad : none ≡ some node =
              sym e ∙ find-cons_self h.key_compare law node chain node.key refl in
            cc
        | inr e ↦ e
      ] in
      let own : (j : K) → bucket_index t j ≢ bucket_index t node.key → node.key ≢ j =
        λ j far e. far (ap (bucket_index t) (sym e)) in
      let m1 : IsMap t1 =
        with_chain-IsMap t m node.key pushed (more fresh (m.distinct (bucket_index t node.key)))
          (λ j far.
            find-cons_other h.key_compare law node (chain_of t node.key) j (own j far)
            ∙ m.placed (bucket_index t node.key) j far) in
      let here : hmap_get t1 node.key ≡ some node =
        get-with_chain_self t m node.key pushed
        ∙ find-cons_self h.key_compare law node (chain_of t node.key) node.key refl in
      let there : (j : K) → node.key ≢ j → hmap_get t1 j ≡ hmap_get t j = λ j ne.
        get-with_chain_other t m node.key pushed j
          (find-cons_other h.key_compare law node (chain_of t node.key) j ne) in
      let (m2, rest) = move_chain-IsMap chain t1.buckets d m1 (λ j.
        elim (same-cases h.key_compare law node.key j) [
          | inl (_, e) ↦ inl (ap (λ (q : K). find_node h.key_compare q chain) (sym e) ∙ absent)
          | inr (_, ne) ↦ elim (apart j) [
            | inl a ↦ inl (sym (find-cons_other h.key_compare law node chain j ne) ∙ a)
            | inr b ↦ inr (there j ne ∙ b)
          ]
        ]) in
      (
        m2,
        λ j. rest j ∙ elim (same-cases h.key_compare law node.key j) [
          | inl (_, e) ↦
              ap₂ or_else (ap (λ (q : K). find_node h.key_compare q chain) (sym e) ∙ absent)
                (ap (hmap_get t1) (sym e) ∙ here)
              ∙ sym (
                  ap (λ (o : Option (HmapNode K V)). or_else o (hmap_get t j))
                    (find-cons_self h.key_compare law node chain j e))
          | inr (_, ne) ↦
              ap₂ or_else (sym (find-cons_other h.key_compare law node chain j ne)) (there j ne)
        ],
      )

  -- What the chains from bucket `i` of the old table on add, where the new table has only keys of
  -- the earlier ones.
  pub move_chains-IsMap :
      (i : ℕ) (chains acc : List (List (HmapNode K V)))
      → ((q : ℕ) → Distinct h.key_compare (get_or chains q []))
      → ((q : ℕ) (j : K)
          → bucket_index h j ≢ i + q
          → find_node h.key_compare j (get_or chains q []) ≡ none)
      → IsMap (table acc)
      → ((j : K) → i ≤ bucket_index h j → hmap_get (table acc) j ≡ none)
      → let t = table (move_chains h.hash_func n chains acc) in
        IsMap t
        × ((j : K) → bucket_index h j < i → hmap_get t j ≡ hmap_get (table acc) j)
        × ((j : K)
            → i ≤ bucket_index h j
            → hmap_get t j ≡ find_node h.key_compare j (get_or chains (bucket_index h j - i) []))
  unfolding move_chains find_node
  move_chains-IsMap i [] acc d placed m later = (m, (λ j lt. refl), later)
  move_chains-IsMap i (chain ∷ chains) acc d placed m later =
      let here : (j : K) → bucket_index h j ≢ i → find_node h.key_compare j chain ≡ none =
        λ j ne. placed 0 j (λ e. ne (e ∙ plus_zero i)) in
      let (m1, adds) = move_chain-IsMap chain acc (d 0) m (λ j.
        elim (nat-cases (bucket_index h j) i) [
          | inl e ↦ inr (later j (omega (arith, e)))
          | inr ne ↦ inl (here j ne)
        ]) in
      let acc1 = move_chain h.hash_func n chain acc in
      let skip : (j : K) → bucket_index h j ≢ i → hmap_get (table acc1) j ≡ hmap_get (table acc) j =
        λ j ne.
          adds j
          ∙ ap (λ (o : Option (HmapNode K V)). or_else o (hmap_get (table acc) j)) (here j ne) in
      let (m2, early, late) =
        move_chains-IsMap (suc i) chains acc1 (λ q. d (suc q))
          (λ q j ne. placed (suc q) j (λ e. ne (e ∙ plus_suc i q))) m1
          (λ j lt. skip j (λ e. absurd (omega (arith, e, lt))) ∙ later j (omega (arith, lt))) in
      (
        m2,
        (λ j lt. early j (omega (arith, lt)) ∙ skip j (λ e. absurd (omega (arith, e, lt)))),
        λ j le. elim (nat-cases (bucket_index h j) i) [
          | inl e ↦
              early j (omega (arith, e))
              ∙ adds j
              ∙ ap (or_else (find_node h.key_compare j chain)) (later j le)
              ∙ or_else-none (find_node h.key_compare j chain)
              ∙ ap (λ (q : ℕ). find_node h.key_compare j (get_or (chain ∷ chains) q []))
                  (zero_as i (bucket_index h j) e)
          | inr ne ↦
              late j (omega (arith, ne, le))
              ∙ ap (λ (q : ℕ). find_node h.key_compare j (get_or (chain ∷ chains) q []))
                  (suc_as i (bucket_index h j) (omega (arith, ne, le)))
        ],
      )
