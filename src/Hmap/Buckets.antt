-- ===== src/Hmap/Buckets.antt =====
-- The well-formed hash table, and what replacing one of its chains does to it.
use mustdb.Hmap.Chain.{IsEquality, Distinct}
use mustdb.Hmap.{HmapNode, Hmap, bucket_index, chain_of, with_chain, find_node, hmap_get}
use mustdb.Prelude.{
  ℕ, ◌<◌, ◌≡◌, ◌≢◌, ◌⊎◌, inl, inr, ap, ◌∙◌, arith, none, List, [], length, get_or, set, length-set,
  get_or-set_self, get_or-set_ne,
}
use mathlib.Core.Path.{subst}
use native.Mathlib.Nat.{mod-lt}

-- There is a chain for each bucket, no key stands twice in a chain, and a key stands in no chain but
-- the one of its bucket.
pub record IsMap {ℓ} {K V : Type ℓ} (h : Hmap K V) : Type ℓ where
  pub law : IsEquality h.key_compare
  pub size : length h.buckets ≡ h.nbuckets
  pub filled : 0 < h.nbuckets
  pub distinct : (i : ℕ) → Distinct h.key_compare (get_or h.buckets i [])
  pub placed :
      (i : ℕ) (k : K)
      → bucket_index h k ≢ i
      → find_node h.key_compare k (get_or h.buckets i []) ≡ none

pub nat-cases : (i j : ℕ) → (i ≡ j) ⊎ (i ≢ j)
nat-cases i j = omega arith

module _ {ℓ} {K V : Type ℓ} (h : Hmap K V) (m : IsMap h) (k : K) where
  pub index-lt : bucket_index h k < length h.buckets
  index-lt = rw m.size (mod-lt (h.hash_func k) m.filled)

  -- One chain is replaced by another one, of keys of its bucket.
  pub with_chain-IsMap :
      (chain : List (HmapNode K V))
      → Distinct h.key_compare chain
      → ((j : K) → bucket_index h j ≢ bucket_index h k → find_node h.key_compare j chain ≡ none)
      → IsMap (with_chain h k chain)
  with_chain-IsMap chain d own = record {
    law = m.law;
    size = rw length-set m.size;
    filled = m.filled;
    distinct = λ i. elim (nat-cases (bucket_index h k) i) [
      | inl e ↦
          subst
            (λ (n : ℕ).
              Distinct h.key_compare (get_or (set h.buckets (bucket_index h k) chain) n []))
            e (rw (get_or-set_self h.buckets (bucket_index h k) chain [] index-lt) d)
      | inr ne ↦ rw (get_or-set_ne h.buckets (bucket_index h k) i chain [] ne) (m.distinct i)
    ];
    placed = λ i j far. elim (nat-cases (bucket_index h k) i) [
      | inl e ↦
          subst
            (λ (n : ℕ).
              find_node h.key_compare j (get_or (set h.buckets (bucket_index h k) chain) n [])
              ≡ none)
            e
            (rw (get_or-set_self h.buckets (bucket_index h k) chain [] index-lt)
              (own j (λ e'. far (e' ∙ e))))
      | inr ne ↦ rw (get_or-set_ne h.buckets (bucket_index h k) i chain [] ne) (m.placed i j far)
    ];
  }

  pub get-with_chain_self :
      (chain : List (HmapNode K V))
      → hmap_get (with_chain h k chain) k ≡ find_node h.key_compare k chain
  unfolding hmap_get
  get-with_chain_self chain =
      ap (find_node h.key_compare k)
        (get_or-set_self h.buckets (bucket_index h k) chain [] index-lt)

  pub get-with_chain_other :
      (chain : List (HmapNode K V)) (j : K)
      → find_node h.key_compare j chain ≡ find_node h.key_compare j (chain_of h k)
      → hmap_get (with_chain h k chain) j ≡ hmap_get h j
  unfolding hmap_get
  get-with_chain_other chain j same = elim (nat-cases (bucket_index h k) (bucket_index h j)) [
    | inl e ↦
        subst
          (λ (n : ℕ).
            find_node h.key_compare j (get_or (set h.buckets (bucket_index h k) chain) n [])
            ≡ find_node h.key_compare j (get_or h.buckets n []))
          e
          (ap (find_node h.key_compare j)
              (get_or-set_self h.buckets (bucket_index h k) chain [] index-lt)
            ∙ same)
    | inr ne ↦
        ap (find_node h.key_compare j)
          (get_or-set_ne h.buckets (bucket_index h k) (bucket_index h j) chain [] ne)
  ]

-- The number of nodes says nothing about the chains.
pub with_len-IsMap {ℓ} :
    {K V : Type ℓ} (h : Hmap K V) (len : ℕ) → IsMap h → IsMap (record h { len = len })
with_len-IsMap h len m = record {
  law = m.law;
  size = m.size;
  filled = m.filled;
  distinct = m.distinct;
  placed = m.placed;
}
