-- ===== src/Hmap/Iterate.antt =====
-- The iterator as a walk over the nodes of the chains.
use mustdb.Hmap.{HmapNode, Hmap, HmapIterator, next_chain, hmap_iter_next, hmap_iter_value}
use mustdb.Prelude.{
  ℕ, zero, suc, ◌+◌, ◌≡◌, refl, ap, arith, Bool, true, false, some, List, [], ◌∷◌, ◌++◌, drop,
}

drop-suc {ℓ} :
    {A : Type ℓ} (j i : ℕ) (xs : List A) (y : A) (ys : List A)
    → j ≡ suc i
    → drop i xs ≡ y ∷ ys
    → drop j xs ≡ ys
drop-suc zero i xs y ys h e = absurd (omega arith)
drop-suc (suc j) zero [] y ys h e = cc
drop-suc (suc j) zero (x ∷ xs) y ys h e =
    let none_skipped : j ≡ 0 = omega arith in rw none_skipped (tail_of xs e)
  where
    tail_of : (zs : List _) → x ∷ zs ≡ y ∷ ys → zs ≡ ys
    tail_of zs e = cc
drop-suc (suc j) (suc i) [] y ys h e = cc
drop-suc (suc j) (suc i) (x ∷ xs) y ys h e = drop-suc j i xs y ys (omega arith) e

module _ {ℓ} {K V : Type ℓ} where
  -- the nodes of some chains
  unfoldable pub nodes_of : List (List (HmapNode K V)) → List (HmapNode K V)
  nodes_of [] = []
  nodes_of (chain ∷ chains) = chain ++ nodes_of chains

  abbrev behind : List (HmapNode K V) → List (HmapNode K V)
  behind [] = []
  behind (node ∷ chain) = chain

  -- the nodes that an iterator has still to visit
  abbrev pub rest_of : List (List (HmapNode K V)) → HmapIterator K V → List (HmapNode K V)
  rest_of buckets iter = behind iter.node ++ nodes_of (drop iter.bucket_idx buckets)

  -- a step to the first of the nodes left, or the end
  abbrev pub Advances :
      List (List (HmapNode K V)) → Bool × HmapIterator K V → List (HmapNode K V) → Type ℓ
  Advances buckets r [] = (r.0 ≡ false) × Unit {ℓ}
  Advances buckets r (node ∷ nodes) =
      (r.0 ≡ true) × (hmap_iter_value r.1 ≡ some node.value) × (rest_of buckets r.1 ≡ nodes)

  drop_next :
      (buckets : List (List (HmapNode K V))) (i : ℕ) (chain : List (HmapNode K V))
      (chains : List (List (HmapNode K V)))
      → drop i buckets ≡ chain ∷ chains
      → drop (i + 1) buckets ≡ chains
  drop_next buckets i chain chains e = drop-suc (i + 1) i buckets chain chains (omega arith) e

  next_chain-Advances :
      (buckets chains : List (List (HmapNode K V))) (i : ℕ)
      → drop i buckets ≡ chains
      → Advances buckets (next_chain chains i) (nodes_of chains)
  unfolding next_chain nodes_of hmap_iter_value
  next_chain-Advances buckets [] i e = (refl, tt)
  next_chain-Advances buckets ([] ∷ chains) i e =
      next_chain-Advances buckets chains (i + 1) (drop_next buckets i [] chains e)
  next_chain-Advances buckets ((node ∷ chain) ∷ chains) i e = (
    refl,
    refl,
    ap (λ (t : List (List (HmapNode K V))). chain ++ nodes_of t)
        (drop_next buckets i (node ∷ chain) chains e),
  )

  pub iter_next-Advances :
      (h : Hmap K V) (i : ℕ) (chain : List (HmapNode K V))
      → let iter : HmapIterator K V = record { bucket_idx = i; node = chain } in
        Advances h.buckets (hmap_iter_next h iter) (rest_of h.buckets iter)
  unfolding hmap_iter_next hmap_iter_value
  iter_next-Advances h i [] = next_chain-Advances h.buckets (drop i h.buckets) i refl
  iter_next-Advances h i (node ∷ []) = next_chain-Advances h.buckets (drop i h.buckets) i refl
  iter_next-Advances h i (node ∷ (next ∷ chain)) = (refl, refl, refl)
