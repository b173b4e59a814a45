-- ===== src/Hmap/Chain.antt =====
-- One chain of nodes: finding a key, and what updating and unlinking do to it, where the key
-- comparison is equality.
use mustdb.Hmap.{HmapNode, find_node, update_node, unlink_node}
use mustdb.Prelude.{
  ◌≡◌, ◌≢◌, ◌⊎◌, ◌↔◌, inl, inr, refl, sym, ap, ◌∙◌, Bool, true, false, Option, none, some, List, [],
  ◌∷◌, Bool-cases,
}

-- the comparison agrees with equality
abbrev pub IsEquality {ℓ} : {K : Type ℓ} → (K → K → Bool) → Type ℓ
IsEquality {K = K} same = (a b : K) → (same a b ≡ true) ↔ (a ≡ b)

pub same-cases {ℓ} :
    {K : Type ℓ} (same : K → K → Bool)
    → IsEquality same
    → (a b : K) → ((same a b ≡ true) × (a ≡ b)) ⊎ ((same a b ≡ false) × (a ≢ b))
same-cases same law a b = elim (Bool-cases (same a b)) [
  | inl t ↦ inl (t, (law a b).0 t)
  | inr f ↦ inr (f, λ e. true≢false (sym ((law a b).1 e) ∙ f))
]
  where
    true≢false : true ≢ false
    true≢false = cc

-- No key stands twice in the chain.
pub data Distinct {ℓ} {K V : Type ℓ} (same : K → K → Bool) : List (HmapNode K V) → Type ℓ where
  empty : Distinct same []
  more :
      {node : HmapNode K V} {chain : List (HmapNode K V)}
      → find_node same node.key chain ≡ none
      → Distinct same chain
      → Distinct same (node ∷ chain)

module _ {ℓ} {K V : Type ℓ} (same : K → K → Bool) (law : IsEquality same) where
  pub find-cons_self :
      (node : HmapNode K V) (chain : List (HmapNode K V)) (k : K)
      → node.key ≡ k
      → find_node same k (node ∷ chain) ≡ some node
  unfolding find_node
  find-cons_self node chain k e = rw ((law node.key k).1 e)

  pub find-cons_other :
      (node : HmapNode K V) (chain : List (HmapNode K V)) (k : K)
      → node.key ≢ k
      → find_node same k (node ∷ chain) ≡ find_node same k chain
  unfolding find_node
  find-cons_other node chain k ne = elim (same-cases same law node.key k) [
    | inl (_, e) ↦ absurd (ne e)
    | inr (f, _) ↦ rw f
  ]

  abbrev with_value : V → Option (HmapNode K V) → Option (HmapNode K V)
  with_value v none = none
  with_value v (some node) = some (record node { value = v })

  pub find-update_self :
      (chain : List (HmapNode K V)) (k : K) (v : V) (node : HmapNode K V)
      → find_node same k chain ≡ some node
      → find_node same k (update_node same k v chain) ≡ some (record node { value = v })
  unfolding find_node update_node
  find-update_self [] k v node h = cc
  find-update_self (n ∷ chain) k v node h = elim (same-cases same law n.key k) [
    | inl (t, e) ↦ rw t (
        find-cons_self (record n { value = v }) chain k e
        ∙ ap (with_value v) (sym (find-cons_self n chain k e) ∙ h))
    | inr (f, ne) ↦
        rw (f, f) (find-update_self chain k v node (sym (find-cons_other n chain k ne) ∙ h))
  ]

  pub find-update_other :
      (chain : List (HmapNode K V)) (k j : K) (v : V)
      → k ≢ j
      → find_node same j (update_node same k v chain) ≡ find_node same j chain
  unfolding find_node update_node
  find-update_other [] k j v ne = refl
  find-update_other (n ∷ chain) k j v ne = elim (same-cases same law n.key k) [
    | inl (t, e) ↦
        let other : n.key ≢ j = λ e'. ne (sym e ∙ e') in
        rw t (
          find-cons_other (record n { value = v }) chain j other
          ∙ sym (find-cons_other n chain j other))
    | inr (f, _) ↦ rw (f, find-update_other chain k j v ne)
  ]

  pub find-unlink_self :
      (chain : List (HmapNode K V)) (k : K)
      → Distinct same chain
      → find_node same k (unlink_node same k chain) ≡ none
  unfolding find_node unlink_node
  find-unlink_self [] k d = refl
  find-unlink_self (n ∷ chain) k (more absent d) = elim (same-cases same law n.key k) [
    | inl (t, e) ↦ rw t (ap (λ (j : K). find_node same j chain) (sym e) ∙ absent)
    | inr (f, _) ↦ rw (f, f) (find-unlink_self chain k d)
  ]

  pub find-unlink_other :
      (chain : List (HmapNode K V)) (k j : K)
      → k ≢ j
      → find_node same j (unlink_node same k chain) ≡ find_node same j chain
  unfolding find_node unlink_node
  find-unlink_other [] k j ne = refl
  find-unlink_other (n ∷ chain) k j ne = elim (same-cases same law n.key k) [
    | inl (t, e) ↦ rw t (sym (find-cons_other n chain j (λ e'. ne (sym e ∙ e'))))
    | inr (f, _) ↦ rw (f, find-unlink_other chain k j ne)
  ]

  pub update_node-Distinct :
      (chain : List (HmapNode K V)) (k : K) (v : V)
      → Distinct same chain
      → Distinct same (update_node same k v chain)
  unfolding update_node
  update_node-Distinct [] k v d = empty
  update_node-Distinct (n ∷ chain) k v (more absent d) = elim (same-cases same law n.key k) [
    | inl (t, e) ↦ rw t (more absent d)
    | inr (f, ne) ↦ rw f (
        more (find-update_other chain k n.key v (λ e. ne (sym e)) ∙ absent)
          (update_node-Distinct chain k v d))
  ]

  pub unlink_node-Distinct :
      (chain : List (HmapNode K V)) (k : K)
      → Distinct same chain
      → Distinct same (unlink_node same k chain)
  unfolding unlink_node
  unlink_node-Distinct [] k d = empty
  unlink_node-Distinct (n ∷ chain) k (more absent d) = elim (same-cases same law n.key k) [
    | inl (t, e) ↦ rw t d
    | inr (f, ne) ↦ rw f (
        more (find-unlink_other chain k n.key (λ e. ne (sym e)) ∙ absent)
          (unlink_node-Distinct chain k d))
  ]
