-- ===== src/Storage/Manager/Ids.antt =====
-- The ids of blocks that SingleFileExtentManager hands out (get_free_block_id, create_block).
use mustdb.Prelude.{
  ℕ, ◌+◌, ◌^◌, ◌≤◌, ◌<◌, ◌≡◌, refl, arith, List, [], ◌∷◌, ◌==◌, if◌then◌else◌, ◌⊎◌, inl, inr, true,
  length, ltb, lt→ltb,
}
use mustdb.Storage.Manager.{
  Block, Manager, last_or, but_last, get_free_block_id, create_block, block_create,
}

-- 1 where the two ids are the same one
unfoldable pub hit : ℕ → ℕ → ℕ
hit x id = if x == id then 1 else 0

-- how often an id stands in a list
abbrev pub count : ℕ → List ℕ → ℕ
count id [] = 0
count id (x ∷ xs) = hit x id + count id xs

-- No id of the blocks in use and of the free ones stands twice, and all are below `max_block`.
pub record IsAllocated (m : Manager) (live : List ℕ) : Type 0 where
  pub once : (id : ℕ) → count id live + count id m.free_list ≤ 1
  pub below : (id : ℕ) → m.max_block ≤ id → count id live + count id m.free_list ≡ 0

hit-cases : (x id : ℕ) → ((x ≡ id) × (hit x id ≡ 1)) ⊎ (hit x id ≡ 0)
unfolding hit
hit-cases x id = ground arith

hit_self : (id : ℕ) → hit id id ≡ 1
unfolding hit
hit_self id = ground arith

-- the last element and the others make up the list
count-but_last :
    (id x : ℕ) (xs : List ℕ)
    → count id (x ∷ xs) ≡ hit (last_or 0 (x ∷ xs)) id + count id (but_last (x ∷ xs))
count-but_last id x [] = refl
count-but_last id x (y ∷ xs) = omega (arith, count-but_last id y xs)

List-cases : (xs : List ℕ) → (xs ≡ []) ⊎ ((y : ℕ) × (ys : List ℕ) × (xs ≡ y ∷ ys))
List-cases [] = inl refl
List-cases (y ∷ ys) = inr (y, ys, refl)

lt_or_le : (a b : ℕ) → (a < b) ⊎ (b ≤ a)
lt_or_le a b = omega arith

-- What create_block promises of the id it hands out.
pub Creates : Manager → List ℕ → Block → Manager → Type 0
Creates m live b m' =
    (count b.id live ≡ 0)
    × (count b.id m'.free_list ≡ 0)
    × (b.id < m'.max_block)
    × IsAllocated m' (b.id ∷ live)

-- When the ids in use and on the free list are distinct and below max_block, a created block has
-- an id that is in neither, and that stays so for the new state, as long as max_block + 1 is a
-- machine word.
pub create_block-IsAllocated :
    (m : Manager) (live : List ℕ)
    → IsAllocated m live
    → m.max_block + 1 < 2 ^ 64
    → Creates m live (create_block m).0 (create_block m).1
unfolding create_block get_free_block_id block_create Creates
create_block-IsAllocated m live a room = elim (List-cases m.free_list) [
  | inl e ↦
      let n = m.max_block in
      let all : (id : ℕ) → count id m.free_list ≡ 0 = λ id. rw e refl in
      rw e (
        (omega (arith, a.below n (omega arith))),
        refl,
        omega arith,
        record {
          once = λ id. elim (hit-cases n id) [
            | inl (same, one) ↦ omega (arith, one, all id, a.below id (omega (arith, same)))
            | inr other ↦ omega (arith, other, all id, a.once id)
          ];
          below = λ id out. elim (hit-cases n id) [
            | inl (same, one) ↦ absurd (omega (arith, same, out))
            | inr other ↦ omega (arith, other, all id, a.below id (omega (arith, out)))
          ];
        },
      )
  | inr (y, ys, e) ↦
      let n = last_or 0 (y ∷ ys) in
      let parts : (id : ℕ) → count id m.free_list ≡ hit n id + count id (but_last (y ∷ ys)) =
        λ id. rw e (count-but_last id y ys) in
      let alone : count n live + count n m.free_list ≤ 1 = a.once n in
      let low : n < m.max_block = elim (lt_or_le n m.max_block) [
        | inl l ↦ l
        | inr out ↦ absurd (omega (arith, a.below n out, parts n, hit_self n))
      ] in
      let some_free : ltb 0 (length (y ∷ ys)) ≡ true = lt→ltb 0 (length (y ∷ ys)) (omega arith) in
      rw (e, some_free)
        (
          omega (arith, alone, parts n, hit_self n),
          omega (arith, alone, parts n, hit_self n),
          low,
          record {
            once = λ id. omega (arith, a.once id, parts id);
            below = λ id out. omega (arith, a.below id out, parts id);
          },
        )
]
