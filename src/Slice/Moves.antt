-- ===== src/Slice/Moves.antt =====
-- Inserting and removing elements of a slice, and going through it, against the lists it holds.
use mustdb.Prelude.{
  blit, ◌∙◌, if◌then◌else◌, ℕ, zero, suc, ◌+◌, ◌-◌, ◌≤◌, ◌<◌, ◌≡◌, refl, ap, arith, true, false,
  Option, none, some, List, [], ◌∷◌, ◌++◌, length, length-append, get_or, get_elem?, take, drop,
  length-take, length-drop, u64, Bool-cases, inl, inr, leb, ltb, le→ltb,
}
use mustdb.Slice.Cells.{written, set-written_end, get_or-written, insert-written, erase-written}
use mustdb.Slice.Refine.{Represents, capacity-lt, MayGrow, slice_grow-Represents}
use mustdb.Slice.{ok, Slice, slice_insert, insert_cell, slice_erase, slice_foreach, slice_iter_init}

module _ {ℓ} {A : Type ℓ} where
  take-drop_end :
      (xs : List A) (x : A) → take (length xs) xs ++ x ∷ drop (length xs) xs ≡ xs ++ x ∷ []
  take-drop_end [] x = refl
  take-drop_end (y ∷ xs) x = ap (λ (t : List A). y ∷ t) (take-drop_end xs x)

  erase_last :
      (xs : List A) (spare : List (Option A)) (i : ℕ)
      → length xs ≡ suc i
      → (c : Option A) × (written xs ++ spare ≡ written (take i xs ++ drop (suc i) xs) ++ c ∷ spare)
  erase_last [] spare i h = absurd (omega arith)
  erase_last (y ∷ []) spare zero h = (some y, refl)
  erase_last (y ∷ z ∷ xs) spare zero h = absurd (omega arith)
  erase_last (y ∷ xs) spare (suc i) h =
      let (c, e) = erase_last xs spare i (omega arith) in
      (c, ap (λ (t : List (Option A)). some y ∷ t) e)

  drop-get_elem? :
      (xs : List A) (i : ℕ)
      → i < length xs
      → (x : A) × (get_elem? xs i ≡ some x) × (drop i xs ≡ x ∷ drop (suc i) xs)
  drop-get_elem? [] i h = absurd (omega arith)
  drop-get_elem? (y ∷ xs) zero h = (y, refl, refl)
  drop-get_elem? (y ∷ xs) (suc i) h = drop-get_elem? xs i (omega arith)

  drop-past : (xs : List A) (i : ℕ) → length xs ≤ i → drop i xs ≡ []
  drop-past [] zero h = refl
  drop-past [] (suc i) h = refl
  drop-past (y ∷ xs) zero h = absurd (omega arith)
  drop-past (y ∷ xs) (suc i) h = drop-past xs i (omega arith)

  insert_cells :
      (s : Slice A) (xs : List A) (c : Option A) (spare : List (Option A)) (i : ℕ) (x : A)
      → s.size ≡ length xs
      → s.cells ≡ written xs ++ c ∷ spare
      → i ≤ length xs
      → (insert_cell s i x).cells ≡ written (take i xs ++ x ∷ drop i xs) ++ spare
  insert_cells s xs c spare i x n e le = elim (Bool-cases (ltb i s.size)) [
    | inl lt ↦
        let k = length xs - i - 1 in
        let up : i + 1 ≡ suc i = omega arith in
        let moved : s.size - i ≡ suc k = ground arith in
        rw (lt, up, moved, e) (insert-written xs c spare i k x (ground arith))
    | inr p ↦
        let end : i ≡ length xs = ground arith in
        rw (p, e, end, take-drop_end xs x) (set-written_end xs c spare x)
  ]

  insert_cell-Represents :
      {s : Slice A} {xs : List A} (i : ℕ) (x : A)
      → Represents s xs
      → i ≤ length xs
      → s.size < s.capacity
      → Represents (insert_cell s i x) (take i xs ++ x ∷ drop i xs)
  insert_cell-Represents {s} {xs} i x r le more = go r.spare r.cells (omega arith)
    where
      bigger : length (take i xs ++ x ∷ drop i xs) ≡ length xs + 1
      bigger = rw (length-append, length-take, length-drop) (omega arith)

      go :
          (spare : List (Option A))
          → s.cells ≡ written xs ++ spare
          → s.capacity ≡ length xs + length spare
          → Represents (insert_cell s i x) (take i xs ++ x ∷ drop i xs)
      go [] e h = absurd (omega arith)
      go (c ∷ spare) e h = record {
        spare = spare;
        cells = insert_cells s xs c spare i x r.size e le;
        size = rw bigger (omega (arith, capacity-lt r, r.size));
        capacity = rw bigger (omega arith);
        element = r.element;
        fits = r.fits;
      }

  -- With memory granted, and a byte size that may double in a usize, slice_insert at a position
  -- up to the size puts the element before that position of the represented list.
  pub slice_insert-Represents :
      {s : Slice A} {xs : List A} (i : ℕ) (x : A)
      → Represents s xs
      → MayGrow s
      → i ≤ length xs
      → let t = slice_insert true s i (some x) in
        (t.0 ≡ ok) × Represents t.1 (take i xs ++ x ∷ drop i xs)
  unfolding slice_insert
  slice_insert-Represents {s} {xs} i x r may le =
      rw (le→ltb s.size i (omega arith)) (elim (Bool-cases (leb s.capacity s.size)) [
        | inl full ↦
            let (done, kept, more, same) = slice_grow-Represents r may in
            rw (full, done) (refl, insert_cell-Represents i x kept le (omega arith))
        | inr p ↦ rw p (refl, insert_cell-Represents i x r le (ground arith))
      ])

  erase_cells :
      {s : Slice A} {xs : List A} (i : ℕ) (r : Represents s xs)
      → i < length xs
      → (c : Option A) × ((if ltb i (s.size - 1)
            then blit i (take (s.size - i - 1) (drop (i + 1) s.cells)) s.cells
            else s.cells)
          ≡ written (take i xs ++ drop (suc i) xs) ++ c ∷ r.spare)
  erase_cells {s} {xs} i r lt = elim (Bool-cases (ltb i (s.size - 1))) [
    | inl inner ↦
        let k = length xs - i - 2 in
        let up : i + 1 ≡ suc i = omega arith in
        let moved : s.size - i - 1 ≡ suc k = ground (arith, r.size) in
        rw (inner, up, moved, r.cells) (erase-written xs r.spare i k (ground (arith, r.size)))
    | inr p ↦ rw (p, r.cells) (erase_last xs r.spare i (ground (arith, r.size)))
  ]

  -- slice_erase inside the slice takes the element at the index out of the represented list and
  -- returns it.
  pub slice_erase-Represents :
      {s : Slice A} {xs : List A} (i : ℕ)
      → Represents s xs
      → i < length xs
      → let t = slice_erase s i in
        (t.0 ≡ ok) × (t.1 ≡ get_elem? xs i) × Represents t.2 (take i xs ++ drop (suc i) xs)
  unfolding slice_erase
  slice_erase-Represents {s} {xs} i r lt =
      let near : leb s.size i ≡ false = ground arith in
      let (c, e) = erase_cells i r lt in
      rw near (
        refl,
        rw r.cells (get_or-written xs r.spare i lt),
        record {
          spare = c ∷ r.spare;
          cells = e;
          size = rw (length-append, length-take, length-drop) (omega (arith, r.size));
          capacity = rw (length-append, length-take, length-drop) (omega (arith, r.capacity));
          element = r.element;
          fits = r.fits;
        },
      )

  foreach_from :
      {s : Slice A} {xs : List A} (fuel k i : ℕ)
      → Represents s xs
      → length xs ≡ i + k
      → k < fuel
      → (j : ℕ) → u64 (j + 1) ≡ i
      → slice_foreach fuel s j ≡ written (drop i xs)
  unfolding slice_foreach
  foreach_from zero k i r e f j h = absurd (omega arith)
  foreach_from {s} {xs} (suc fuel) zero i r e f j h =
      let stop : ltb i s.size ≡ false = ground (arith, r.size) in
      rw (h, stop, drop-past xs i (omega arith))
  foreach_from {s} {xs} (suc fuel) (suc k) i r e f j h =
      let near : i < length xs = omega arith in
      let go : ltb i s.size ≡ true = ground (arith, r.size) in
      let inside : leb s.size i ≡ false = ground (arith, r.size) in
      let (x, found, rest) = drop-get_elem? xs i near in
      let next : u64 (i + 1) ≡ suc i = omega (arith, capacity-lt r, r.size, r.capacity) in
      let here : get_or s.cells i none ≡ some x =
        rw r.cells (get_or-written xs r.spare i near ∙ found) in
      rw (h, go, inside, here, rest)
        (ap (λ (t : List (Option A)). some x ∷ t)
          (foreach_from fuel k (suc i) r (omega arith) (omega arith) i next))

  -- SLICE_FOREACH hands the represented elements to its body once each, in order, in one round
  -- more than there are elements.
  pub slice_foreach-Represents :
      {s : Slice A} {xs : List A} (fuel : ℕ)
      → Represents s xs
      → length xs < fuel
      → slice_foreach fuel s slice_iter_init ≡ written xs
  slice_foreach-Represents {s} {xs} fuel r f =
      foreach_from fuel (length xs) 0 r (omega arith) f slice_iter_init refl
