-- ===== src/Slice/Elements.antt =====
-- Reading and writing the elements of a slice, and taking off the last, against the list it holds.
use mustdb.Prelude.{
  ◌⊎◌, ◌∙◌, ℕ, zero, suc, ◌+◌, ◌-◌, ◌≤◌, ◌<◌, ◌≡◌, refl, arith, false, Option, none, some, List, [],
  ◌∷◌, ◌++◌, append_assoc, length, length-append, get_or, get_elem?, set, length-set, Bool-cases,
  inl, inr, leb, ◌==◌,
}
use mustdb.Slice.Cells.{written, set-written, get_or-written, written-append}
use mustdb.Slice.Refine.{Represents}
use mustdb.Slice.{ok, failed, Slice, slice_pop_back, slice_get, slice_set}

get_elem?-past {ℓ} : {A : Type ℓ} (xs : List A) (i : ℕ) → length xs ≤ i → get_elem? xs i ≡ none
get_elem?-past [] i h = refl
get_elem?-past (x ∷ xs) zero h = absurd (omega arith)
get_elem?-past (x ∷ xs) (suc i) h = get_elem?-past xs i (omega arith)

get_elem?-end {ℓ} :
    {A : Type ℓ} (xs : List A) (x : A) → get_elem? (xs ++ x ∷ []) (length xs) ≡ some x
get_elem?-end [] x = refl
get_elem?-end (y ∷ xs) x = get_elem?-end xs x

module _ {ℓ} {A : Type ℓ} where
  -- slice_get returns the element of the represented list at the index, and NULL past its end.
  pub slice_get-Represents :
      {s : Slice A} {xs : List A} (i : ℕ) → Represents s xs → slice_get s i ≡ get_elem? xs i
  unfolding slice_get
  slice_get-Represents {s} {xs} i r = elim (Bool-cases (leb s.size i)) [
    | inl past ↦ rw past (rw (get_elem?-past xs i (ground arith)))
    | inr p ↦ rw (p, r.cells) (get_or-written xs r.spare i (ground arith))
  ]

  -- slice_set of an element replaces the one at an index inside the represented list, and past
  -- the end returns -1 and changes nothing.
  pub slice_set-Represents :
      {s : Slice A} {xs : List A} (i : ℕ) (x : A)
      → Represents s xs
      → let t = slice_set s i (some x) in
        ((i < length xs) × (t.0 ≡ ok) × Represents t.1 (set xs i x))
        ⊎ ((length xs ≤ i) × (t.0 ≡ failed) × (t.1 ≡ s))
  unfolding slice_set
  slice_set-Represents {s} {xs} i x r = elim (Bool-cases (leb s.size i)) [
    | inl past ↦ rw past (inr (ground arith, refl, refl))
    | inr p ↦
        let near : i < length xs = ground arith in
        rw p (
          inl (
            near,
            refl,
            record {
              spare = r.spare;
              cells = rw r.cells (set-written xs r.spare i x near);
              size = rw length-set r.size;
              capacity = rw length-set r.capacity;
              element = r.element;
              fits = r.fits;
            },
          ))
  ]

  end_cell :
      (xs : List A) (c : Option A) (spare : List (Option A))
      → get_or (written xs ++ c ∷ spare) (length xs) none ≡ c
  end_cell [] c spare = refl
  end_cell (y ∷ xs) c spare = end_cell xs c spare

  -- slice_pop_back takes the last element off a represented list that has one, and returns it.
  pub slice_pop_back-Represents :
      {s : Slice A} {xs : List A} (x : A)
      → Represents s (xs ++ x ∷ [])
      → let t = slice_pop_back s in (t.0 ≡ ok) × (t.1 ≡ some x) × Represents t.2 xs
  unfolding slice_pop_back
  slice_pop_back-Represents {s} {xs} x r =
      let n : s.size ≡ length xs + 1 = r.size ∙ length-append xs (x ∷ []) in
      let last : s.size - 1 ≡ length xs = omega arith in
      let filled : (s.size == 0) ≡ false = ground arith in
      let e : s.cells ≡ written xs ++ some x ∷ r.spare =
        r.cells ∙ rw written-append (append_assoc (written xs) (some x ∷ []) r.spare) in
      rw (filled, last, e)
        (
          refl,
          end_cell xs (some x) r.spare,
          record {
            spare = some x ∷ r.spare;
            cells = refl;
            size = refl;
            capacity = omega (arith, r.capacity, length-append xs (x ∷ []));
            element = r.element;
            fits = r.fits;
          },
        )
