-- ===== src/Slice/Resize.antt =====
-- Reserving room in a slice and resizing it, against the list it holds.
use mustdb.Prelude.{
  ℕ, zero, suc, ◌+◌, ◌-◌, ◌*◌, ◌^◌, ◌≤◌, ◌<◌, ◌≡◌, refl, sym, ap, ◌∙◌, arith, true, Option, some,
  List, [], ◌∷◌, ◌++◌, append_assoc, append-nil, length, length-append, length-replicate,
  length-drop, drop, replicate, Bool-cases, inl, inr, leb,
}
use mustdb.Slice.Cells.{written, set-written_end}
use mustdb.Slice.Refine.{Represents, grown}
use mustdb.Slice.{ok, Slice, slice_reserve, slice_resize, fill_cells}

module _ {ℓ} {A : Type ℓ} where
  -- With memory granted, and a new byte size that is a usize, slice_reserve keeps the represented
  -- list and the size, and the capacity is at least what is asked for.
  pub slice_reserve-Represents :
      {s : Slice A} {xs : List A} (n : ℕ)
      → Represents s xs
      → s.element_size * n < 2 ^ 64
      → let r = slice_reserve true s n in
        (r.0 ≡ ok) × Represents r.1 xs × (n ≤ r.1.capacity) × (r.1.size ≡ s.size)
  unfolding slice_reserve
  slice_reserve-Represents {s} n r fits = elim (Bool-cases (leb n s.capacity)) [
    | inl p ↦ rw p (refl, r, ground arith, refl)
    | inr p ↦ rw p (refl, grown n r (ground arith) fits, omega arith, refl)
  ]

  fill_cells-written :
      (k i : ℕ) (xs : List A) (spare : List (Option A)) (x : A)
      → i ≡ length xs
      → k ≤ length spare
      → fill_cells k i x (written xs ++ spare) ≡ written (xs ++ replicate k x) ++ drop k spare
  unfolding fill_cells
  fill_cells-written zero i xs spare x e h =
      ap (λ (t : List A). written t ++ spare) (sym (append-nil xs))
  fill_cells-written (suc k) i xs [] x e h = absurd (omega arith)
  fill_cells-written (suc k) i xs (c ∷ spare) x e h =
      rw (e, set-written_end xs c spare x)
        (fill_cells-written k (length xs + 1) (xs ++ x ∷ []) spare x (rw length-append refl)
            (omega arith)
          ∙ ap (λ (t : List A). written t ++ drop k spare)
              (append_assoc xs (x ∷ []) (replicate k x)))

  -- With memory granted, and a new byte size that is a usize, slice_resize to at least the size
  -- appends as many copies of the default value as are missing.
  pub slice_resize-Represents :
      {s : Slice A} {xs : List A} (zero_value x : A) (n : ℕ)
      → Represents s xs
      → s.element_size * n < 2 ^ 64
      → length xs ≤ n
      → let r = slice_resize true zero_value s n (some x) in
        (r.0 ≡ ok) × Represents r.1 (xs ++ replicate (n - length xs) x)
  unfolding slice_resize
  slice_resize-Represents {s} {xs} zero_value x n r fits le =
      let (done, kept, room, same) = slice_reserve-Represents n r fits in
      let t = (slice_reserve true s n).1 in
      let k = n - length xs in
      let spare_room : k ≤ length kept.spare = omega (arith, kept.capacity, room) in
      rw (slice_resize, done)
        (
          refl,
          record {
            spare = drop k kept.spare;
            cells =
                ap (λ (j : ℕ). fill_cells (n - j) j x t.cells) r.size
                ∙ ap (fill_cells k (length xs) x) kept.cells
                ∙ fill_cells-written k (length xs) xs kept.spare x refl spare_room;
            size = rw (length-append, length-replicate) (omega (arith, le));
            capacity =
                rw (length-append, length-replicate, length-drop)
                  (omega (arith, kept.capacity, room, le));
            element = kept.element;
            fits = kept.fits;
          },
        )
