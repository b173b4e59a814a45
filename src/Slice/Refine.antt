-- ===== src/Slice/Refine.antt =====
-- What a slice holds: the operations of slice.c against the same operations on lists.
use native.Mathlib.Nat.{mul-div_cancel_left, mod-eq_of_lt}
use mustdb.Prelude.{
  if◌then◌else◌, ◌⊎◌, ℕ, ◌+◌, ◌-◌, ◌*◌, ◌^◌, ◌≤◌, ◌<◌, ◌≡◌, refl, arith, Bool, true, false, Option,
  none, some, List, [], ◌∷◌, ◌++◌, append_assoc, length, length-append, length-replicate, replicate,
  u64, Bool-cases, inl, inr, leb, ltb, ◌==◌,
}
use mustdb.Slice.Cells.{
  written, realloc_cells, realloc_cells_grows, set-written_end, length-written,
}
use mustdb.Slice.{
  ok, failed, Slice, room, slice_default_capacity, slice_init, slice_grow, append_cell,
  slice_push_back,
}

room-fits : (e n : ℕ) → 0 < e → e * n < 2 ^ 64 → room e n ≡ n
room-fits e n pos fits = rw (mod-eq_of_lt fits) (mul-div_cancel_left n pos)

le-mul : (e n : ℕ) → 0 < e → n ≤ e * n
le-mul e n pos = grind arith

module _ {ℓ} {A : Type ℓ} where
  -- The slice holds the elements `xs`: they fill the first cells, the capacity is the number of
  -- cells, and the byte size of the buffer is a usize.
  pub record Represents (s : Slice A) (xs : List A) : Type ℓ where
    pub spare : List (Option A)
    pub cells : s.cells ≡ written xs ++ spare
    pub size : s.size ≡ length xs
    pub capacity : s.capacity ≡ length xs + length spare
    pub element : 0 < s.element_size
    pub fits : s.element_size * s.capacity < 2 ^ 64

  pub capacity-lt : {s : Slice A} {xs : List A} → Represents s xs → s.capacity < 2 ^ 64
  capacity-lt {s} r = omega (arith, le-mul s.element_size s.capacity r.element, r.fits)

  abbrev unwritten : ℕ → ℕ → Slice A
  unwritten e n = record {
    cells = replicate (room e n) none;
    size = 0;
    capacity = n;
    element_size = e;
  }

  fresh : (e n : ℕ) → 0 < e → e * n < 2 ^ 64 → Represents (unwritten e n) []
  fresh e n pos fits = record {
    spare = replicate (room e n) none;
    cells = refl;
    size = refl;
    capacity = rw (length-replicate, room-fits e n pos fits) (omega arith);
    element = pos;
    fits = fits;
  }

  -- With memory granted, slice_init makes an empty slice of the capacity that is asked for, or
  -- the default one for 0, where the element size is not 0 and both capacities have a byte size
  -- that is a usize.
  pub slice_init-Represents :
      (s : Slice A) (e n : ℕ)
      → 0 < e
      → e * n < 2 ^ 64
      → e * slice_default_capacity < 2 ^ 64
      → let r = slice_init true s e n in
        (r.0 ≡ ok)
        × Represents r.1 []
        × (r.1.capacity ≡ (if n == 0 then slice_default_capacity else n))
  unfolding slice_init
  slice_init-Represents s e n pos fits dflt = elim (Bool-cases (n == 0)) [
    | inl z ↦ rw z (refl, fresh e slice_default_capacity pos dflt, refl)
    | inr p ↦ rw p (refl, fresh e n pos fits, refl)
  ]

  -- Growing to `n` cells keeps the elements.
  pub grown :
      {s : Slice A} {xs : List A} (n : ℕ)
      → Represents s xs
      → s.capacity ≤ n
      → s.element_size * n < 2 ^ 64
      → Represents
          (record s { cells = realloc_cells (room s.element_size n) s.cells; capacity = n })
          xs
  grown {s} {xs} n r up fits =
      let more : List (Option A) = replicate (n - s.capacity) none in
      record {
        spare = r.spare ++ more;
        cells =
            rw
              (
                room-fits s.element_size n r.element fits,
                realloc_cells_grows s.cells n (n - s.capacity)
                    (rw (r.cells, length-append, length-written) (omega arith)),
                r.cells,
              )
              (append_assoc (written xs) r.spare more);
        size = r.size;
        capacity = rw (length-append, length-replicate) (omega arith);
        element = r.element;
        fits = fits;
      }

  -- a store into a spare cell
  append_cell-Represents :
      {s : Slice A} {xs : List A} (x : A)
      → Represents s xs
      → s.size < s.capacity
      → Represents (append_cell s x) (xs ++ x ∷ [])
  append_cell-Represents {s} {xs} x r more = go r.spare r.cells (omega arith)
    where
      go :
          (spare : List (Option A))
          → s.cells ≡ written xs ++ spare
          → s.capacity ≡ length xs + length spare
          → Represents (append_cell s x) (xs ++ x ∷ [])
      go [] e h = absurd (omega arith)
      go (c ∷ spare) e h = record {
        spare = spare;
        cells = rw (e, r.size) (set-written_end xs c spare x);
        size = rw length-append (omega (arith, capacity-lt r));
        capacity = rw length-append (omega arith);
        element = r.element;
        fits = r.fits;
      }

  -- what growing needs: the doubled buffer, or the first one, has a byte size that is a usize
  abbrev pub MayGrow : Slice A → Type 0
  MayGrow s =
      (s.element_size * (s.capacity * 2) < 2 ^ 64)
      × (s.element_size * slice_default_capacity < 2 ^ 64)

  pub slice_grow-Represents :
      {s : Slice A} {xs : List A}
      → Represents s xs
      → MayGrow s
      → let r = slice_grow true s in
        (r.0 ≡ ok) × Represents r.1 xs × (s.capacity < r.1.capacity) × (r.1.size ≡ s.size)
  unfolding slice_grow
  slice_grow-Represents {s} r (twice, first) = elim (Bool-cases (ltb 0 s.capacity)) [
    | inl p ↦
        let n : u64 (s.capacity * 2) ≡ s.capacity * 2 =
          mod-eq_of_lt (omega (arith, le-mul s.element_size (s.capacity * 2) r.element)) in
        rw (p, n) (refl, grown (s.capacity * 2) r (omega arith) twice, ground arith, refl)
    | inr z ↦ rw z (refl, grown slice_default_capacity r (ground arith) first, ground arith, refl)
  ]

  -- With memory granted, and a byte size that may double in a usize, slice_push_back appends the
  -- element to the represented list, growing a full buffer.
  pub push_back-Represents :
      {s : Slice A} {xs : List A} (x : A)
      → Represents s xs
      → MayGrow s
      → let r = slice_push_back true s (some x) in (r.0 ≡ ok) × Represents r.1 (xs ++ x ∷ [])
  unfolding slice_push_back
  push_back-Represents {s} {xs} x r may = elim (Bool-cases (leb s.capacity s.size)) [
    | inl full ↦
        let (done, kept, more, same) = slice_grow-Represents r may in
        rw (full, done) (refl, append_cell-Represents x kept (omega arith))
    | inr p ↦ rw p (refl, append_cell-Represents x r (ground arith))
  ]

  -- When slice_push_back returns -1 the slice is as it was, and there was no element, or the
  -- buffer was full and no memory was granted.
  pub push_back_failed :
      (granted : Bool) (s : Slice A) (o : Option A)
      → (slice_push_back granted s o).0 ≡ failed
      → ((slice_push_back granted s o).1 ≡ s)
        × ((o ≡ none) ⊎ ((granted ≡ false) × (s.capacity ≤ s.size)))
  unfolding slice_push_back slice_grow
  push_back_failed granted s none h = (refl, inl refl)
  push_back_failed true s (some x) h = ground arith
  push_back_failed false s (some x) h = ground arith
