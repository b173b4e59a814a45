-- ===== src/Slice/Tests.antt =====
-- Runs of slice.c on small slices, and the theorems on slices at these.
use mustdb.Prelude.{ℕ, ◌≡◌, refl, arith, true, false, none, some, [], ◌∷◌}
use mustdb.Slice.Moves.{slice_insert-Represents, slice_erase-Represents}
use mustdb.Slice.Refine.{Represents}
use mustdb.Slice.{ok, failed, Slice, slice_push_back, slice_insert, slice_erase, slice_grow}

-- three elements of 8 bytes in a full buffer, and two with room for one more
abbrev full : Slice ℕ
full = record { cells = some 5 ∷ some 6 ∷ some 7 ∷ []; size = 3; capacity = 3; element_size = 8 }

abbrev roomy : Slice ℕ
roomy = record { cells = some 5 ∷ some 6 ∷ none ∷ []; size = 2; capacity = 3; element_size = 8 }

full-Represents : Represents full (5 ∷ 6 ∷ 7 ∷ [])
full-Represents = record {
  spare = [];
  cells = refl;
  size = refl;
  capacity = refl;
  element = omega arith;
  fits = omega arith;
}

roomy-Represents : Represents roomy (5 ∷ 6 ∷ [])
roomy-Represents = record {
  spare = none ∷ [];
  cells = refl;
  size = refl;
  capacity = refl;
  element = omega arith;
  fits = omega arith;
}

push_back_full : (slice_push_back true full (some 8)).1.capacity ≡ 6
unfolding slice_push_back slice_grow
push_back_full = refl

no_memory : (slice_push_back false full (some 8)).0 ≡ failed
unfolding slice_push_back slice_grow
no_memory = refl

slice_insert-Represents_example :
    ((slice_insert true full 1 (some 9)).0 ≡ ok)
    × Represents (slice_insert true full 1 (some 9)).1 (5 ∷ 9 ∷ 6 ∷ 7 ∷ [])
slice_insert-Represents_example =
    slice_insert-Represents 1 9 full-Represents (omega arith, omega arith) (omega arith)

slice_erase-Represents_example :
    ((slice_erase full 1).0 ≡ ok)
    × ((slice_erase full 1).1 ≡ some 6)
    × Represents (slice_erase full 1).2 (5 ∷ 7 ∷ [])
slice_erase-Represents_example = slice_erase-Represents 1 full-Represents (omega arith)
