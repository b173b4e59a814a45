-- ===== src/Slice/Cells.antt =====
-- The cells of slice.c: realloc, and what stores and memmove do to the cells of a list.
use mustdb.Prelude.{
  blit, ℕ, zero, suc, ◌+◌, Option, none, some, List, [], ◌∷◌, ◌++◌, ◌≡◌, refl, ap, arith, take,
  drop, set, replicate, length, get_or, get_elem?, ◌<◌,
}

module _ {ℓ} {A : Type ℓ} where
  -- realloc to `n` cells: the old ones that fit are kept, the new ones are unwritten
  unfoldable pub realloc_cells : ℕ → List (Option A) → List (Option A)
  realloc_cells zero cells = []
  realloc_cells (suc n) [] = none ∷ realloc_cells n []
  realloc_cells (suc n) (c ∷ cells) = c ∷ realloc_cells n cells

  -- the cells of the elements `xs`
  abbrev pub written : List A → List (Option A)
  written [] = []
  written (x ∷ xs) = some x ∷ written xs

  pub length-written : (xs : List A) → length (written xs) ≡ length xs
  length-written [] = refl
  length-written (x ∷ xs) = ap suc (length-written xs)

  pub written-append : (xs ys : List A) → written (xs ++ ys) ≡ written xs ++ written ys
  written-append [] ys = refl
  written-append (x ∷ xs) ys = ap (λ (t : List (Option A)). some x ∷ t) (written-append xs ys)

  pub realloc_cells_grows :
      (cells : List (Option A)) (n k : ℕ)
      → n ≡ length cells + k
      → realloc_cells n cells ≡ cells ++ replicate k none
  unfolding realloc_cells
  realloc_cells_grows [] zero zero h = refl
  realloc_cells_grows [] zero (suc k) h = absurd (omega arith)
  realloc_cells_grows [] (suc n) zero h = absurd (omega arith)
  realloc_cells_grows [] (suc n) (suc k) h =
      ap (λ (t : List (Option A)). none ∷ t) (realloc_cells_grows [] n k (omega arith))
  realloc_cells_grows (c ∷ cells) zero k h = absurd (omega arith)
  realloc_cells_grows (c ∷ cells) (suc n) k h =
      ap (λ (t : List (Option A)). c ∷ t) (realloc_cells_grows cells n k (omega arith))

  -- the store of slice_push_back
  pub set-written_end :
      (xs : List A) (c : Option A) (spare : List (Option A)) (x : A)
      → set (written xs ++ c ∷ spare) (length xs) (some x) ≡ written (xs ++ x ∷ []) ++ spare
  set-written_end [] c spare x = refl
  set-written_end (y ∷ xs) c spare x =
      ap (λ (t : List (Option A)). some y ∷ t) (set-written_end xs c spare x)

  pub set-written :
      (xs : List A) (spare : List (Option A)) (i : ℕ) (x : A)
      → i < length xs
      → set (written xs ++ spare) i (some x) ≡ written (set xs i x) ++ spare
  set-written [] spare i x h = absurd (omega arith)
  set-written (y ∷ xs) spare zero x h = refl
  set-written (y ∷ xs) spare (suc i) x h =
      ap (λ (t : List (Option A)). some y ∷ t) (set-written xs spare i x (omega arith))

  pub get_or-written :
      (xs : List A) (spare : List (Option A)) (i : ℕ)
      → i < length xs
      → get_or (written xs ++ spare) i none ≡ get_elem? xs i
  get_or-written [] spare i h = absurd (omega arith)
  get_or-written (y ∷ xs) spare zero h = refl
  get_or-written (y ∷ xs) spare (suc i) h = get_or-written xs spare i (omega arith)

  blit_none : (cells : List (Option A)) → blit zero [] cells ≡ cells
  blit_none [] = refl
  blit_none (c ∷ cells) = refl

  blit_up :
      (b c : Option A) (xs : List A) (spare : List (Option A))
      → blit zero (b ∷ written xs) (written xs ++ c ∷ spare) ≡ b ∷ written xs ++ spare
  blit_up b c [] spare = ap (λ (t : List (Option A)). b ∷ t) (blit_none spare)
  blit_up b c (x ∷ xs) spare = ap (λ (t : List (Option A)). b ∷ t) (blit_up (some x) c xs spare)

  blit_down :
      (b : Option A) (xs : List A) (spare : List (Option A))
      → (c : Option A) × (blit zero (written xs) (b ∷ written xs ++ spare)
          ≡ written xs ++ c ∷ spare)
  blit_down b [] spare = (b, refl)
  blit_down b (x ∷ xs) spare =
      let (c, e) = blit_down (some x) xs spare in (c, ap (λ (t : List (Option A)). some x ∷ t) e)

  take-written :
      (xs : List A) (rest : List (Option A)) (n : ℕ)
      → n ≡ length xs
      → take n (written xs ++ rest) ≡ written xs
  take-written [] rest zero h = refl
  take-written [] rest (suc n) h = absurd (omega arith)
  take-written (x ∷ xs) rest zero h = absurd (omega arith)
  take-written (x ∷ xs) rest (suc n) h =
      ap (λ (t : List (Option A)). some x ∷ t) (take-written xs rest n (omega arith))

  -- the memmove and the store of slice_insert at index `i`, with `k + 1` elements to move
  pub insert-written :
      (xs : List A) (c : Option A) (spare : List (Option A)) (i k : ℕ) (x : A)
      → length xs ≡ i + suc k
      → let cells = written xs ++ c ∷ spare in
        set (blit (suc i) (take (suc k) (drop i cells)) cells) i (some x)
        ≡ written (take i xs ++ x ∷ drop i xs) ++ spare
  insert-written [] c spare i k x h = absurd (omega arith)
  insert-written (y ∷ xs) c spare zero k x h =
      rw (take-written xs (c ∷ spare) k (omega arith), blit_up (some y) c xs spare)
  insert-written (y ∷ xs) c spare (suc i) k x h =
      ap (λ (t : List (Option A)). some y ∷ t) (insert-written xs c spare i k x (omega arith))

  -- the memmove of slice_erase at index `i`, with `k + 1` elements to move
  pub erase-written :
      (xs : List A) (spare : List (Option A)) (i k : ℕ)
      → length xs ≡ suc i + suc k
      → let cells = written xs ++ spare in
        (c : Option A) × (blit i (take (suc k) (drop (suc i) cells)) cells
          ≡ written (take i xs ++ drop (suc i) xs) ++ c ∷ spare)
  erase-written [] spare i k h = absurd (omega arith)
  erase-written (y ∷ xs) spare zero k h =
      let (c, e) = blit_down (some y) xs spare in
      (c, rw (take-written xs spare (suc k) (omega arith)) e)
  erase-written (y ∷ xs) spare (suc i) k h =
      let (c, e) = erase-written xs spare i k (omega arith) in
      (c, ap (λ (t : List (Option A)). some y ∷ t) e)
