-- ===== src/Prelude/Lists.antt =====
-- Lists measured and indexed by native numbers, under the library's names.
use Prim.Native.Nat.{ℕ, zero, suc, ◌+◌, ◌-◌, ◌≤◌, ◌<◌, min}
use mathlib.Core.Path.{◌≡◌, refl, sym, ap}
use mathlib.Core.Logic.{◌≢◌}
use mathlib.Core.List.{List, [], ◌∷◌, ◌++◌, map}
use mathlib.Core.Option.{Option, none, some}
use native.Mathlib.Omega.{arith}

module _ {ℓ} {A : Type ℓ} where
  abbrev pub length : List A → ℕ
  length [] = 0
  length (x ∷ xs) = suc (length xs)

  abbrev pub get_elem? : List A → ℕ → Option A
  get_elem? [] i = none
  get_elem? (x ∷ xs) zero = some x
  get_elem? (x ∷ xs) (suc i) = get_elem? xs i

  abbrev pub get_or : List A → ℕ → A → A
  get_or [] i d = d
  get_or (x ∷ xs) zero d = x
  get_or (x ∷ xs) (suc i) d = get_or xs i d

  -- A write out of bounds changes nothing.
  abbrev pub set : List A → ℕ → A → List A
  set [] i v = []
  set (x ∷ xs) zero v = v ∷ xs
  set (x ∷ xs) (suc i) v = x ∷ set xs i v

  abbrev pub take : ℕ → List A → List A
  take zero xs = []
  take (suc n) [] = []
  take (suc n) (x ∷ xs) = x ∷ take n xs

  abbrev pub drop : ℕ → List A → List A
  drop zero xs = xs
  drop (suc n) [] = []
  drop (suc n) (x ∷ xs) = drop n xs

  -- memcpy and memmove: `src` over the elements of `dst` from index `i` on
  abbrev pub blit : ℕ → List A → List A → List A
  blit i src [] = []
  blit (suc i) src (d ∷ dst) = d ∷ blit i src dst
  blit zero [] (d ∷ dst) = d ∷ dst
  blit zero (s ∷ src) (d ∷ dst) = s ∷ blit zero src dst

  abbrev pub replicate : ℕ → A → List A
  replicate zero a = []
  replicate (suc n) a = a ∷ replicate n a

module _ {ℓ} {A : Type ℓ} where
  pub length-append : (xs ys : List A) → length (xs ++ ys) ≡ length xs + length ys
  length-append [] ys = omega arith
  length-append (x ∷ xs) ys = omega (arith, length-append xs ys)

  pub length-set : (xs : List A) (i : ℕ) (v : A) → length (set xs i v) ≡ length xs
  length-set [] i v = refl
  length-set (x ∷ xs) zero v = refl
  length-set (x ∷ xs) (suc i) v = ap suc (length-set xs i v)

  pub get_or-set_self :
      (xs : List A) (i : ℕ) (v d : A) → i < length xs → get_or (set xs i v) i d ≡ v
  get_or-set_self [] i v d h = elim h [ ]
  get_or-set_self (x ∷ xs) zero v d h = refl
  get_or-set_self (x ∷ xs) (suc i) v d h = get_or-set_self xs i v d (omega arith)

  pub get_or-set_ne :
      (xs : List A) (i j : ℕ) (v d : A) → i ≢ j → get_or (set xs i v) j d ≡ get_or xs j d
  get_or-set_ne [] i j v d h = refl
  get_or-set_ne (x ∷ xs) zero zero v d h = absurd (h refl)
  get_or-set_ne (x ∷ xs) zero (suc j) v d h = refl
  get_or-set_ne (x ∷ xs) (suc i) zero v d h = refl
  get_or-set_ne (x ∷ xs) (suc i) (suc j) v d h = get_or-set_ne xs i j v d (λ e. h (ap suc e))

  pub get_or-append_lt :
      (xs ys : List A) (i : ℕ) (d : A) → i < length xs → get_or (xs ++ ys) i d ≡ get_or xs i d
  get_or-append_lt [] ys i d h = absurd (omega arith)
  get_or-append_lt (x ∷ xs) ys zero d h = refl
  get_or-append_lt (x ∷ xs) ys (suc i) d h = get_or-append_lt xs ys i d (omega arith)

  pub get_or-append_at : (xs : List A) (y d : A) → get_or (xs ++ (y ∷ [])) (length xs) d ≡ y
  get_or-append_at [] y d = refl
  get_or-append_at (x ∷ xs) y d = get_or-append_at xs y d

  pub length-blit : (i : ℕ) (src dst : List A) → length (blit i src dst) ≡ length dst
  length-blit zero src [] = refl
  length-blit (suc i) src [] = refl
  length-blit (suc i) src (d ∷ dst) = ap suc (length-blit i src dst)
  length-blit zero [] (d ∷ dst) = refl
  length-blit zero (s ∷ src) (d ∷ dst) = ap suc (length-blit zero src dst)

  blit_none : (dst : List A) → blit zero [] dst ≡ dst
  blit_none [] = refl
  blit_none (d ∷ dst) = refl

  -- a copy that fits replaces as many elements
  pub blit-append :
      (pre src mid post : List A) (i : ℕ)
      → length pre ≡ i
      → length mid ≡ length src
      → blit i src (pre ++ (mid ++ post)) ≡ pre ++ (src ++ post)
  blit-append [] [] [] post zero h n = blit_none post
  blit-append [] [] (m ∷ mid) post zero h n = absurd (omega arith)
  blit-append [] (s ∷ src) [] post zero h n = absurd (omega arith)
  blit-append [] (s ∷ src) (m ∷ mid) post zero h n =
      ap (λ (t : List A). s ∷ t) (blit-append [] src mid post zero refl (omega arith))
  blit-append [] src mid post (suc i) h n = absurd (omega arith)
  blit-append (p ∷ pre) src mid post zero h n = absurd (omega arith)
  blit-append (p ∷ pre) src mid post (suc i) h n =
      ap (λ (t : List A). p ∷ t) (blit-append pre src mid post i (omega arith) n)

  pub drop-blit : (k : ℕ) (src xs : List A) → drop k (blit k src xs) ≡ blit 0 src (drop k xs)
  drop-blit zero src xs = refl
  drop-blit (suc k) src [] = refl
  drop-blit (suc k) src (x ∷ xs) = drop-blit k src xs

  pub blit_front :
      (src dst : List A) → length src ≤ length dst → blit 0 src dst ≡ src ++ drop (length src) dst
  blit_front [] dst h = blit_none dst
  blit_front (s ∷ src) [] h = absurd (omega arith)
  blit_front (s ∷ src) (d ∷ dst) h = ap (λ (t : List A). s ∷ t) (blit_front src dst (omega arith))

  pub length-take : (n : ℕ) (xs : List A) → length (take n xs) ≡ min n (length xs)
  length-take zero xs = omega arith
  length-take (suc n) [] = omega arith
  length-take (suc n) (x ∷ xs) = omega (arith, length-take n xs)

  pub length-drop : (n : ℕ) (xs : List A) → length (drop n xs) ≡ length xs - n
  length-drop zero xs = omega arith
  length-drop (suc n) [] = omega arith
  length-drop (suc n) (x ∷ xs) = omega (arith, length-drop n xs)

  pub length-replicate : (n : ℕ) (a : A) → length (replicate n a) ≡ n
  length-replicate zero a = refl
  length-replicate (suc n) a = ap suc (length-replicate n a)

  pub take-append_length : (xs ys : List A) → take (length xs) (xs ++ ys) ≡ xs
  take-append_length [] ys = refl
  take-append_length (x ∷ xs) ys = ap (λ (t : List A). x ∷ t) (take-append_length xs ys)

  pub drop-append_length : (xs ys : List A) → drop (length xs) (xs ++ ys) ≡ ys
  drop-append_length [] ys = refl
  drop-append_length (x ∷ xs) ys = drop-append_length xs ys

  pub take-append_le : (n : ℕ) (xs ys : List A) → n ≤ length xs → take n (xs ++ ys) ≡ take n xs
  take-append_le zero xs ys h = refl
  take-append_le (suc n) [] ys h = absurd (omega arith)
  take-append_le (suc n) (x ∷ xs) ys h =
      ap (λ (t : List A). x ∷ t) (take-append_le n xs ys (omega arith))

  pub drop-append_le :
      (n : ℕ) (xs ys : List A) → n ≤ length xs → drop n (xs ++ ys) ≡ drop n xs ++ ys
  drop-append_le zero xs ys h = refl
  drop-append_le (suc n) [] ys h = absurd (omega arith)
  drop-append_le (suc n) (x ∷ xs) ys h = drop-append_le n xs ys (omega arith)

  pub drop-append_ge :
      (n k : ℕ) (xs ys : List A) → n ≡ length xs + k → drop n (xs ++ ys) ≡ drop k ys
  drop-append_ge n k [] ys h = ap (λ (m : ℕ). drop m ys) (omega arith)
  drop-append_ge zero k (x ∷ xs) ys h = absurd (omega arith)
  drop-append_ge (suc n) k (x ∷ xs) ys h = drop-append_ge n k xs ys (omega arith)

  pub take-append-drop : (n : ℕ) (xs : List A) → take n xs ++ drop n xs ≡ xs
  take-append-drop zero xs = refl
  take-append-drop (suc n) [] = refl
  take-append-drop (suc n) (x ∷ xs) = ap (λ (t : List A). x ∷ t) (take-append-drop n xs)

module _ {ℓ} {A : Type ℓ} where
  take_nil : (k : ℕ) → take {A = A} k [] ≡ []
  take_nil zero = refl
  take_nil (suc k) = refl

  pub drop-take : (n m k : ℕ) (xs : List A) → k ≡ m - n → drop n (take m xs) ≡ take k (drop n xs)
  drop-take zero m k xs e = ap (λ (j : ℕ). take j xs) (omega arith)
  drop-take (suc n) zero k xs e = let empty : k ≡ 0 = omega arith in rw empty refl
  drop-take (suc n) (suc m) k [] e = sym (take_nil k)
  drop-take (suc n) (suc m) k (x ∷ xs) e = drop-take n m k xs (omega arith)

  pub drop-drop : (n k j : ℕ) (xs : List A) → j ≡ k + n → drop n (drop k xs) ≡ drop j xs
  drop-drop n zero j xs e = ap (λ (i : ℕ). drop i xs) (omega arith)
  drop-drop n (suc k) zero xs e = absurd (omega arith)
  drop-drop zero (suc k) (suc j) [] e = refl
  drop-drop (suc n) (suc k) (suc j) [] e = refl
  drop-drop n (suc k) (suc j) (x ∷ xs) e = drop-drop n k j xs (omega arith)

pub length-map {ℓ κ} :
    {A : Type ℓ} {B : Type κ} (f : A → B) (xs : List A) → length (map f xs) ≡ length xs
length-map f [] = refl
length-map f (x ∷ xs) = ap suc (length-map f xs)
