-- ===== src/Vectors/Tests.antt =====
-- The copies of a vector of three 16-bit integers, and the distances of two vectors over the native
-- numbers.
use native.Mathlib.Nat.{mul_comm}
use mustdb.Parser.{int16}
use mustdb.Prelude.{
  ℕ, zero, suc, ap, ◌+◌, ◌-◌, ◌*◌, ◌≡◌, ◌<◌, refl, arith, true, false, some, List, [], ◌∷◌, ◌++◌,
  take, drop, get_or, ltb,
}
use mustdb.Vectors.Copies.{IsVector, gather, element_or_zeros, generic_copy_loop-gather}
use mustdb.Vectors.Distance.Symmetry.{IsSymmetric, compute_distance_comm}
use mustdb.Vectors.Distance.{FloatOps, l1, vec_compute_distance}
use mustdb.Vectors.{MustDbVector, generic_copy_loop, get_typeid_size}

abbrev shorts : MustDbVector
shorts = record { type = int16; count = 3; bytes = 1 ∷ 2 ∷ 3 ∷ 4 ∷ 5 ∷ 6 ∷ [] }

abbrev target : List ℕ
target = 7 ∷ 7 ∷ 7 ∷ 7 ∷ 7 ∷ []

shorts-IsVector : IsVector shorts
unfolding get_typeid_size
shorts-IsVector = refl

-- the last element, and a marked one
abbrev selection : List ℕ
selection = 2 ∷ 0 ∷ []

abbrev marks : List ℕ
marks = 1 ∷ 0 ∷ 0 ∷ []

in_range : (k : ℕ) → k < 0 + 2 → get_or selection k 0 < shorts.count
in_range zero h = omega arith
in_range (suc zero) h = omega arith
in_range (suc (suc k)) h = absurd (omega arith)

generic_copy_loop-gather_example :
    generic_copy_loop shorts target 0 2 true (some selection) (some marks)
    ≡ some (
        gather
          (λ k.
            let i = get_or selection k 0 in
            element_or_zeros
              (get_typeid_size int16)
              (get_or marks i 0)
              (take (get_typeid_size int16) (drop (i * get_typeid_size int16) shorts.bytes)))
          2
          0
        ++ drop (2 * get_typeid_size int16) target)
unfolding get_typeid_size
generic_copy_loop-gather_example =
    generic_copy_loop-gather shorts target 0 2 selection marks shorts-IsVector (omega arith)
      (omega arith) (omega arith) (omega arith) in_range

-- natural numbers in the place of the machine's, with the distance as their difference
abbrev distance_of : ℕ → ℕ → ℕ
distance_of x y = (x - y) + (y - x)

abbrev number_ops : FloatOps ℕ ℕ
number_ops = record {
  zero_f = 0;
  one_f = 1;
  nan_f = 99;
  add = λ x y. x + y;
  sub = distance_of;
  mul = λ x y. x * y;
  neg = λ x. x;
  fabs = λ x. x;
  isnan = λ x. false;
  gt = λ x y. ltb y x;
  widen = λ x. x;
  narrow = λ x. x;
  sqrt = λ x. x;
  mul_w = λ x y. x * y;
  div_w = λ x y. x;
  load = λ bytes i. get_or bytes i 0;
}

distance_comm : (x y : ℕ) → distance_of x y ≡ distance_of y x
distance_comm x y = omega arith

number_ops-IsSymmetric : IsSymmetric number_ops
number_ops-IsSymmetric = record {
  mul_comm = λ x y. mul_comm x y;
  mul_w_comm = λ x y. mul_comm x y;
  square-sub = λ x y. ap (λ (d : ℕ). d * d) (distance_comm x y);
  fabs-sub = distance_comm;
}

abbrev longs : MustDbVector
longs = record { type = int16; count = 3; bytes = 4 ∷ 0 ∷ 9 ∷ [] }

compute_distance_comm_example :
    vec_compute_distance number_ops shorts longs l1
    ≡ vec_compute_distance number_ops longs shorts l1
compute_distance_comm_example =
    compute_distance_comm number_ops number_ops-IsSymmetric shorts longs l1
