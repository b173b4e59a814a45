-- ===== src/Vectors/Distance/Symmetry.antt =====
-- The distances with their operands exchanged.
use mustdb.Prelude.{
  ℕ, zero, suc, ◌+◌, ◌≡◌, refl, ap, ◌∙◌, arith, List, ◌==◌, ==_iff, if◌then◌else◌, Bool-cases, inl,
  inr,
}
use mustdb.Vectors.Distance.{
  FloatOps, DistanceType, l2_squared, l2, cosine, inner, l1, unknown, check_dims, l2_squared_loop,
  l2_squared_distance, vec_l2_squared_distance, vec_l2_distance, inner_product_loop, inner_product,
  vec_inner_product, cosine_loop, cosine_distance, vec_cosine_distance, l1_loop, l1_distance,
  vec_l1_distance, vec_compute_distance, clip,
}
use mustdb.Vectors.{MustDbVector}

-- what IEEE 754 says of the order of operands: multiplication is commutative, and the two differences
-- of two numbers have the same square and the same absolute value
pub record IsSymmetric {F W : Type 0} (f : FloatOps F W) : Type 0 where
  pub mul_comm : (x y : F) → f.mul x y ≡ f.mul y x
  pub mul_w_comm : (x y : W) → f.mul_w x y ≡ f.mul_w y x
  pub square-sub : (x y : F) → f.mul (f.sub x y) (f.sub x y) ≡ f.mul (f.sub y x) (f.sub y x)
  pub fabs-sub : (x y : F) → f.fabs (f.sub x y) ≡ f.fabs (f.sub y x)

module _ {F W : Type 0} (f : FloatOps F W) (h : IsSymmetric f) where
  module _ (ax bx : List ℕ) where
    l2_squared_loop_comm :
        (n i : ℕ) (d : F) → l2_squared_loop f ax bx n i d ≡ l2_squared_loop f bx ax n i d
    unfolding l2_squared_loop
    l2_squared_loop_comm zero i d = refl
    l2_squared_loop_comm (suc n) i d = rw (h.square-sub (f.load ax i) (f.load bx i)) (
        l2_squared_loop_comm n (i + 1)
          (f.add d (f.mul (f.sub (f.load bx i) (f.load ax i)) (f.sub (f.load bx i) (f.load ax i)))))

    inner_product_loop_comm :
        (n i : ℕ) (d : F) → inner_product_loop f ax bx n i d ≡ inner_product_loop f bx ax n i d
    unfolding inner_product_loop
    inner_product_loop_comm zero i d = refl
    inner_product_loop_comm (suc n) i d =
        rw (h.mul_comm (f.load ax i) (f.load bx i))
          (inner_product_loop_comm n (i + 1) (f.add d (f.mul (f.load bx i) (f.load ax i))))

    l1_loop_comm : (n i : ℕ) (d : F) → l1_loop f ax bx n i d ≡ l1_loop f bx ax n i d
    unfolding l1_loop
    l1_loop_comm zero i d = refl
    l1_loop_comm (suc n) i d =
        rw (h.fabs-sub (f.load ax i) (f.load bx i))
          (l1_loop_comm n (i + 1) (f.add d (f.fabs (f.sub (f.load bx i) (f.load ax i)))))

    abbrev swapped : F × F × F → F × F × F
    swapped s = (s.0, s.2, s.1)

    cosine_loop_comm :
        (n i : ℕ) (s x y : F)
        → cosine_loop f ax bx n i s x y ≡ swapped (cosine_loop f bx ax n i s y x)
    unfolding cosine_loop
    cosine_loop_comm zero i s x y = refl
    cosine_loop_comm (suc n) i s x y = rw (h.mul_comm (f.load ax i) (f.load bx i)) (
        cosine_loop_comm n (i + 1) (f.add s (f.mul (f.load bx i) (f.load ax i)))
          (f.add x (f.mul (f.load ax i) (f.load ax i)))
          (f.add y (f.mul (f.load bx i) (f.load bx i))))

    cosine_distance_comm : (n : ℕ) → cosine_distance f n ax bx ≡ cosine_distance f n bx ax
    unfolding cosine_distance
    cosine_distance_comm n =
        let back = cosine_loop f bx ax n 0 f.zero_f f.zero_f f.zero_f in
        let quotient : F × F × F → F =
          λ s. f.narrow (f.div_w (f.widen s.0) (f.sqrt (f.mul_w (f.widen s.1) (f.widen s.2)))) in
        ap quotient (cosine_loop_comm n 0 f.zero_f f.zero_f f.zero_f)
        ∙ ap (λ (x : W). f.narrow (f.div_w (f.widen back.0) (f.sqrt x)))
            (h.mul_w_comm (f.widen back.2) (f.widen back.1))

  -- a distance that both orders compute alike, behind the test of the dimensions
  module _ (a b : MustDbVector) where
    guarded :
        (core : ℕ → List ℕ → List ℕ → F)
        → ((n : ℕ) (ax bx : List ℕ) → core n ax bx ≡ core n bx ax)
        → (if check_dims a b then core a.count a.bytes b.bytes else f.nan_f)
          ≡ (if check_dims b a then core b.count b.bytes a.bytes else f.nan_f)
    unfolding check_dims
    guarded core comm = elim (Bool-cases (a.count == b.count)) [
      | inl e ↦
          let same : a.count ≡ b.count = (==_iff a.count b.count).0 e in
          rw (e, turn a.count b.count, e)
            (comm a.count a.bytes b.bytes ∙ ap (λ (n : ℕ). core n b.bytes a.bytes) same)
      | inr e ↦ rw (e, turn a.count b.count, e) refl
    ]
      where
        turn : (m n : ℕ) → (n == m) ≡ (m == n)
        turn m n = ground arith

    -- Every kind of distance between two vectors is the same in both directions, mismatched
    -- dimensions included, where multiplication is commutative and the differences x - y and y -
    -- x have the same square and the same absolute value.
    pub compute_distance_comm :
        (type : DistanceType) → vec_compute_distance f a b type ≡ vec_compute_distance f b a type
    unfolding vec_compute_distance vec_l2_squared_distance vec_l2_distance vec_cosine_distance
        vec_inner_product vec_l1_distance l2_squared_distance inner_product l1_distance
    compute_distance_comm l2_squared =
        guarded (l2_squared_distance f) (λ n ax bx. l2_squared_loop_comm ax bx n 0 f.zero_f)
    compute_distance_comm l2 =
        guarded (λ n ax bx. f.narrow (f.sqrt (f.widen (l2_squared_distance f n ax bx))))
          (λ n ax bx.
            ap (λ (d : F). f.narrow (f.sqrt (f.widen d))) (l2_squared_loop_comm ax bx n 0 f.zero_f))
    compute_distance_comm cosine =
        guarded
          (λ n ax bx.
            let s = cosine_distance f n ax bx in
            if f.isnan s then f.nan_f else f.sub f.one_f (clip f s))
          (λ n ax bx.
            ap (λ (s : F). if f.isnan s then f.nan_f else f.sub f.one_f (clip f s))
              (cosine_distance_comm ax bx n))
    compute_distance_comm inner =
        ap f.neg (guarded (inner_product f) (λ n ax bx. inner_product_loop_comm ax bx n 0 f.zero_f))
    compute_distance_comm l1 = guarded (l1_distance f) (λ n ax bx. l1_loop_comm ax bx n 0 f.zero_f)
    compute_distance_comm unknown = refl
