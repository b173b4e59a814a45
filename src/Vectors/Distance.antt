-- ===== src/Vectors/Distance.antt =====
-- src/utils/operator.c and src/include/operator.h, the distances of vectors. The arithmetic of the
-- machine's floating point numbers is a parameter, and so is reading one from memory.
pub mod Symmetry
use mustdb.Prelude.{ℕ, zero, suc, ◌+◌, Bool, true, false, List, ◌==◌, if◌then◌else◌}
use mustdb.Vectors.{MustDbVector}

-- `F` and `W` are f32 and f64; `load` is the element of an array of f32 in memory at an index.
pub record FloatOps (F W : Type 0) : Type 0 where
  pub zero_f : F
  pub one_f : F
  pub nan_f : F
  pub add : F → F → F
  pub sub : F → F → F
  pub mul : F → F → F
  pub neg : F → F
  pub fabs : F → F
  pub isnan : F → Bool
  pub gt : F → F → Bool
  pub widen : F → W
  pub narrow : W → F
  pub sqrt : W → W
  pub mul_w : W → W → W
  pub div_w : W → W → W
  pub load : List ℕ → ℕ → F

-- The numbers of the enum are from 0 to 4; any other is `unknown`.
pub data DistanceType : Type 0 where
  l2_squared l2 cosine inner l1 unknown : DistanceType

unfoldable pub check_dims : MustDbVector → MustDbVector → Bool
check_dims a b = a.count == b.count

module _ {F W : Type 0} (f : FloatOps F W) where
  -- The loops, for the `n` elements left from index `i` on and the sums so far.
  unfoldable pub l2_squared_loop : List ℕ → List ℕ → ℕ → ℕ → F → F
  l2_squared_loop ax bx zero i distance = distance
  l2_squared_loop ax bx (suc n) i distance =
      let diff = f.sub (f.load ax i) (f.load bx i) in
      l2_squared_loop ax bx n (i + 1) (f.add distance (f.mul diff diff))

  unfoldable pub l2_squared_distance : ℕ → List ℕ → List ℕ → F
  unfolding l2_squared_loop
  l2_squared_distance count ax bx = l2_squared_loop ax bx count 0 f.zero_f

  unfoldable pub vec_l2_squared_distance : MustDbVector → MustDbVector → F
  unfolding check_dims l2_squared_distance
  vec_l2_squared_distance a b =
      if check_dims a b then l2_squared_distance a.count a.bytes b.bytes else f.nan_f

  unfoldable pub vec_l2_distance : MustDbVector → MustDbVector → F
  unfolding check_dims l2_squared_distance
  vec_l2_distance a b =
      if check_dims a b
      then f.narrow (f.sqrt (f.widen (l2_squared_distance a.count a.bytes b.bytes)))
      else f.nan_f

  unfoldable pub inner_product_loop : List ℕ → List ℕ → ℕ → ℕ → F → F
  inner_product_loop ax bx zero i distance = distance
  inner_product_loop ax bx (suc n) i distance =
      inner_product_loop ax bx n (i + 1) (f.add distance (f.mul (f.load ax i) (f.load bx i)))

  unfoldable pub inner_product : ℕ → List ℕ → List ℕ → F
  unfolding inner_product_loop
  inner_product count ax bx = inner_product_loop ax bx count 0 f.zero_f

  unfoldable pub vec_inner_product : MustDbVector → MustDbVector → F
  unfolding check_dims inner_product
  vec_inner_product a b = if check_dims a b then inner_product a.count a.bytes b.bytes else f.nan_f

  -- the three sums at once
  unfoldable pub cosine_loop : List ℕ → List ℕ → ℕ → ℕ → F → F → F → F × F × F
  cosine_loop ax bx zero i similarity norma normb = (similarity, norma, normb)
  cosine_loop ax bx (suc n) i similarity norma normb =
      cosine_loop ax bx n (i + 1) (f.add similarity (f.mul (f.load ax i) (f.load bx i)))
        (f.add norma (f.mul (f.load ax i) (f.load ax i)))
        (f.add normb (f.mul (f.load bx i) (f.load bx i)))

  unfoldable pub cosine_distance : ℕ → List ℕ → List ℕ → F
  unfolding cosine_loop
  cosine_distance count ax bx =
      let sums = cosine_loop ax bx count 0 f.zero_f f.zero_f f.zero_f in
      f.narrow (f.div_w (f.widen sums.0) (f.sqrt (f.mul_w (f.widen sums.1) (f.widen sums.2))))

  -- the clipping of a similarity to [-1, 1]
  unfoldable pub clip : F → F
  clip similarity =
      let upper = if f.gt similarity f.one_f then f.one_f else similarity in
      if f.gt (f.neg f.one_f) upper then f.neg f.one_f else upper

  unfoldable pub vec_cosine_distance : MustDbVector → MustDbVector → F
  unfolding check_dims cosine_distance clip
  vec_cosine_distance a b =
      let similarity = cosine_distance a.count a.bytes b.bytes in
      if check_dims a b
      then if f.isnan similarity then f.nan_f else f.sub f.one_f (clip similarity)
      else f.nan_f

  unfoldable pub l1_loop : List ℕ → List ℕ → ℕ → ℕ → F → F
  l1_loop ax bx zero i distance = distance
  l1_loop ax bx (suc n) i distance =
      l1_loop ax bx n (i + 1) (f.add distance (f.fabs (f.sub (f.load ax i) (f.load bx i))))

  unfoldable pub l1_distance : ℕ → List ℕ → List ℕ → F
  unfolding l1_loop
  l1_distance count ax bx = l1_loop ax bx count 0 f.zero_f

  unfoldable pub vec_l1_distance : MustDbVector → MustDbVector → F
  unfolding check_dims l1_distance
  vec_l1_distance a b = if check_dims a b then l1_distance a.count a.bytes b.bytes else f.nan_f

  unfoldable pub vec_compute_distance : MustDbVector → MustDbVector → DistanceType → F
  unfolding vec_l2_squared_distance vec_l2_distance vec_cosine_distance vec_inner_product
      vec_l1_distance
  vec_compute_distance a b l2_squared = vec_l2_squared_distance a b
  vec_compute_distance a b l2 = vec_l2_distance a b
  vec_compute_distance a b cosine = vec_cosine_distance a b
  vec_compute_distance a b inner = f.neg (vec_inner_product a b)
  vec_compute_distance a b l1 = vec_l1_distance a b
  vec_compute_distance a b unknown = f.nan_f
