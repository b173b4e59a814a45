-- ===== src/Hmap/Keys.antt =====
-- libv/src/hash.c, the tables whose keys are strings or integers. A string is the list of the bytes
-- before its NUL.
use mustdb.Hash.{hmap_int_hash, hmap_str_hash}
use mustdb.Hmap.{Hmap, hmap_init, hmap_default_nbuckets}
use mustdb.Prelude.{ℕ, ◌≡◌, refl, ap₂, Bool, true, false, List, [], ◌∷◌, ◌&&◌, ◌==◌, ==_iff}
use mustdb.Hmap.Chain.{IsEquality}

-- whether strcmp returns 0
unfoldable pub hmap_str_cmp : List ℕ → List ℕ → Bool
hmap_str_cmp [] [] = true
hmap_str_cmp [] (y ∷ b) = false
hmap_str_cmp (x ∷ a) [] = false
hmap_str_cmp (x ∷ a) (y ∷ b) = (x == y) && hmap_str_cmp a b

unfoldable pub hmap_int_cmp : ℕ → ℕ → Bool
hmap_int_cmp a b = a == b

unfoldable pub hmap_init_str : {V : Type 0} → Hmap (List ℕ) V
unfolding hmap_init hmap_str_hash hmap_str_cmp
hmap_init_str = hmap_init hmap_default_nbuckets hmap_str_hash hmap_str_cmp

unfoldable pub hmap_init_int : {V : Type 0} → Hmap ℕ V
unfolding hmap_init hmap_int_hash hmap_int_cmp
hmap_init_int = hmap_init hmap_default_nbuckets hmap_int_hash hmap_int_cmp

and_true : (a b : Bool) → a && b ≡ true → (a ≡ true) × (b ≡ true)
and_true true b h = (refl, h)
and_true false b h = absurd (false≢true h)
  where
    false≢true : false ≡ true → ⊥
    false≢true = cc

str_cmp_sound : (a b : List ℕ) → hmap_str_cmp a b ≡ true → a ≡ b
unfolding hmap_str_cmp
str_cmp_sound [] [] h = refl
str_cmp_sound [] (y ∷ b) h = cc
str_cmp_sound (x ∷ a) [] h = cc
str_cmp_sound (x ∷ a) (y ∷ b) h =
    let (first, rest) = and_true (x == y) (hmap_str_cmp a b) h in
    ap₂ (λ (z : ℕ) (c : List ℕ). z ∷ c) ((==_iff x y).0 first) (str_cmp_sound a b rest)

pub str_cmp_self : (a : List ℕ) → hmap_str_cmp a a ≡ true
unfolding hmap_str_cmp
str_cmp_self [] = refl
str_cmp_self (x ∷ a) = rw ((==_iff x x).1 refl) (str_cmp_self a)

-- strcmp returns 0 for equal strings only.
pub hmap_str_cmp-IsEquality : IsEquality hmap_str_cmp
hmap_str_cmp-IsEquality a b = (str_cmp_sound a b, λ e. rw e (str_cmp_self b))
