-- ===== src/Net/Server/Owned.antt =====
-- libv/src/net/net.c: which blocks of memory a server owns. Ownership is counted: how often a block
-- stands in the fields of the server is whether it is in use.
use mustdb.Net.Queues.{same_one}
use mustdb.Net.Server.{Machine, allocate, release, release_all, allocate_all}
use mustdb.Prelude.{
  ℕ, zero, suc, ◌+◌, ◌<◌, ◌≡◌, ◌≢◌, refl, ◌∙◌, arith, Bool, true, false, Option, none, some, List,
  [], ◌∷◌, ◌++◌, length, get_or, set, ==_iff,
}

-- 1 where the block is in use
abbrev bit : Bool → ℕ
bit true = 1
bit false = 0

unfoldable pub in_use : Machine → ℕ → ℕ
in_use m x = bit (get_or m.blocks x false)

-- how often a block stands in a list of pointers
unfoldable pub held : ℕ → List (Option ℕ) → ℕ
unfolding same_one
held x [] = 0
held x (none ∷ ps) = held x ps
held x (some a ∷ ps) = same_one x a + held x ps

-- each block in use is counted once, and no other
unfoldable pub IsOwned : (ℕ → ℕ) → Machine → Type 0
unfolding in_use
IsOwned count m = (x : ℕ) → count x ≡ in_use m x

same_one-suc : (x y : ℕ) → same_one (suc x) (suc y) ≡ same_one x y
unfolding same_one
same_one-suc x y = ground arith

same_one_self : (x : ℕ) → same_one x x ≡ 1
unfolding same_one
same_one_self x = rw ((==_iff x x).1 refl) refl

same_one_far : (x y : ℕ) → x ≢ y → same_one x y ≡ 0
unfolding same_one
same_one_far x y ne = ground arith

bit-append :
    (bs : List Bool) (x : ℕ)
    → same_one x (length bs) + bit (get_or bs x false) ≡ bit (get_or (bs ++ (true ∷ [])) x false)
bit-append [] zero = omega (arith, same_one_self 0)
bit-append [] (suc x) = omega (arith, same_one_far (suc x) 0 (λ e. absurd (omega (arith, e))))
bit-append (b ∷ bs) zero =
    omega (arith, same_one_far 0 (suc (length bs)) (λ e. absurd (omega (arith, e))))
bit-append (b ∷ bs) (suc x) = omega (arith, same_one-suc x (length bs), bit-append bs x)

bit-set :
    (bs : List Bool) (a x : ℕ)
    → get_or bs a false ≡ true
    → same_one x a + bit (get_or (set bs a false) x false) ≡ bit (get_or bs x false)
bit-set [] a x e = absurd (false≢true e)
  where
    false≢true : false ≢ true
    false≢true = cc
bit-set (b ∷ bs) zero zero e = rw (e, same_one_self 0) refl
bit-set (b ∷ bs) zero (suc x) e =
    omega (arith, same_one_far (suc x) 0 (λ e. absurd (omega (arith, e))))
bit-set (b ∷ bs) (suc a) zero e =
    omega (arith, same_one_far 0 (suc a) (λ e. absurd (omega (arith, e))))
bit-set (b ∷ bs) (suc a) (suc x) e = omega (arith, same_one-suc x a, bit-set bs a x e)

bit_positive : (b : Bool) → 0 < bit b → b ≡ true
bit_positive true h = refl
bit_positive false h = absurd (omega arith)

pub held-cons :
    (x : ℕ) (p : Option ℕ) (ps : List (Option ℕ)) → held x (p ∷ ps) ≡ held x (p ∷ []) + held x ps
unfolding held
held-cons x none ps = omega arith
held-cons x (some a) ps = omega arith

pub allocate-IsOwned :
    (granted : Bool) (m : Machine) (count : ℕ → ℕ)
    → IsOwned count m
    → let (p, m1) = allocate granted m in
      IsOwned (λ x. held x (p ∷ []) + count x) m1 × (m1.faults ≡ m.faults)
unfolding allocate IsOwned in_use held
allocate-IsOwned true m count owned = (λ x. omega (arith, owned x, bit-append m.blocks x), refl)
allocate-IsOwned false m count owned = (λ x. omega (arith, owned x), refl)

pub release-IsOwned :
    (p : Option ℕ) (m : Machine) (count : ℕ → ℕ)
    → IsOwned (λ x. held x (p ∷ []) + count x) m
    → IsOwned count (release p m) × ((release p m).faults ≡ m.faults)
unfolding release IsOwned in_use held
release-IsOwned none m count owned = (λ x. omega (arith, owned x), refl)
release-IsOwned (some a) m count owned =
    let live : get_or m.blocks a false ≡ true =
      bit_positive (get_or m.blocks a false) (omega (arith, owned a, same_one_self a)) in
    rw live (λ x. omega (arith, owned x, bit-set m.blocks a x live), refl)

pub allocate_all-IsOwned :
    (gs : List Bool) (m : Machine) (count : ℕ → ℕ)
    → IsOwned count m
    → let (ps, m1) = allocate_all gs m in
      IsOwned (λ x. held x ps + count x) m1 × (m1.faults ≡ m.faults)
unfolding allocate_all IsOwned held
allocate_all-IsOwned [] m count owned = (λ x. omega (arith, owned x), refl)
allocate_all-IsOwned (g ∷ gs) m count owned =
    let (p, m1) = allocate g m in
    let (owned1, same1) = allocate-IsOwned g m count owned in
    let (ps, m2) = allocate_all gs m1 in
    let (owned2, same2) = allocate_all-IsOwned gs m1 (λ x. held x (p ∷ []) + count x) owned1 in
    (λ x. omega (arith, owned2 x, held-cons x p ps), same2 ∙ same1)

pub release_all-IsOwned :
    (ps : List (Option ℕ)) (m : Machine) (count : ℕ → ℕ)
    → IsOwned (λ x. held x ps + count x) m
    → IsOwned count (release_all ps m) × ((release_all ps m).faults ≡ m.faults)
unfolding release_all IsOwned held
release_all-IsOwned [] m count owned = (λ x. omega (arith, owned x), refl)
release_all-IsOwned (p ∷ ps) m count owned =
    let (owned1, same1) =
      release-IsOwned p m (λ x. held x ps + count x)
        (λ x. omega (arith, owned x, held-cons x p ps)) in
    let (owned2, same2) = release_all-IsOwned ps (release p m) count owned1 in
    (owned2, same2 ∙ same1)
