-- ===== src/Prelude/Xor.antt =====
-- Exclusive or at variables: its lowest digit, its laws, and what shifting does to it.
use Prim.Native.Nat.{
  ℕ, zero, suc, ◌+◌, ◌*◌, ◌/◌, ◌%◌, ◌^◌, ◌≤◌, ◌<◌, bit_xor, digits, differ, bit_xor-bitwise,
}
use mathlib.Core.Path.{◌≡◌, refl, sym, ap, ◌∙◌}
use native.Mathlib.Nat.{div-div-eq-div-mul, pow-suc, mul_comm, div-one, div-le_self, le_trans}
use native.Mathlib.Omega.{arith}

differ_bits : (x y : ℕ) → x < 2 → y < 2 → differ x y ≡ (x + y) % 2
differ_bits zero y hx hy = omega arith
differ_bits (suc zero) zero hx hy = refl
differ_bits (suc zero) (suc zero) hx hy = refl
differ_bits (suc zero) (suc (suc y)) hx hy = absurd (omega arith)
differ_bits (suc (suc x)) y hx hy = absurd (omega arith)

abbrev xor_digits : ℕ → ℕ → ℕ → ℕ
xor_digits n a b = digits (λ b. b) differ n a b

xor_digits_fuel : (n m a b : ℕ) → a ≤ n → a ≤ m → xor_digits n a b ≡ xor_digits m a b
xor_digits_fuel zero zero a b p q = refl
xor_digits_fuel zero (suc m) zero b p q = refl
xor_digits_fuel zero (suc m) (suc a) b p q = absurd (omega arith)
xor_digits_fuel (suc n) zero zero b p q = refl
xor_digits_fuel (suc n) zero (suc a) b p q = absurd (omega arith)
xor_digits_fuel (suc n) (suc m) zero b p q = refl
xor_digits_fuel (suc n) (suc m) (suc a) b p q =
    rw (xor_digits_fuel n m (suc a / 2) (b / 2) (omega arith) (omega arith))

pub zero-xor : (b : ℕ) → bit_xor 0 b ≡ b
zero-xor b = bit_xor-bitwise 0 b

pub xor_step : (a b : ℕ) → bit_xor a b ≡ bit_xor (a / 2) (b / 2) * 2 + (a + b) % 2
xor_step zero b = omega (arith, zero-xor b, zero-xor (b / 2))
xor_step (suc a) b = omega (
  arith,
  bit_xor-bitwise (suc a) b,
  bit_xor-bitwise (suc a / 2) (b / 2),
  xor_digits_fuel a (suc a / 2) (suc a / 2) (b / 2) (omega arith) (omega arith),
  differ_bits (suc a % 2) (b % 2) (omega arith) (omega arith),
)

pub xor-lt : (k a b : ℕ) → a < 2 ^ k → b < 2 ^ k → bit_xor a b < 2 ^ k
xor-lt zero a b ha hb =
    let a0 : a ≡ 0 = omega arith in let b0 : b ≡ 0 = omega arith in rw (a0, b0) (omega arith)
xor-lt (suc k) a b ha hb = omega (
  arith,
  pow-suc 2 k,
  xor_step a b,
  xor-lt k (a / 2) (b / 2) (omega (arith, pow-suc 2 k)) (omega (arith, pow-suc 2 k)),
)

xor_comm_fuel : (n a b : ℕ) → a ≤ n → b ≤ n → bit_xor a b ≡ bit_xor b a
xor_comm_fuel zero zero zero p q = refl
xor_comm_fuel zero (suc a) b p q = absurd (omega arith)
xor_comm_fuel zero zero (suc b) p q = absurd (omega arith)
xor_comm_fuel (suc n) a b p q =
    omega (
      arith,
      xor_step a b,
      xor_step b a,
      xor_comm_fuel n (a / 2) (b / 2) (omega arith) (omega arith),
    )

pub xor_comm : (a b : ℕ) → bit_xor a b ≡ bit_xor b a
xor_comm a b = xor_comm_fuel (a + b) a b (omega arith) (omega arith)

xor-half : (a b : ℕ) → bit_xor a b / 2 ≡ bit_xor (a / 2) (b / 2)
xor-half a b = omega (arith, xor_step a b)

outer_step :
    (a b c : ℕ)
    → bit_xor (bit_xor a b) c
      ≡ bit_xor (bit_xor (a / 2) (b / 2)) (c / 2) * 2 + (bit_xor a b + c) % 2
outer_step a b c = rw (← xor-half a b) (xor_step (bit_xor a b) c)

inner_step :
    (a b c : ℕ)
    → bit_xor a (bit_xor b c)
      ≡ bit_xor (a / 2) (bit_xor (b / 2) (c / 2)) * 2 + (a + bit_xor b c) % 2
inner_step a b c = rw (← xor-half b c) (xor_step a (bit_xor b c))

xor_assoc_fuel :
    (n a b c : ℕ) → a ≤ n → b ≤ n → c ≤ n → bit_xor (bit_xor a b) c ≡ bit_xor a (bit_xor b c)
xor_assoc_fuel zero a b c p q r =
    let a0 : a ≡ 0 = omega arith in
    let b0 : b ≡ 0 = omega arith in let c0 : c ≡ 0 = omega arith in rw (a0, b0, c0)
xor_assoc_fuel (suc n) a b c p q r = omega (
  arith,
  outer_step a b c,
  inner_step a b c,
  xor_step a b,
  xor_step b c,
  xor_assoc_fuel n (a / 2) (b / 2) (c / 2) (omega arith) (omega arith) (omega arith),
)

pub xor_assoc : (a b c : ℕ) → bit_xor (bit_xor a b) c ≡ bit_xor a (bit_xor b c)
xor_assoc a b c = xor_assoc_fuel (a + b + c) a b c (omega arith) (omega arith) (omega arith)

xor_self_fuel : (n a : ℕ) → a ≤ n → bit_xor a a ≡ 0
xor_self_fuel zero a p = let a0 : a ≡ 0 = omega arith in rw a0
xor_self_fuel (suc n) a p = omega (arith, xor_step a a, xor_self_fuel n (a / 2) (omega arith))

pub xor_self : (a : ℕ) → bit_xor a a ≡ 0
xor_self a = xor_self_fuel a a (omega arith)

-- what is equal after an exclusive or with the same number was equal before
pub xor_cancel : (a b c : ℕ) → bit_xor a b ≡ bit_xor a c → b ≡ c
xor_cancel a b c h = lift b ∙ ap (bit_xor a) h ∙ sym (lift c)
  where
    lift : (d : ℕ) → d ≡ bit_xor a (bit_xor a d)
    lift d = rw (← xor_assoc a a d, xor_self a, zero-xor d)

shift_suc : (s a : ℕ) → a / 2 ^ suc s ≡ a / 2 / 2 ^ s
shift_suc s a = rw (pow-suc 2 s, mul_comm (2 ^ s) 2, div-div-eq-div-mul a 2 (2 ^ s))

-- shifting right goes under the exclusive or
pub xor-shift : (s a b : ℕ) → bit_xor a b / 2 ^ s ≡ bit_xor (a / 2 ^ s) (b / 2 ^ s)
xor-shift zero a b = rw (div-one (bit_xor a b), div-one a, div-one b)
xor-shift (suc s) a b =
    rw (shift_suc s (bit_xor a b), shift_suc s a, shift_suc s b, xor-half a b)
      (xor-shift s (a / 2) (b / 2))

shift-le : (s n a : ℕ) → a ≤ suc n → a / 2 ^ suc s ≤ n
shift-le s n a h = rw (shift_suc s a) (le_trans (div-le_self (a / 2) (2 ^ s)) (omega arith))

-- x ^= x >> s loses nothing.
xor_shift_fuel :
    (n s a b : ℕ) → a ≤ n → b ≤ n → bit_xor a (a / 2 ^ suc s) ≡ bit_xor b (b / 2 ^ suc s) → a ≡ b
xor_shift_fuel zero s a b p q h = omega arith
xor_shift_fuel (suc n) s a b p q h =
    let k = 2 ^ suc s in
    let top : a / k ≡ b / k =
      xor_shift_fuel n s (a / k) (b / k) (shift-le s n a p) (shift-le s n b q) (
        sym (xor-shift (suc s) a (a / k))
        ∙ ap (λ (t : ℕ). t / k) h
        ∙ xor-shift (suc s) b (b / k)) in
    xor_cancel (b / k) a b
      (xor_comm (b / k) a ∙ ap (λ (t : ℕ). bit_xor a t) (sym top) ∙ h ∙ xor_comm b (b / k))

pub xor_shift_injective :
    (s a b : ℕ) → bit_xor a (a / 2 ^ suc s) ≡ bit_xor b (b / 2 ^ suc s) → a ≡ b
xor_shift_injective s a b = xor_shift_fuel (a + b) s a b (omega arith) (omega arith)
