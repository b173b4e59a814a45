-- ===== src/Hash/Murmur.antt =====
-- murmurhash32 and murmurhash64 map the words of their width one to one into them.
use native.Mathlib.Nat.{div-le_self}
use mustdb.Prelude.Xor.{xor-lt, xor_shift_injective}
use mustdb.Prelude.{ℕ, ◌*◌, ◌/◌, ◌^◌, ◌<◌, ◌≡◌, arith, bit_xor, u32, u64, ◌>>>◌}
use mustdb.Hash.{murmurhash32, murmurhash64}

-- x ^= x >> s stays within its width
xor_shift-lt : (k s x : ℕ) → x < 2 ^ k → bit_xor x (x >>> s) < 2 ^ k
xor_shift-lt k s x h = xor-lt k x (x / 2 ^ s) h (omega (arith, div-le_self x (2 ^ s)))

-- Every hash is a 32-bit number.
pub murmurhash32-lt : (x : ℕ) → murmurhash32 x < 2 ^ 32
unfolding murmurhash32
murmurhash32-lt x = xor_shift-lt 32 16 _ (omega arith)

pub murmurhash64-lt : (x : ℕ) → murmurhash64 x < 2 ^ 64
unfolding murmurhash64
murmurhash64-lt x = xor_shift-lt 64 31 _ (omega arith)

-- The multipliers are odd, so multiplying by them loses nothing.
mul32_first :
    (a b : ℕ) → a < 2 ^ 32 → b < 2 ^ 32 → u32 (a * 0x85eb_ca6b) ≡ u32 (b * 0x85eb_ca6b) → a ≡ b
mul32_first a b ha hb h = omega arith

mul32_second :
    (a b : ℕ) → a < 2 ^ 32 → b < 2 ^ 32 → u32 (a * 0xc2b2_ae35) ≡ u32 (b * 0xc2b2_ae35) → a ≡ b
mul32_second a b ha hb h = omega arith

mul64_first :
    (a b : ℕ)
    → a < 2 ^ 64
    → b < 2 ^ 64
    → u64 (a * 0xbf58_476d_1ce4_e5b9) ≡ u64 (b * 0xbf58_476d_1ce4_e5b9)
    → a ≡ b
mul64_first a b ha hb h = omega arith

mul64_second :
    (a b : ℕ)
    → a < 2 ^ 64
    → b < 2 ^ 64
    → u64 (a * 0x94d0_49bb_1331_11eb) ≡ u64 (b * 0x94d0_49bb_1331_11eb)
    → a ≡ b
mul64_second a b ha hb h = omega arith

-- Different 32-bit keys have different murmurhash32 values.
pub murmurhash32_injective :
    (a b : ℕ) → a < 2 ^ 32 → b < 2 ^ 32 → murmurhash32 a ≡ murmurhash32 b → a ≡ b
unfolding murmurhash32
murmurhash32_injective a b ha hb h = xor_shift_injective 15 a b (
    mul32_first _ _ (xor_shift-lt 32 16 a ha) (xor_shift-lt 32 16 b hb) (
      xor_shift_injective 12 _ _ (
        mul32_second _ _ (xor_shift-lt 32 13 _ (omega arith)) (xor_shift-lt 32 13 _ (omega arith))
          (xor_shift_injective 15 _ _ h))))

-- Different 64-bit words have different murmurhash64 values.
pub murmurhash64_injective :
    (a b : ℕ) → a < 2 ^ 64 → b < 2 ^ 64 → murmurhash64 a ≡ murmurhash64 b → a ≡ b
unfolding murmurhash64
murmurhash64_injective a b ha hb h = xor_shift_injective 29 a b (
    mul64_first _ _ (xor_shift-lt 64 30 a ha) (xor_shift-lt 64 30 b hb) (
      xor_shift_injective 26 _ _ (
        mul64_second _ _ (xor_shift-lt 64 27 _ (omega arith)) (xor_shift-lt 64 27 _ (omega arith))
          (xor_shift_injective 30 _ _ h))))
