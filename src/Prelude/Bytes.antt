-- ===== src/Prelude/Bytes.antt =====
-- Little-endian machine words in memory: a buffer is a list of bytes.
use Prim.Native.Nat.{ℕ, zero, suc, ◌+◌, ◌*◌, ◌/◌, ◌%◌, ◌^◌, ◌<◌}
use mathlib.Core.List.{List, [], ◌∷◌}
use mathlib.Core.Path.{◌≡◌, refl, ap}
use native.Mathlib.Nat.{pow-suc}
use native.Mathlib.Omega.{arith}
use mustdb.Prelude.Lists.{length}

-- the bytes of an integer of `k` bytes, and the integer that bytes stand for
abbrev pub to_bytes : ℕ → ℕ → List ℕ
to_bytes zero x = []
to_bytes (suc k) x = (x % 256) ∷ to_bytes k (x / 256)

abbrev pub from_bytes : List ℕ → ℕ
from_bytes [] = 0
from_bytes (b ∷ bs) = b + 256 * from_bytes bs

pub length-to_bytes : (k x : ℕ) → length (to_bytes k x) ≡ k
length-to_bytes zero x = refl
length-to_bytes (suc k) x = ap suc (length-to_bytes k (x / 256))

pub from_bytes-to_bytes : (k x : ℕ) → x < 256 ^ k → from_bytes (to_bytes k x) ≡ x
from_bytes-to_bytes zero x h = omega arith
from_bytes-to_bytes (suc k) x h =
    omega (arith, from_bytes-to_bytes k (x / 256) (omega (arith, pow-suc 256 k)))

abbrev pub AllBytes : List ℕ → Type 0
AllBytes [] = Unit
AllBytes (b ∷ bs) = (b < 256) × AllBytes bs

pub from_bytes-lt : (bs : List ℕ) → AllBytes bs → from_bytes bs < 256 ^ length bs
from_bytes-lt [] h = omega arith
from_bytes-lt (b ∷ bs) h = omega (arith, pow-suc 256 (length bs), h.0, from_bytes-lt bs h.1)

pub to_bytes-from_bytes : (bs : List ℕ) → AllBytes bs → to_bytes (length bs) (from_bytes bs) ≡ bs
to_bytes-from_bytes [] h = refl
to_bytes-from_bytes (b ∷ bs) h =
    let low : (b + 256 * from_bytes bs) % 256 ≡ b = omega (arith, h.0) in
    let high : (b + 256 * from_bytes bs) / 256 ≡ from_bytes bs = omega (arith, h.0) in
    rw (low, high, to_bytes-from_bytes bs h.1)
