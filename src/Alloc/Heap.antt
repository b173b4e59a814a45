-- ===== src/Alloc/Heap.antt =====
-- The live blocks of the allocator: their number, the sum of their sizes, and how both change with
-- one block.
use mustdb.Alloc.{AllocBlock}
use mustdb.Prelude.{
  ℕ, zero, suc, ◌+◌, ◌≡◌, arith, Option, none, some, List, [], ◌∷◌, ◌++◌, get_elem?, set,
}

abbrev pub size_of : Option AllocBlock → ℕ
size_of none = 0
size_of (some b) = b.size

abbrev pub one_of : Option AllocBlock → ℕ
one_of none = 0
one_of (some b) = 1

unfoldable pub live_bytes : List (Option AllocBlock) → ℕ
live_bytes [] = 0
live_bytes (b ∷ blocks) = size_of b + live_bytes blocks

unfoldable pub live_blocks : List (Option AllocBlock) → ℕ
live_blocks [] = 0
live_blocks (b ∷ blocks) = one_of b + live_blocks blocks

pub live_bytes-append :
    (blocks : List (Option AllocBlock)) (b : Option AllocBlock)
    → live_bytes (blocks ++ (b ∷ [])) ≡ live_bytes blocks + size_of b
unfolding live_bytes
live_bytes-append [] b = omega arith
live_bytes-append (c ∷ blocks) b = omega (arith, live_bytes-append blocks b)

pub live_blocks-append :
    (blocks : List (Option AllocBlock)) (b : Option AllocBlock)
    → live_blocks (blocks ++ (b ∷ [])) ≡ live_blocks blocks + one_of b
unfolding live_blocks
live_blocks-append [] b = omega arith
live_blocks-append (c ∷ blocks) b = omega (arith, live_blocks-append blocks b)

pub live_bytes-set :
    (blocks : List (Option AllocBlock)) (a : ℕ) (old new : Option AllocBlock)
    → get_elem? blocks a ≡ some old
    → live_bytes (set blocks a new) + size_of old ≡ live_bytes blocks + size_of new
unfolding live_bytes
live_bytes-set [] a old new e = cc
live_bytes-set (b ∷ blocks) zero old new e = let same : b ≡ old = cc in rw same (omega arith)
live_bytes-set (b ∷ blocks) (suc a) old new e = omega (arith, live_bytes-set blocks a old new e)

pub live_blocks-set :
    (blocks : List (Option AllocBlock)) (a : ℕ) (old new : Option AllocBlock)
    → get_elem? blocks a ≡ some old
    → live_blocks (set blocks a new) + one_of old ≡ live_blocks blocks + one_of new
unfolding live_blocks
live_blocks-set [] a old new e = cc
live_blocks-set (b ∷ blocks) zero old new e = let same : b ≡ old = cc in rw same (omega arith)
live_blocks-set (b ∷ blocks) (suc a) old new e = omega (arith, live_blocks-set blocks a old new e)
