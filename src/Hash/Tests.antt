-- ===== src/Hash/Tests.antt =====
-- Runs of the hash functions, and the theorems on them at concrete keys and buffers.
use mustdb.Hash.Checksum.{checksum_iff}
use mustdb.Hash.{murmurhash32, checksum, hmap_str_hash}
use mustdb.Prelude.Bytes.{from_bytes}
use mustdb.Prelude.{ℕ, ◌≡◌, ◌↔◌, refl, arith, List, [], ◌∷◌, ◌++◌, u32, replicate}

murmurhash32_one : murmurhash32 1 ≡ 1_364_076_727
unfolding murmurhash32
murmurhash32_one = refl

hmap_str_hash_a : hmap_str_hash (97 ∷ []) ≡ 177_670
unfolding hmap_str_hash
hmap_str_hash_a = refl

abbrev key : ℕ
key = 0xdead_beef

-- two words that differ in their last byte only
abbrev word : List ℕ
word = 1 ∷ 2 ∷ 3 ∷ 4 ∷ 5 ∷ 6 ∷ 7 ∷ 8 ∷ []

abbrev damaged : List ℕ
damaged = 1 ∷ 2 ∷ 3 ∷ 4 ∷ 5 ∷ 6 ∷ 7 ∷ 9 ∷ []

checksum_iff_example :
    (checksum (replicate 8 0 ++ (word ++ (5 ∷ []))) 17
      ≡ checksum (replicate 8 0 ++ (damaged ++ (5 ∷ []))) 17)
    ↔ (u32 (from_bytes word) ≡ u32 (from_bytes damaged))
checksum_iff_example =
    checksum_iff 1 17 (replicate 8 0) word damaged (5 ∷ []) refl refl refl (omega arith)
