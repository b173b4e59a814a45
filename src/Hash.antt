-- ===== src/Hash.antt =====
-- libv/src/hash.c, the hash functions: murmurhash32 and murmurhash64, the string hashes, and the
-- checksum of a buffer. `char` is signed, as on the machines that the program is built for.
pub mod Murmur
pub mod Checksum
mod Tests
use mustdb.Prelude.Bytes.{from_bytes}
use mustdb.Prelude.{
  ℕ, zero, suc, ◌+◌, ◌-◌, ◌*◌, ◌/◌, ◌%◌, ◌^◌, List, [], ◌∷◌, take, drop, ltb, ◌==◌, bit_xor,
  if◌then◌else◌, u32, u64, ◌>>>◌, ◌<<<◌,
}

unfoldable pub murmurhash32 : ℕ → ℕ
murmurhash32 x =
    let x1 = bit_xor x (x >>> 16) in
    let x2 = u32 (x1 * 0x85eb_ca6b) in
    let x3 = bit_xor x2 (x2 >>> 13) in let x4 = u32 (x3 * 0xc2b2_ae35) in bit_xor x4 (x4 >>> 16)

unfoldable pub murmurhash64 : ℕ → ℕ
murmurhash64 x =
    let x1 = bit_xor x (x >>> 30) in
    let x2 = u64 (x1 * 0xbf58_476d_1ce4_e5b9) in
    let x3 = bit_xor x2 (x2 >>> 27) in
    let x4 = u64 (x3 * 0x94d0_49bb_1331_11eb) in bit_xor x4 (x4 >>> 31)

-- the cast to u32 drops the upper half
unfoldable pub hash : ℕ → ℕ
hash val = murmurhash32 (u32 val)

-- a `char` converted to an unsigned integer of modulus `m`
abbrev pub sign_extend : ℕ → ℕ → ℕ
sign_extend m c = if ltb c 128 then c else c + (m - 256)

-- `hash` before the rest of the bytes
unfoldable pub hash1_loop : List ℕ → ℕ → ℕ
hash1_loop [] h = h
hash1_loop (c ∷ val) h = hash1_loop val (u64 (u64 (u64 (h <<< 5) + h) + sign_extend (2 ^ 64) c))

unfoldable pub hash1 : List ℕ → ℕ
unfolding hash1_loop
hash1 val = hash1_loop val 5381

-- One round for each of the `n` words left.
unfoldable pub checksum_words : ℕ → List ℕ → ℕ → ℕ
checksum_words zero buffer result = result
checksum_words (suc n) buffer result =
    checksum_words n (drop 8 buffer) (bit_xor result (hash (from_bytes (take 8 buffer))))

unfoldable pub checksum : List ℕ → ℕ → ℕ
unfolding checksum_words
checksum buffer size =
    let words = size / 8 in
    let result = checksum_words words buffer 5381 in
    if ltb 0 (size - words * 8)
    then bit_xor result (hash1 (take (size - words * 8) (drop (words * 8) buffer)))
    else result

unfoldable pub hmap_int_hash : ℕ → ℕ
hmap_int_hash key = u32 (murmurhash32 key)

-- The list is the text before its NUL.
unfoldable pub str_hash_loop : List ℕ → ℕ → ℕ
str_hash_loop [] h = h
str_hash_loop (c ∷ s) h = str_hash_loop s (u32 (u32 (u32 (h <<< 5) + h) + sign_extend (2 ^ 32) c))

unfoldable pub hmap_str_hash : List ℕ → ℕ
unfolding str_hash_loop
hmap_str_hash key = str_hash_loop key 5381
