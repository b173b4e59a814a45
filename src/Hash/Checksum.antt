-- ===== src/Hash/Checksum.antt =====
-- What `checksum` detects: it is the exclusive or of a hash of each word's lower half.
use mustdb.Prelude.Bytes.{from_bytes}
use mustdb.Prelude.Xor.{xor-lt, xor_comm, xor_assoc, xor_cancel, zero-xor}
use mustdb.Prelude.{
  ℕ, zero, suc, ◌+◌, ◌-◌, ◌*◌, ◌/◌, ◌^◌, ◌<◌, ◌≡◌, refl, sym, ap, ◌∙◌, arith, bit_xor, List, [],
  ◌∷◌, ◌++◌, take, drop, length, length-drop, take-append_le, drop-append_le, drop-append_ge, ◌↔◌,
  u32, ltb, if◌then◌else◌, Bool-cases, inl, inr,
}
use mustdb.Hash.Murmur.{murmurhash32-lt, murmurhash32_injective}
use mustdb.Hash.{murmurhash32, hash, hash1, hash1_loop, checksum_words, checksum}

hash-lt : (v : ℕ) → hash v < 2 ^ 64
unfolding hash
hash-lt v = omega (arith, murmurhash32-lt (u32 v))

hash1_loop-lt : (val : List ℕ) (h : ℕ) → h < 2 ^ 64 → hash1_loop val h < 2 ^ 64
unfolding hash1_loop
hash1_loop-lt [] h lt = lt
hash1_loop-lt (c ∷ val) h lt = hash1_loop-lt val _ (omega arith)

checksum_words-lt :
    (n : ℕ) (buffer : List ℕ) (r : ℕ) → r < 2 ^ 64 → checksum_words n buffer r < 2 ^ 64
unfolding checksum_words
checksum_words-lt zero buffer r lt = lt
checksum_words-lt (suc n) buffer r lt =
    checksum_words-lt n (drop 8 buffer) _ (xor-lt 64 r _ lt (hash-lt _))

-- the bytes behind the last whole word
abbrev tail_of : List ℕ → ℕ → List ℕ
tail_of buffer size = take (size - size / 8 * 8) (drop (size / 8 * 8) buffer)

-- The checksum of any buffer fits the 8 bytes of the file buffer's header.
pub checksum-lt : (buffer : List ℕ) (size : ℕ) → checksum buffer size < 2 ^ 64
unfolding checksum hash1
checksum-lt buffer size =
    let words = checksum_words-lt (size / 8) buffer 5381 (omega arith) in
    elim (Bool-cases (ltb 0 (size - size / 8 * 8))) [
      | inl more ↦
          rw more (xor-lt 64 _ _ words (hash1_loop-lt (tail_of buffer size) 5381 (omega arith)))
      | inr p ↦ rw p words
    ]

-- the accumulator comes out of the loop
checksum_words_xor :
    (n : ℕ) (buffer : List ℕ) (r : ℕ)
    → checksum_words n buffer r ≡ bit_xor (checksum_words n buffer 0) r
unfolding checksum_words
checksum_words_xor zero buffer r = sym (zero-xor r)
checksum_words_xor (suc n) buffer r =
    let h = hash (from_bytes (take 8 buffer)) in
    let rest = checksum_words n (drop 8 buffer) 0 in
    rw
      (
        checksum_words_xor n (drop 8 buffer) (bit_xor r h),
        checksum_words_xor n (drop 8 buffer) (bit_xor 0 h),
        zero-xor h,
        xor_comm r h,
      )
      (sym (xor_assoc rest h r))

-- the rounds over a prefix of `p` words come first
checksum_words-append :
    (n p q : ℕ) (pre rest : List ℕ) (r : ℕ)
    → n ≡ p + q
    → length pre ≡ p * 8
    → checksum_words n (pre ++ rest) r ≡ checksum_words q rest (checksum_words p pre r)
unfolding checksum_words
checksum_words-append n zero q [] rest r e h = let same : n ≡ q = omega arith in rw same
checksum_words-append n zero q (b ∷ pre) rest r e h = absurd (omega arith)
checksum_words-append zero (suc p) q pre rest r e h = absurd (omega arith)
checksum_words-append (suc n) (suc p) q pre rest r e h =
    rw (take-append_le 8 pre rest (omega arith), drop-append_le 8 pre rest (omega arith))
      (checksum_words-append n p q (drop 8 pre) rest _ (omega arith) (rw length-drop (omega arith)))

take-all : (xs : List ℕ) (n : ℕ) → n ≡ length xs → take n xs ≡ xs
take-all [] zero h = refl
take-all [] (suc n) h = refl
take-all (x ∷ xs) zero h = absurd (omega arith)
take-all (x ∷ xs) (suc n) h = ap (λ (t : List ℕ). x ∷ t) (take-all xs n (omega arith))

-- A buffer of which a word `v` is the one at index `p`.
module _ (p : ℕ) (pre post : List ℕ) (before : length pre ≡ p * 8) where
  words_with :
      (q : ℕ) (v : List ℕ)
      → length v ≡ 8
      → checksum_words (p + suc q) (pre ++ (v ++ post)) 5381
        ≡ bit_xor
            (checksum_words q post 0)
            (bit_xor (checksum_words p pre 5381) (hash (from_bytes v)))
  unfolding checksum_words
  words_with q v n =
      checksum_words-append (p + suc q) p (suc q) pre (v ++ post) 5381 refl before
      ∙ rw
          (
            take-append_le 8 v post (omega arith),
            take-all v 8 (omega arith),
            drop-append_ge 8 0 v post (omega arith),
          )
          (checksum_words_xor q post _)

  -- the bytes behind the whole words do not depend on `v`
  tail_with :
      (size : ℕ) (v : List ℕ)
      → p < size / 8
      → length v ≡ 8
      → tail_of (pre ++ (v ++ post)) size
        ≡ take (size - size / 8 * 8) (drop ((size / 8 - p - 1) * 8) post)
  tail_with size v lt n = ap (take (size - size / 8 * 8)) (
      drop-append_ge (size / 8 * 8) ((size / 8 - p) * 8) pre (v ++ post) (omega arith)
      ∙ drop-append_ge ((size / 8 - p) * 8) ((size / 8 - p - 1) * 8) v post (omega arith))

  -- what all the other bytes contribute
  abbrev others : ℕ → ℕ
  others size =
      let q = size / 8 - p - 1 in
      let c = bit_xor (checksum_words q post 0) (checksum_words p pre 5381) in
      if ltb 0 (size - size / 8 * 8)
      then bit_xor (hash1 (take (size - size / 8 * 8) (drop (q * 8) post))) c
      else c

  checksum_with :
      (size : ℕ) (v : List ℕ)
      → p < size / 8
      → length v ≡ 8
      → checksum (pre ++ (v ++ post)) size ≡ bit_xor (others size) (hash (from_bytes v))
  unfolding checksum
  checksum_with size v lt n =
      let q = size / 8 - p - 1 in
      let h = hash (from_bytes v) in
      let k = checksum_words q post 0 in
      let r = checksum_words p pre 5381 in
      let split : size / 8 ≡ p + suc q = omega arith in
      let loop : checksum_words (size / 8) (pre ++ (v ++ post)) 5381 ≡ bit_xor (bit_xor k r) h =
        ap (λ (m : ℕ). checksum_words m (pre ++ (v ++ post)) 5381) split
        ∙ words_with q v n
        ∙ sym (xor_assoc k r h) in
      elim (Bool-cases (ltb 0 (size - size / 8 * 8))) [
        | inl more ↦
            let t = hash1 (take (size - size / 8 * 8) (drop (q * 8) post)) in
            rw (more, tail_with size v lt n, loop, xor_comm (bit_xor (bit_xor k r) h) t)
              (sym (xor_assoc t (bit_xor k r) h))
        | inr p ↦ rw (p, loop)
      ]

hash_iff : (a b : ℕ) → (hash a ≡ hash b) ↔ (u32 a ≡ u32 b)
unfolding hash
hash_iff a b = (
  (λ e. murmurhash32_injective (u32 a) (u32 b) (omega arith) (omega arith) e),
  λ e. ap murmurhash32 e,
)

-- Replacing one 8-byte word of a buffer, at a multiple of 8 among the whole words that the
-- checksum covers, leaves its checksum the same exactly when the lower 32 bits of the word stay
-- the same.
pub checksum_iff :
    (p size : ℕ) (pre w w' post : List ℕ)
    → length pre ≡ p * 8
    → length w ≡ 8
    → length w' ≡ 8
    → p < size / 8
    → (checksum (pre ++ (w ++ post)) size ≡ checksum (pre ++ (w' ++ post)) size)
      ↔ (u32 (from_bytes w) ≡ u32 (from_bytes w'))
checksum_iff p size pre w w' post before n n' lt =
    let c = others p pre post before size in
    let old = checksum_with p pre post before size w lt n in
    let new = checksum_with p pre post before size w' lt n' in
    let same = hash_iff (from_bytes w) (from_bytes w') in
    (
      (λ e. same.0 (xor_cancel c _ _ (sym old ∙ e ∙ new))),
      λ e. old ∙ ap (bit_xor c) (same.1 e) ∙ sym new,
    )
