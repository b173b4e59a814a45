-- ===== src/Storage/File.antt =====
-- The `FILE*` behind a FileSystemHandle (file_read_at, file_write_at), as the bytes of the file.
-- The read and write calls of stdio are taken to transfer all they can.
use mustdb.Prelude.{
  ℕ, zero, suc, ◌+◌, ◌-◌, ◌^◌, ◌≤◌, ◌<◌, ◌≡◌, ◌⊎◌, refl, arith, ap, ap₂, ◌∙◌, ◌&&◌, Option, none,
  some, List, [], ◌∷◌, length, get_or, drop, ltb, leb, if◌then◌else◌, min, max,
}

pub record File : Type 0 where
  pub len : ℕ
  pub byte : ℕ → ℕ

-- what fread leaves in a buffer: behind the end of the file the buffer keeps its bytes
unfoldable pub fread : File → List ℕ → ℕ → List ℕ
fread f [] p = []
fread f (b ∷ buffer) p = (if ltb p f.len then f.byte p else b) ∷ fread f buffer (p + 1)

-- Writing behind the end of the file leaves a gap of zeros.
unfoldable pub fwrite : File → List ℕ → ℕ → File
fwrite f bytes location = record {
  len = max f.len (location + length bytes);
  byte = λ p.
      if leb location p && ltb p (location + length bytes)
      then get_or bytes (p - location) 0
      else if ltb p f.len
      then f.byte p
      else 0;
}

-- fseek takes a signed offset and refuses a negative one.
abbrev pub max_offset : ℕ
max_offset = 2 ^ 63

-- The result is the number of bytes read, `none` for -1, with the buffer.
unfoldable pub file_read_at : File → List ℕ → ℕ → Option ℕ × List ℕ
unfolding fread
file_read_at f buffer location =
    if ltb location max_offset
    then (some (min (length buffer) (f.len - location)), fread f buffer location)
    else (none, buffer)

unfoldable pub file_write_at : File → List ℕ → ℕ → Option ℕ × File
unfolding fwrite
file_write_at f bytes location =
    if ltb location max_offset then (some (length bytes), fwrite f bytes location) else (none, f)

drop-eq-cons :
    (i : ℕ) (xs : List ℕ) {r : ℕ} {rest : List ℕ}
    → drop i xs ≡ r ∷ rest
    → (i < length xs) × (get_or xs i 0 ≡ r) × (drop (suc i) xs ≡ rest)
drop-eq-cons zero [] h = cc
drop-eq-cons (suc i) [] h = cc
drop-eq-cons zero (x ∷ xs) h = (omega arith, cc, cc)
drop-eq-cons (suc i) (x ∷ xs) h =
    let (lt, here, rest) = drop-eq-cons i xs h in (omega arith, here, rest)

-- the byte at `p`, inside and outside the bytes written
fwrite_inside :
    (f : File) (bytes : List ℕ) (location i p b : ℕ)
    → p ≡ location + i
    → i < length bytes
    → (if ltb p (fwrite f bytes location).len then (fwrite f bytes location).byte p else b)
      ≡ get_or bytes i 0
unfolding fwrite
fwrite_inside f bytes location i p b e h =
    let i' : p - location ≡ i = omega arith in rw i' (ground arith)

fwrite_outside :
    (f : File) (bytes : List ℕ) (location p b : ℕ)
    → p < f.len
    → (p < location) ⊎ (location + length bytes ≤ p)
    → (if ltb p (fwrite f bytes location).len then (fwrite f bytes location).byte p else b)
      ≡ (if ltb p f.len then f.byte p else b)
unfolding fwrite
fwrite_outside f bytes location p b within apart = ground arith

fread-fwrite_from :
    (f : File) (bytes : List ℕ) (location i : ℕ) (rest buffer : List ℕ)
    → drop i bytes ≡ rest
    → length buffer ≡ length rest
    → fread (fwrite f bytes location) buffer (location + i) ≡ rest
unfolding fread
fread-fwrite_from f bytes location i [] [] h n = refl
fread-fwrite_from f bytes location i [] (b ∷ buffer) h n = absurd (omega arith)
fread-fwrite_from f bytes location i (r ∷ rest) [] h n = absurd (omega arith)
fread-fwrite_from f bytes location i (r ∷ rest) (b ∷ buffer) h n =
    let (lt, here, behind) = drop-eq-cons i bytes h in
    let next : location + i + 1 ≡ location + suc i = omega arith in
    ap₂ ◌∷◌ (fwrite_inside f bytes location i (location + i) b refl lt ∙ here) (
      ap (fread (fwrite f bytes location) buffer) next
      ∙ fread-fwrite_from f bytes location (suc i) rest buffer behind (omega arith))

-- What is written is read back.
pub fread-fwrite :
    (f : File) (bytes : List ℕ) (location : ℕ) (buffer : List ℕ)
    → length buffer ≡ length bytes
    → fread (fwrite f bytes location) buffer location ≡ bytes
fread-fwrite f bytes location buffer n =
    let start : location ≡ location + 0 = omega arith in
    ap (fread (fwrite f bytes location) buffer) start
    ∙ fread-fwrite_from f bytes location 0 bytes buffer refl n

-- A read of other bytes of the file does not see the write.
pub fread-fwrite_apart :
    (f : File) (bytes : List ℕ) (location : ℕ) (buffer : List ℕ) (p : ℕ)
    → p + length buffer ≤ f.len
    → (p + length buffer ≤ location) ⊎ (location + length bytes ≤ p)
    → fread (fwrite f bytes location) buffer p ≡ fread f buffer p
unfolding fread
fread-fwrite_apart f bytes location [] p within apart = refl
fread-fwrite_apart f bytes location (b ∷ buffer) p within apart =
    ap₂ ◌∷◌ (fwrite_outside f bytes location p b (omega arith) (omega arith))
      (fread-fwrite_apart f bytes location buffer (p + 1) (omega arith) (omega arith))
