-- ===== src/Vectors/Copies.antt =====
-- What the copying loops put into the buffer.
use native.Mathlib.Nat.{mod-eq_of_lt, mul-le-mul_right, add-mul}
use mustdb.Prelude.{
  ℕ, zero, suc, ◌+◌, ◌-◌, ◌*◌, ◌^◌, ◌≤◌, ◌<◌, ◌≡◌, refl, sym, ap, ◌∙◌, arith, true, false, some,
  List, [], ◌∷◌, ◌++◌, length, take, drop, blit, get_or, replicate, if◌then◌else◌, leb, ◌==◌, u64,
  blit-append, append_assoc, length-append, length-take, length-drop, length-replicate,
  take-append-drop, Bool-cases, inl, inr,
}
use mustdb.Vectors.{
  MustDbVector, get_typeid_size, selected, element_at, copy_loop, copy_fn, masked_element,
  copy_fn_set_null, generic_copy_loop, copy_to_storage,
}

-- the elements `k`, `k + 1`, … one after the other
unfoldable pub gather : (ℕ → List ℕ) → ℕ → ℕ → List ℕ
gather cell zero k = []
gather cell (suc n) k = cell k ++ gather cell n (k + 1)

-- an element under the mark that the null mask has for it
unfoldable pub element_or_zeros : ℕ → ℕ → List ℕ → List ℕ
element_or_zeros elem_size zero element = element
element_or_zeros elem_size (suc mark) element = replicate elem_size 0

gather-same : (f g : ℕ → List ℕ) (n k : ℕ) → ((i : ℕ) → f i ≡ g i) → gather f n k ≡ gather g n k
unfolding gather
gather-same f g zero k same = refl
gather-same f g (suc n) k same =
    ap (λ (t : List ℕ). t ++ gather f n (k + 1)) (same k)
    ∙ ap (λ (t : List ℕ). g k ++ t) (gather-same f g n (k + 1) same)

no_zero : (n : ℕ) → 0 < n → (n == 0) ≡ false
no_zero n lt = ground arith

suc_times : (n e : ℕ) → suc n * e ≡ e + n * e
suc_times n e = omega (arith, add-mul n 1 e)

no_elements : (xs : List ℕ) → length xs ≡ 0 → xs ≡ []
no_elements [] e = refl
no_elements (x ∷ xs) e = absurd (omega arith)

module _ (cell : ℕ → List ℕ) (elem_size : ℕ) where
  copy_loop-middle :
      (n k j : ℕ) (pre mid post : List ℕ)
      → ((i : ℕ) → k ≤ i → i < k + n → length (cell i) ≡ elem_size)
      → length pre ≡ j * elem_size
      → length mid ≡ n * elem_size
      → copy_loop cell elem_size n k j (pre ++ (mid ++ post)) ≡ pre ++ (gather cell n k ++ post)
  unfolding copy_loop gather
  copy_loop-middle zero k j pre mid post sized before size =
      let empty : mid ≡ [] = no_elements mid (omega arith) in rw empty
  copy_loop-middle (suc n) k j pre mid post sized before size =
      let here : length (cell k) ≡ elem_size = sized k (omega arith) (omega arith) in
      let first = take elem_size mid in
      let rest = drop elem_size mid in
      let fits : length first ≡ length (cell k) =
        omega (arith, length-take elem_size mid, size, suc_times n elem_size, here) in
      let written : blit (j * elem_size) (cell k) (pre ++ (mid ++ post))
          ≡ (pre ++ cell k) ++ (rest ++ post) =
        ap (λ (m : List ℕ). blit (j * elem_size) (cell k) (pre ++ (m ++ post)))
          (sym (take-append-drop elem_size mid))
        ∙ ap (λ (m : List ℕ). blit (j * elem_size) (cell k) (pre ++ m))
            (append_assoc first rest post)
        ∙ blit-append pre (cell k) first (rest ++ post) (j * elem_size) before fits
        ∙ sym (append_assoc pre (cell k) (rest ++ post)) in
      ap (copy_loop cell elem_size n (k + 1) (j + 1)) written
      ∙ copy_loop-middle n (k + 1) (j + 1) (pre ++ cell k) rest post
          (λ i lo hi. sized i (omega arith) (omega arith))
          (omega (arith, length-append pre (cell k), before, here, suc_times j elem_size))
          (omega (arith, length-drop elem_size mid, size, suc_times n elem_size))
      ∙ append_assoc pre (cell k) (gather cell n (k + 1) ++ post)
      ∙ ap (λ (t : List ℕ). pre ++ t) (sym (append_assoc (cell k) (gather cell n (k + 1)) post))

  -- The loop fills the front of the buffer with the elements, and leaves the rest of it.
  pub copy_loop-gather :
      (n k : ℕ) (dst : List ℕ)
      → ((i : ℕ) → k ≤ i → i < k + n → length (cell i) ≡ elem_size)
      → n * elem_size ≤ length dst
      → copy_loop cell elem_size n k 0 dst ≡ gather cell n k ++ drop (n * elem_size) dst
  copy_loop-gather n k dst sized room =
      ap (copy_loop cell elem_size n k 0) (sym (take-append-drop (n * elem_size) dst))
      ∙ copy_loop-middle n k 0 [] (take (n * elem_size) dst) (drop (n * elem_size) dst) sized
          (omega arith) (omega (arith, length-take (n * elem_size) dst, room))

take-plus : (c a b : ℕ) (xs : List ℕ) → c ≡ a + b → take c xs ≡ take a xs ++ take b (drop a xs)
take-plus c zero b xs e = ap (λ (n : ℕ). take n xs) (omega arith)
take-plus zero (suc a) b xs e = absurd (omega arith)
take-plus (suc c) (suc a) zero [] e = refl
take-plus (suc c) (suc a) (suc b) [] e = refl
take-plus (suc c) (suc a) b (x ∷ xs) e =
    ap (λ (t : List ℕ). x ∷ t) (take-plus c a b xs (omega arith))

drop-plus : (c a b : ℕ) (xs : List ℕ) → c ≡ a + b → drop c xs ≡ drop b (drop a xs)
drop-plus c zero b xs e = ap (λ (n : ℕ). drop n xs) (omega arith)
drop-plus zero (suc a) b xs e = absurd (omega arith)
drop-plus (suc c) (suc a) zero [] e = refl
drop-plus (suc c) (suc a) (suc b) [] e = refl
drop-plus (suc c) (suc a) b (x ∷ xs) e = drop-plus c a b xs (omega arith)

module _ (src : List ℕ) (elem_size : ℕ) where
  -- the elements of a vector in their order are a stretch of its memory
  gather-elements :
      (n k : ℕ)
      → gather (element_at src elem_size) n k ≡ take (n * elem_size) (drop (k * elem_size) src)
  unfolding gather element_at
  gather-elements zero k = rw (zero-times elem_size) refl
    where
      zero-times : (e : ℕ) → 0 * e ≡ 0
      zero-times e = omega arith
  gather-elements (suc n) k =
      ap (λ (t : List ℕ). take elem_size (drop (k * elem_size) src) ++ t)
        (gather-elements n (k + 1)
          ∙ ap (λ (t : List ℕ). take (n * elem_size) t)
              (drop-plus ((k + 1) * elem_size) (k * elem_size) elem_size src
                (omega (arith, add-mul k 1 elem_size))))
      ∙ sym (
          take-plus (suc n * elem_size) elem_size (n * elem_size) (drop (k * elem_size) src)
            (suc_times n elem_size))

  element-length :
      (n i : ℕ)
      → i < n
      → n * elem_size ≤ length src
      → length (element_at src elem_size i) ≡ elem_size
  unfolding element_at
  element-length n i lt room = omega (
    arith,
    length-take elem_size (drop (i * elem_size) src),
    length-drop (i * elem_size) src,
    suc_times i elem_size,
    mul-le-mul_right elem_size (lt_suc i n lt),
    room,
  )
    where
      lt_suc : (i n : ℕ) → i < n → suc i ≤ n
      lt_suc i n lt = omega arith

le→leb : (a b : ℕ) → a ≤ b → leb a b ≡ true
le→leb a b le = ground arith

-- the bytes that a vector holds
abbrev pub IsVector : MustDbVector → Type 0
IsVector v = length v.bytes ≡ v.count * get_typeid_size v.type

masked-length :
    (nullmask src : List ℕ) (elem_size i : ℕ)
    → length (element_at src elem_size i) ≡ elem_size
    → length (masked_element nullmask src elem_size i) ≡ elem_size
unfolding masked_element
masked-length nullmask src elem_size i e = elim (Bool-cases (get_or nullmask i 0 == 0)) [
  | inl t ↦ rw t e
  | inr f ↦ rw f (length-replicate elem_size 0)
]

masked-element_or_zeros :
    (nullmask src : List ℕ) (elem_size i : ℕ)
    → masked_element nullmask src elem_size i
      ≡ element_or_zeros elem_size (get_or nullmask i 0) (take elem_size (drop (i * elem_size) src))
unfolding masked_element element_at element_or_zeros
masked-element_or_zeros nullmask src elem_size i = by_mark (get_or nullmask i 0)
  where
    by_mark :
        (mark : ℕ)
        → (if mark == 0 then take elem_size (drop (i * elem_size) src) else replicate elem_size 0)
          ≡ element_or_zeros elem_size mark (take elem_size (drop (i * elem_size) src))
    by_mark zero = refl
    by_mark (suc mark) =
        let marked : (suc mark == 0) ≡ false = no_zero (suc mark) (omega arith) in rw marked refl

-- copy_to_storage of at least one element, inside the vector and the target, puts the bytes of
-- these elements at the front of the target and leaves the rest of it.
pub copy_to_storage-slice :
    (source : MustDbVector) (target : List ℕ) (offset element_count : ℕ)
    → IsVector source
    → 0 < element_count
    → offset + element_count ≤ source.count
    → source.count < 2 ^ 64
    → element_count * get_typeid_size source.type ≤ length target
    → let size = get_typeid_size source.type in
      copy_to_storage source target offset element_count
      ≡ some (
          take (element_count * size) (drop (offset * size) source.bytes)
          ++ drop (element_count * size) target)
unfolding copy_to_storage generic_copy_loop copy_fn selected
copy_to_storage-slice source target offset element_count w some_left inside wide room =
    let size = get_typeid_size source.type in
    let counted : (element_count == 0) ≡ false = no_zero element_count some_left in
    let filled : (source.count == 0) ≡ false = no_zero source.count (omega arith) in
    let exact : u64 (offset + element_count) ≡ offset + element_count =
      mod-eq_of_lt (omega arith) in
    let passes : leb (offset + element_count) source.count ≡ true =
      le→leb (offset + element_count) source.count inside in
    let back : (offset + element_count) - offset ≡ element_count = omega arith in
    rw (counted, filled, exact, passes, back)
      (ap some (
        copy_loop-gather (element_at source.bytes size) size element_count offset target
          (λ i lo hi.
            element-length source.bytes size source.count i (omega arith) (omega (arith, w)))
          room
        ∙ ap (λ (t : List ℕ). t ++ drop (element_count * size) target)
            (gather-elements source.bytes size element_count offset)))

-- generic_copy_loop with a selection and a null mask puts the selected elements, or zeros in the
-- place of those that the mask marks, one after the other at the front of the target and leaves
-- the rest of it: for at least one element, a range inside the vector, selected elements of the
-- vector, and a target that is large enough.
pub generic_copy_loop-gather :
    (source : MustDbVector) (target : List ℕ) (offset element_count : ℕ)
    (sel_vector nullmask : List ℕ)
    → IsVector source
    → 0 < element_count
    → offset + element_count ≤ source.count
    → source.count < 2 ^ 64
    → element_count * get_typeid_size source.type ≤ length target
    → ((k : ℕ) → k < offset + element_count → get_or sel_vector k 0 < source.count)
    → let size = get_typeid_size source.type in
      generic_copy_loop source target offset element_count true (some sel_vector) (some nullmask)
      ≡ some (
          gather
            (λ k.
              let i = get_or sel_vector k 0 in
              element_or_zeros size
                (get_or nullmask i 0)
                (take size (drop (i * size) source.bytes)))
            element_count
            offset
          ++ drop (element_count * size) target)
unfolding generic_copy_loop copy_fn_set_null selected
generic_copy_loop-gather source target offset element_count sel_vector nullmask w some_left inside
      wide room chosen =
    let size = get_typeid_size source.type in
    let counted : (element_count == 0) ≡ false = no_zero element_count some_left in
    let filled : (source.count == 0) ≡ false = no_zero source.count (omega arith) in
    let exact : u64 (offset + element_count) ≡ offset + element_count =
      mod-eq_of_lt (omega arith) in
    let passes : leb (offset + element_count) source.count ≡ true =
      le→leb (offset + element_count) source.count inside in
    let back : (offset + element_count) - offset ≡ element_count = omega arith in
    rw (counted, filled, exact, passes, back)
      (ap some (
        copy_loop-gather (λ k. masked_element nullmask source.bytes size (get_or sel_vector k 0))
          size element_count offset target
          (λ i lo hi. masked-length nullmask source.bytes size (get_or sel_vector i 0) (
            element-length source.bytes size source.count (get_or sel_vector i 0) (chosen i hi)
              (omega (arith, w))))
          room
        ∙ ap (λ (t : List ℕ). t ++ drop (element_count * size) target)
            (gather-same (λ k. masked_element nullmask source.bytes size (get_or sel_vector k 0))
              (λ k.
                let i = get_or sel_vector k 0 in
                element_or_zeros size (get_or nullmask i 0)
                  (take size (drop (i * size) source.bytes)))
              element_count offset
              (λ k. masked-element_or_zeros nullmask source.bytes size (get_or sel_vector k 0)))))
