-- ===== src/Alloc/Realloc.antt =====
-- mrealloc and mcalloc: the statistics, and the blocks that are returned.
use mathlib.Core.Path.{subst}
use native.Mathlib.Nat.{mod-eq_of_lt, mul-le-mul_left, mul-div-le}
use mustdb.Alloc.Stats.{
  IsAllocator, HasRoom, mmalloc-IsAllocator, mfree-IsAllocator, check_fault-IsAllocator,
  check_fault-HasRoom, resize_block-IsAllocator,
}
use mustdb.Alloc.{
  Allocator, size_of_alloc_hdr, check_fault, mmalloc, mrealloc, place_block, AllocBlock,
  clear_block, mcalloc, the_block, live_block,
}
use mustdb.Prelude.{
  ℕ, zero, suc, ◌-◌, ◌*◌, ◌/◌, ◌^◌, ◌<◌, ◌≤◌, ==_iff, u64, ◌≢◌, not, ◌&&◌, [], ◌∷◌, ◌++◌, length,
  get_elem?, set, replicate, ◌≡◌, refl, sym, ap, ◌∙◌, arith, false, Option, none, some, List, ltb,
  ◌==◌, Bool-cases, inl, inr,
}

module _ (m : Allocator) (w : IsAllocator m) where
  -- mrealloc, which is mmalloc for NULL and mfree for size 0, keeps the statistics right,
  -- whatever memory and faults do: the live bytes are the sum of the live blocks and not above
  -- the peak, and the allocations are those freed and those live, where the live bytes with the
  -- new size and the allocations with one more are below 2^64.
  pub mrealloc-IsAllocator :
      (memory : Option (List ℕ)) (ptr : Option ℕ) (size : ℕ)
      → HasRoom m size
      → IsAllocator (mrealloc memory m ptr size).1
  unfolding mrealloc
  mrealloc-IsAllocator memory none size room = mmalloc-IsAllocator m w memory size room
  mrealloc-IsAllocator memory (some a) size room = elim (Bool-cases (size == 0)) [
    | inl z ↦ rw z (mfree-IsAllocator m w (some a) room.1)
    | inr z ↦ elim (Bool-cases (check_fault m).0) [
      | inl e ↦ rw (z, e) (check_fault-IsAllocator m w)
      | inr e ↦ elim (Bool-cases (ltb (2 ^ 64 - 1 - size_of_alloc_hdr) size)) [
        | inl f ↦ rw (z, e, f) (check_fault-IsAllocator m w)
        | inr f ↦
            rw (z, e, f)
              (resize_block-IsAllocator memory (check_fault m).1 a size
                (live_block (check_fault m).1 a) refl (check_fault-IsAllocator m w)
                (check_fault-HasRoom m size room))
      ]
    ]
  ]

elem-append : {A : Type 0} (xs : List A) (y : A) → get_elem? (xs ++ (y ∷ [])) (length xs) ≡ some y
elem-append [] y = refl
elem-append (x ∷ xs) y = elem-append xs y

elem-set :
    {A : Type 0} (xs : List A) (i : ℕ) (v old : A)
    → get_elem? xs i ≡ some old
    → get_elem? (set xs i v) i ≡ some v
elem-set [] i v old e = cc
elem-set (x ∷ xs) zero v old e = refl
elem-set (x ∷ xs) (suc i) v old e = elem-set xs i v old e

-- a product that passes the check of mcalloc is not cut
no_overflow :
    (count size : ℕ)
    → not (count == 0) && ltb ((2 ^ 64 - 1) / count) size ≡ false
    → count * size < 2 ^ 64
no_overflow count size e = elim (Bool-cases (count == 0)) [
  | inl z ↦ let none_left : count ≡ 0 = (==_iff count 0).0 z in rw none_left (omega arith)
  | inr z ↦
      let fits : size ≤ (2 ^ 64 - 1) / count =
        ltb→le ((2 ^ 64 - 1) / count) size (sym (rw z refl) ∙ e) in
      omega (arith, mul-le-mul_left count fits, mul-div-le (2 ^ 64 - 1) count)
]
  where
    ltb→le : (a b : ℕ) → ltb a b ≡ false → b ≤ a
    ltb→le a b e = ground arith

some-eq : {A : Type 0} {x y : A} → some x ≡ some y → x ≡ y
some-eq e = cc

none≢some : {A : Type 0} {x : A} → none ≢ some x
none≢some = cc

-- an address that mmalloc returns is that of a block
place_block-placed :
    (memory : Option (List ℕ)) (m : Allocator) (size a : ℕ)
    → (place_block memory m size).0 ≡ some a
    → (old : Option AllocBlock) × (get_elem? (place_block memory m size).1.blocks a ≡ some old)
unfolding place_block
place_block-placed none m size a e = absurd (none≢some e)
place_block-placed (some bytes) m size a e =
    let new : Option AllocBlock = some (record { size = size; bytes = bytes }) in
    (
      new,
      subst (λ (x : ℕ). get_elem? (m.blocks ++ (new ∷ [])) x ≡ some new) (some-eq e)
          (elem-append m.blocks new),
    )

module _ (memory : Option (List ℕ)) (m : Allocator) (size a : ℕ) where
  mmalloc-placed :
      (mmalloc memory m size).0 ≡ some a
      → (old : Option AllocBlock) × (get_elem? (mmalloc memory m size).1.blocks a ≡ some old)
  unfolding mmalloc
  mmalloc-placed = elim (Bool-cases (check_fault m).0) [
    | inl e ↦ rw e (λ h. absurd (none≢some h))
    | inr e ↦ elim (Bool-cases (ltb (2 ^ 64 - 1 - size_of_alloc_hdr) size)) [
      | inl f ↦ rw (e, f) (λ h. absurd (none≢some h))
      | inr f ↦ rw (e, f) (place_block-placed memory (check_fault m).1 size a)
    ]
  ]

-- the block of zeros that an allocation has been made
clear_block-block :
    (m : Allocator) (ptr : Option ℕ) (n a : ℕ) (old : Option AllocBlock)
    → ptr ≡ some a
    → get_elem? m.blocks a ≡ some old
    → live_block (clear_block m ptr n) a ≡ some (record { size = n; bytes = replicate n 0 })
unfolding clear_block
clear_block-block m none n a old e there = absurd (none≢some e)
clear_block-block m (some x) n a old e there = rw (some-eq e) (
    ap the_block
      (elem-set m.blocks a (some (record { size = n; bytes = replicate n 0 })) old there))

-- A block that mcalloc returns has exactly count times size bytes, without wrap-around, and all
-- of them are 0.
pub mcalloc-block :
    (memory : Option (List ℕ)) (m : Allocator) (count size a : ℕ)
    → (mcalloc memory m count size).0 ≡ some a
    → live_block (mcalloc memory m count size).1 a
      ≡ some (record { size = count * size; bytes = replicate (count * size) 0 })
unfolding mcalloc
mcalloc-block memory m count size a =
    elim (Bool-cases (not (count == 0) && ltb ((2 ^ 64 - 1) / count) size)) [
      | inl e ↦ rw e (λ h. absurd (none≢some h))
      | inr e ↦
          let exact : u64 (count * size) ≡ count * size = mod-eq_of_lt (no_overflow count size e) in
          rw (e, exact)
            (λ h.
              let (old, there) = mmalloc-placed memory m (count * size) a h in
              clear_block-block (mmalloc memory m (count * size)).1
                (mmalloc memory m (count * size)).0 (count * size) a old h there)
    ]
