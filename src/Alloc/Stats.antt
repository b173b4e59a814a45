-- ===== src/Alloc/Stats.antt =====
-- The statistics of the allocator against the blocks that are live.
use mustdb.Alloc.Heap.{
  live_bytes, live_blocks, live_bytes-append, live_blocks-append, live_bytes-set, live_blocks-set,
}
use mustdb.Alloc.{
  MallocStats, AllocBlock, Allocator, size_of_alloc_hdr, update_mem_peak, alloc_mem_stats,
  sub_mem_stats_live, free_mem_stats, check_fault, place_block, mmalloc, live_block, the_block,
  free_block, mfree, resize_stats, resize_block,
}
use mustdb.Prelude.{
  ℕ, ◌+◌, ◌-◌, ◌^◌, ◌≤◌, ◌<◌, ◌≡◌, refl, ap, arith, true, false, Option, none, some, List, [], ◌∷◌,
  ◌++◌, get_elem?, set, ltb, leb, u64, Bool-cases, inl, inr,
}
use native.Mathlib.Nat.{mod-eq_of_lt}

-- The live bytes are the sum of the sizes of the live blocks and never above the peak; the
-- allocations are those freed and those live.
abbrev pub Agrees : MallocStats → List (Option AllocBlock) → Type 0
Agrees stats blocks =
    (stats.bytes_live ≡ live_bytes blocks)
    × (stats.bytes_live ≤ stats.bytes_peak)
    × (stats.alloc_count ≡ stats.free_count + live_blocks blocks)

abbrev pub IsAllocator : Allocator → Type 0
IsAllocator m = Agrees m.global_mem_stats m.blocks

-- The counters stay below their width when `size` bytes more are allocated.
abbrev pub HasRoom : Allocator → ℕ → Type 0
HasRoom m size =
    (m.global_mem_stats.bytes_live + size < 2 ^ 64) × (m.global_mem_stats.alloc_count + 1 < 2 ^ 64)

peak-fields :
    (live : ℕ) (stats : MallocStats)
    → ((update_mem_peak live stats).bytes_live ≡ stats.bytes_live)
      × ((update_mem_peak live stats).alloc_count ≡ stats.alloc_count)
      × ((update_mem_peak live stats).free_count ≡ stats.free_count)
      × (live ≤ (update_mem_peak live stats).bytes_peak)
unfolding update_mem_peak
peak-fields live stats = elim (Bool-cases (ltb stats.bytes_peak live)) [
  | inl e ↦ rw e (refl, refl, refl, omega arith)
  | inr e ↦ rw e (refl, refl, refl, le_of_ltb stats.bytes_peak live e)
]
  where
    le_of_ltb : (a b : ℕ) → ltb a b ≡ false → b ≤ a
    le_of_ltb a b e = ground arith

sub-live :
    (size : ℕ) (stats : MallocStats)
    → (sub_mem_stats_live size stats).bytes_live ≡ stats.bytes_live - size
unfolding sub_mem_stats_live
sub-live size stats = ground arith

-- what an allocation, a release and a resizing do to the agreement
module _ (stats : MallocStats) (blocks : List (Option AllocBlock)) (w : Agrees stats blocks) where
  alloc-Agrees :
      (b : AllocBlock)
      → stats.bytes_live + b.size < 2 ^ 64
      → stats.alloc_count + 1 < 2 ^ 64
      → Agrees (alloc_mem_stats b.size stats) (blocks ++ (some b ∷ []))
  unfolding alloc_mem_stats
  alloc-Agrees b room_bytes room_count =
      let live : u64 (stats.bytes_live + b.size) ≡ stats.bytes_live + b.size =
        mod-eq_of_lt room_bytes in
      let count : u64 (stats.alloc_count + 1) ≡ stats.alloc_count + 1 = mod-eq_of_lt room_count in
      let counted : MallocStats = record stats {
        alloc_count = u64 (stats.alloc_count + 1);
        bytes_live = u64 (stats.bytes_live + b.size);
      } in
      let (same_live, same_count, same_freed, peak) =
        peak-fields (u64 (stats.bytes_live + b.size)) counted in
      (
        omega (arith, same_live, live, w.0, live_bytes-append blocks (some b)),
        omega (arith, same_live, peak),
        omega (arith, same_count, count, same_freed, w.2, live_blocks-append blocks (some b)),
      )

  free-Agrees :
      (a : ℕ) (b : AllocBlock)
      → get_elem? blocks a ≡ some (some b)
      → stats.alloc_count + 1 < 2 ^ 64
      → Agrees (free_mem_stats b.size stats) (set blocks a none)
  unfolding free_mem_stats sub_mem_stats_live
  free-Agrees a b e room_count =
      let bytes = live_bytes-set blocks a (some b) none e in
      let count = live_blocks-set blocks a (some b) none e in
      let freed : u64 (stats.free_count + 1) ≡ stats.free_count + 1 =
        mod-eq_of_lt (omega (arith, w.2, room_count)) in
      let less = sub-live b.size (record stats { free_count = u64 (stats.free_count + 1) }) in
      (omega (arith, less, bytes, w.0), omega (arith, less, w.1), omega (arith, freed, count, w.2))

  resize-Agrees :
      (a : ℕ) (b new : AllocBlock)
      → get_elem? blocks a ≡ some (some b)
      → stats.bytes_live + new.size < 2 ^ 64
      → Agrees (resize_stats b.size new.size stats) (set blocks a (some new))
  unfolding resize_stats
  resize-Agrees a b new e room_bytes =
      let bytes = live_bytes-set blocks a (some b) (some new) e in
      let count = live_blocks-set blocks a (some b) (some new) e in
      let live = stats.bytes_live + (new.size - b.size) in
      let wide : u64 live ≡ live = mod-eq_of_lt (omega arith) in
      let counted : MallocStats = record stats { realloc_count = u64 (stats.realloc_count + 1) } in
      let (same_live, same_count, same_freed, peak) =
        peak-fields (u64 live) (record counted { bytes_live = u64 live }) in
      elim (Bool-cases (leb b.size new.size)) [
        | inl f ↦ rw f (
          omega (arith, same_live, wide, bytes, w.0, leb→le b.size new.size f),
          omega (arith, same_live, peak),
          omega (arith, same_count, same_freed, count, w.2),
        )
        | inr f ↦
            let less = sub-live (b.size - new.size) counted in
            rw f (
              omega (arith, less, bytes, w.0, leb→gt b.size new.size f),
              omega (arith, less, w.1),
              omega (arith, count, w.2),
            )
      ]
    where
      leb→le : (x y : ℕ) → leb x y ≡ true → x ≤ y
      leb→le x y e = ground arith

      leb→gt : (x y : ℕ) → leb x y ≡ false → y < x
      leb→gt x y e = ground arith

-- A check for a fault changes only the countdown.
pub check_fault-keeps :
    (m : Allocator)
    → ((check_fault m).1.global_mem_stats ≡ m.global_mem_stats)
      × ((check_fault m).1.blocks ≡ m.blocks)
unfolding check_fault
check_fault-keeps m = elim (Bool-cases m.faults) [
  | inl e ↦ rw e (refl, refl)
  | inr e ↦ rw e (refl, refl)
]

pub check_fault-IsAllocator : (m : Allocator) → IsAllocator m → IsAllocator (check_fault m).1
check_fault-IsAllocator m w = let (stats, blocks) = check_fault-keeps m in rw (stats, blocks) w

pub check_fault-HasRoom :
    (m : Allocator) (size : ℕ) → HasRoom m size → HasRoom (check_fault m).1 size
check_fault-HasRoom m size room = rw ((check_fault-keeps m).0) room

place_block-IsAllocator :
    (memory : Option (List ℕ)) (m : Allocator) (size : ℕ)
    → IsAllocator m
    → HasRoom m size
    → IsAllocator (place_block memory m size).1
unfolding place_block
place_block-IsAllocator none m size w room = w
place_block-IsAllocator (some bytes) m size w room =
    alloc-Agrees m.global_mem_stats m.blocks w (record { size = size; bytes = bytes }) room.0 room.1

live_block-found :
    (o : Option (Option AllocBlock)) (b : AllocBlock) → the_block o ≡ some b → o ≡ some (some b)
live_block-found none b e = cc
live_block-found (some o) b e = ap some e

pub resize_block-IsAllocator :
    (memory : Option (List ℕ)) (m : Allocator) (a size : ℕ) (o : Option AllocBlock)
    → live_block m a ≡ o
    → IsAllocator m
    → HasRoom m size
    → IsAllocator (resize_block memory m a size o).1
unfolding resize_block
resize_block-IsAllocator memory m a size none e w room = w
resize_block-IsAllocator none m a size (some b) e w room = w
resize_block-IsAllocator (some bytes) m a size (some b) e w room =
    resize-Agrees m.global_mem_stats m.blocks w a b (record { size = size; bytes = bytes })
      (live_block-found (get_elem? m.blocks a) b e) room.0

free_block-IsAllocator :
    (m : Allocator) (a : ℕ) (o : Option AllocBlock)
    → live_block m a ≡ o
    → IsAllocator m
    → m.global_mem_stats.alloc_count + 1 < 2 ^ 64
    → IsAllocator (free_block m a o)
unfolding free_block
free_block-IsAllocator m a none e w room = w
free_block-IsAllocator m a (some b) e w room =
    free-Agrees m.global_mem_stats m.blocks w a b (live_block-found (get_elem? m.blocks a) b e) room

module _ (m : Allocator) (w : IsAllocator m) where
  -- mmalloc keeps the statistics right.
  pub mmalloc-IsAllocator :
      (memory : Option (List ℕ)) (size : ℕ) → HasRoom m size → IsAllocator (mmalloc memory m size).1
  unfolding mmalloc
  mmalloc-IsAllocator memory size room = elim (Bool-cases (check_fault m).0) [
    | inl e ↦ rw e (check_fault-IsAllocator m w)
    | inr e ↦ elim (Bool-cases (ltb (2 ^ 64 - 1 - size_of_alloc_hdr) size)) [
      | inl f ↦ rw (e, f) (check_fault-IsAllocator m w)
      | inr f ↦
          rw (e, f)
            (place_block-IsAllocator memory (check_fault m).1 size (check_fault-IsAllocator m w)
              (check_fault-HasRoom m size room))
    ]
  ]

  -- mfree keeps the statistics right.
  pub mfree-IsAllocator :
      (ptr : Option ℕ) → m.global_mem_stats.alloc_count + 1 < 2 ^ 64 → IsAllocator (mfree m ptr)
  unfolding mfree
  mfree-IsAllocator none room = w
  mfree-IsAllocator (some a) room = free_block-IsAllocator m a (live_block m a) refl w room
