-- ===== src/Alloc/Tests.antt =====
-- The theorems on allocation at a heap of one block, and at two threads that meet a countdown of 1.
use mustdb.Alloc.Realloc.{mrealloc-IsAllocator}
use mustdb.Alloc.Stats.{IsAllocator, HasRoom, mmalloc-IsAllocator}
use mustdb.Alloc.Heap.{live_bytes, live_blocks}
use mustdb.Alloc.Threads.Safety.{passed-refused}
use mustdb.Alloc.Threads.{
  ready, loaded, passed, refused, Shared, thread_step, shared_step, same_value, Reachable, start,
  step, one_passed, one_refused, count,
}
use mustdb.Alloc.{
  pos, negsuc, Allocator, mmalloc, mcalloc, mrealloc, mem_should_fail, check_fault, place_block,
  alloc_mem_stats, update_mem_peak, mfree, free_block, free_mem_stats,
}
use mustdb.Prelude.{◌<◌, ◌≡◌, refl, arith, true, false, some, [], ◌∷◌, replicate}

abbrev new_allocator : Allocator
new_allocator = record {
  faults = true;
  fault_countdown = negsuc 0;
  global_mem_stats = record {
    alloc_count = 0;
    free_count = 0;
    realloc_count = 0;
    bytes_live = 0;
    bytes_peak = 0;
  };
  blocks = [];
}

new_allocator-IsAllocator : IsAllocator new_allocator
unfolding live_bytes live_blocks
new_allocator-IsAllocator = (refl, omega arith, refl)

-- a heap with a block of 6 bytes
abbrev one_block : Allocator
one_block = (mmalloc (some (replicate 6 9)) new_allocator 6).1

one_block-IsAllocator : IsAllocator one_block
one_block-IsAllocator =
    mmalloc-IsAllocator new_allocator new_allocator-IsAllocator (some (replicate 6 9)) 6
      (omega arith, omega arith)

one_block-HasRoom : HasRoom one_block 10
unfolding mmalloc check_fault mem_should_fail place_block alloc_mem_stats update_mem_peak
one_block-HasRoom = (omega arith, omega arith)

mrealloc-IsAllocator_example :
    IsAllocator (mrealloc (some (replicate 10 9)) one_block (some 0) 10).1
mrealloc-IsAllocator_example =
    mrealloc-IsAllocator one_block one_block-IsAllocator (some (replicate 10 9)) (some 0) 10
      one_block-HasRoom

-- the peak stays when the block is freed
peak_kept : (mfree one_block (some 0)).global_mem_stats.bytes_peak ≡ 6
unfolding mmalloc check_fault mem_should_fail place_block alloc_mem_stats update_mem_peak mfree
    free_block free_mem_stats
peak_kept = refl

second_address : (mcalloc (some (replicate 6 9)) one_block 3 2).0 ≡ some 1
unfolding mcalloc mmalloc check_fault mem_should_fail place_block alloc_mem_stats update_mem_peak
second_address = refl

-- Both threads load 1; the first one takes it, and the second one has to look again.
abbrev both_loaded : Shared
both_loaded = record { fault_countdown = pos 1; threads = loaded (pos 1) ∷ loaded (pos 1) ∷ [] }

abbrev one_refused_state : Shared
one_refused_state = record { fault_countdown = pos 0; threads = passed ∷ refused ∷ [] }

one_refused-Reachable : Reachable 1 2 one_refused_state
unfolding shared_step thread_step same_value
one_refused-Reachable =
    step {s = record { fault_countdown = pos 0; threads = passed ∷ loaded (pos 0) ∷ [] }} false 1
      (loaded (pos 0))
      (step {s = record { fault_countdown = pos 0; threads = passed ∷ loaded (pos 1) ∷ [] }} false 1
        (loaded (pos 1))
        (step {s = both_loaded} false 0 (loaded (pos 1))
          (step {s = record { fault_countdown = pos 1; threads = loaded (pos 1) ∷ ready ∷ [] }}
            false 1 ready (step false 0 ready start refl) refl)
          refl)
        refl)
      refl

someone_refused : 0 < count one_refused one_refused_state.threads
unfolding count
someone_refused = omega arith

passed-refused_example : count one_passed one_refused_state.threads ≡ 1
passed-refused_example = passed-refused 1 2 one_refused_state one_refused-Reachable someone_refused
