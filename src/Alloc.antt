-- ===== src/Alloc.antt =====
-- src/utils/alloc.c and src/include/alloc.h: allocation with statistics and injected faults. What
-- malloc and realloc return is an argument: the bytes of a block, or nothing. The functions are those
-- of one thread at a time; Alloc/Threads has the interleavings of mem_should_fail.
pub mod Heap
pub mod Stats
pub mod Realloc
pub mod Threads
mod Tests
use mustdb.Prelude.{
  ℕ, zero, suc, ◌+◌, ◌-◌, ◌*◌, ◌/◌, ◌^◌, Bool, true, false, Option, none, some, List, [], ◌∷◌, ◌++◌,
  length, get_elem?, set, replicate, ltb, leb, ◌==◌, ◌&&◌, not, if◌then◌else◌, u64,
}

-- signed numbers, as those of the native naturals: `negsuc n` is -1 - n
pub data ℤ : Type 0 where
  pos negsuc : ℕ → ℤ

pub record MallocStats : Type 0 where
  pub alloc_count : ℕ
  pub free_count : ℕ
  pub realloc_count : ℕ
  pub bytes_live : ℕ
  pub bytes_peak : ℕ

-- a block with the size in its header
pub record AllocBlock : Type 0 where
  pub size : ℕ
  pub bytes : List ℕ

-- `faults` is MUSTDB_ENABLE_ALLOC_FAULTS. The address of a block is its index; a freed block is none.
pub record Allocator : Type 0 where
  pub faults : Bool
  pub fault_countdown : ℤ
  pub global_mem_stats : MallocStats
  pub blocks : List (Option AllocBlock)

abbrev pub size_of_alloc_hdr : ℕ
size_of_alloc_hdr = 8

unfoldable pub update_mem_peak : ℕ → MallocStats → MallocStats
update_mem_peak live stats =
    if ltb stats.bytes_peak live then record stats { bytes_peak = live } else stats

-- whether the allocation fails, and the countdown afterwards
unfoldable pub mem_should_fail : ℤ → Bool × ℤ
mem_should_fail (negsuc n) = (false, negsuc n)
mem_should_fail (pos zero) = (true, pos zero)
mem_should_fail (pos (suc n)) = (false, pos n)

unfoldable pub alloc_mem_stats : ℕ → MallocStats → MallocStats
unfolding update_mem_peak
alloc_mem_stats size stats =
    let live = u64 (stats.bytes_live + size) in
    update_mem_peak live
      (record stats { alloc_count = u64 (stats.alloc_count + 1); bytes_live = live })

-- The subtraction stops at 0, as the code's does.
unfoldable pub sub_mem_stats_live : ℕ → MallocStats → MallocStats
sub_mem_stats_live size stats = record stats {
  bytes_live = if leb size stats.bytes_live then stats.bytes_live - size else 0;
}

unfoldable pub free_mem_stats : ℕ → MallocStats → MallocStats
unfolding sub_mem_stats_live
free_mem_stats size stats =
    sub_mem_stats_live size (record stats { free_count = u64 (stats.free_count + 1) })

-- the check for an injected fault, which is compiled in where faults are enabled
unfoldable pub check_fault : Allocator → Bool × Allocator
unfolding mem_should_fail
check_fault m =
    if m.faults
    then (
      (mem_should_fail m.fault_countdown).0,
      record m { fault_countdown = (mem_should_fail m.fault_countdown).1 },
    )
    else (false, m)

-- malloc, the header and the statistics; the address is the index of the block, and `none` is NULL
unfoldable pub place_block : Option (List ℕ) → Allocator → ℕ → Option ℕ × Allocator
unfolding alloc_mem_stats
place_block none m size = (none, m)
place_block (some bytes) m size = (
  some (length m.blocks),
  record m {
    global_mem_stats = alloc_mem_stats size m.global_mem_stats;
    blocks = m.blocks ++ (some (record { size = size; bytes = bytes }) ∷ []);
  },
)

unfoldable pub mmalloc : Option (List ℕ) → Allocator → ℕ → Option ℕ × Allocator
unfolding check_fault place_block
mmalloc memory m size =
    let checked = check_fault m in
    if checked.0
    then (none, checked.1)
    else if ltb (2 ^ 64 - 1 - size_of_alloc_hdr) size
    then (none, checked.1)
    else place_block memory checked.1 size

-- memset of the block at an address to 0
unfoldable pub clear_block : Allocator → Option ℕ → ℕ → Allocator
clear_block m none n = m
clear_block m (some a) n = record m {
  blocks = set m.blocks a (some (record { size = n; bytes = replicate n 0 }));
}

unfoldable pub mcalloc : Option (List ℕ) → Allocator → ℕ → ℕ → Option ℕ × Allocator
unfolding mmalloc clear_block
mcalloc memory m count size =
    let bytes = u64 (count * size) in
    let allocated = mmalloc memory m bytes in
    if not (count == 0) && ltb ((2 ^ 64 - 1) / count) size
    then (none, m)
    else (allocated.0, clear_block allocated.1 allocated.0 bytes)

-- the header's size of a live block
abbrev pub the_block : Option (Option AllocBlock) → Option AllocBlock
the_block none = none
the_block (some b) = b

abbrev pub live_block : Allocator → ℕ → Option AllocBlock
live_block m a = the_block (get_elem? m.blocks a)

-- A block that is not live is undefined in C; the model leaves it alone.
unfoldable pub free_block : Allocator → ℕ → Option AllocBlock → Allocator
unfolding free_mem_stats
free_block m a none = m
free_block m a (some b) = record m {
  global_mem_stats = free_mem_stats b.size m.global_mem_stats;
  blocks = set m.blocks a none;
}

unfoldable pub mfree : Allocator → Option ℕ → Allocator
unfolding free_block
mfree m none = m
mfree m (some a) = free_block m a (live_block m a)

-- the statistics of a block that had `old_size` and has `size`
unfoldable pub resize_stats : ℕ → ℕ → MallocStats → MallocStats
unfolding update_mem_peak sub_mem_stats_live
resize_stats old_size size stats =
    let counted = record stats { realloc_count = u64 (stats.realloc_count + 1) } in
    let live = u64 (stats.bytes_live + (size - old_size)) in
    if leb old_size size
    then update_mem_peak live (record counted { bytes_live = live })
    else sub_mem_stats_live (old_size - size) counted

-- realloc of a live block, which keeps its address
unfoldable pub resize_block :
    Option (List ℕ) → Allocator → ℕ → ℕ → Option AllocBlock → Option ℕ × Allocator
unfolding resize_stats
resize_block memory m a size none = (none, m)
resize_block none m a size (some b) = (none, m)
resize_block (some bytes) m a size (some b) = (
  some a,
  record m {
    global_mem_stats = resize_stats b.size size m.global_mem_stats;
    blocks = set m.blocks a (some (record { size = size; bytes = bytes }));
  },
)

unfoldable pub mrealloc : Option (List ℕ) → Allocator → Option ℕ → ℕ → Option ℕ × Allocator
unfolding mmalloc mfree check_fault resize_block
mrealloc memory m none size = mmalloc memory m size
mrealloc memory m (some a) size =
    let checked = check_fault m in
    if size == 0
    then (none, mfree m (some a))
    else if checked.0
    then (none, checked.1)
    else if ltb (2 ^ 64 - 1 - size_of_alloc_hdr) size
    then (none, checked.1)
    else resize_block memory checked.1 a size (live_block checked.1 a)

unfoldable pub get_mem_stats : Allocator → MallocStats
get_mem_stats m = m.global_mem_stats

unfoldable pub set_mem_fault_countdown : Allocator → ℤ → Allocator
set_mem_fault_countdown m countdown =
    if m.faults then record m { fault_countdown = countdown } else m

unfoldable pub clear_mem_fault : Allocator → Allocator
clear_mem_fault m = if m.faults then record m { fault_countdown = negsuc 0 } else m
