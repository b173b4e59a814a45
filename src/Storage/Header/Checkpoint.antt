-- ===== src/Storage/Header/Checkpoint.antt =====
-- A checkpoint (write_header) of an open database, and opening its file afterwards.
use mathlib.Core.Path.{subst}
use mustdb.Prelude.{
  ℕ, suc, ◌+◌, ◌-◌, ◌*◌, ◌≤◌, ◌<◌, ◌≡◌, ap, ap₂, ◌∙◌, arith, [], ◌∷◌, some, length, true, ltb,
  lt→ltb, u64,
}
use mustdb.Storage.Buffer.{file_buffer_write, file_buffer_clear}
use mustdb.Storage.Buffer.Pages.{IsPage}
use mustdb.Storage.File.{max_offset}
use mustdb.Storage.Header.Listed.{ListedAt, write_free_list-ListedAt}
use mustdb.Storage.Header.FreeList.{AllWords}
use mustdb.Storage.Header.Pages.{IsWords, store-IsPage, clear-IsPage}
use mustdb.Storage.Header.Slots.{IsRecorded, places, store_header-IsRecorded}
use mustdb.Storage.Header.Keeps.{
  next_id, create_block-shape, write_behind-IsRecorded, write_header-ListedAt,
  open_database-ListedAt,
}
use mustdb.Storage.Header.{
  DatabaseHeader, header_bytes, slot_location, store_header, write_header, write_free_list,
  open_database,
}
use mustdb.Storage.Manager.Blocks.{block_location_lem}
use mustdb.Storage.Manager.{Manager, block_location, create_block}
use mustdb.Storage.Meta.{store}
use mustdb.Storage.{Run, done, ◌>>=◌, header_size, block_size, block_start}

-- The state of an open database: its file records the header of the last checkpoint, and the header
-- page is there.
pub record IsOpen (m : Manager) : Type 0 where
  pub last : DatabaseHeader
  pub recorded : IsRecorded m.file m.active_header last
  pub count : last.iteration ≡ m.iteration_count
  pub page : IsPage m.header_buffer
  pub page_size : m.header_buffer.internal_size ≡ header_size

-- the header that a checkpoint writes
abbrev pub checkpoint_header : Manager → ℕ → DatabaseHeader
checkpoint_header m meta_block = record {
  iteration = m.iteration_count + 1;
  meta_block = meta_block;
  free_list_id = next_id m;
  block_count = m.max_block;
}

-- A checkpoint of an open database whose used blocks fit one block ends, and its file records the
-- new header and holds the used blocks as a list.
write_header-IsRecorded :
    (fuel : ℕ) (m : Manager) (meta_block : ℕ)
    → IsOpen m
    → IsWords (checkpoint_header m meta_block)
    → AllWords m.used_blocks
    → 0 < length m.used_blocks
    → 16 + 8 * length m.used_blocks ≤ block_size - 8
    → block_start + next_id m * block_size < max_offset
    → (m' : Manager) × (write_header (suc fuel) m meta_block ≡ done m')
      × IsRecorded m'.file m'.active_header (checkpoint_header m meta_block)
      × ListedAt m'.file (next_id m) m.used_blocks
unfolding write_header store_header file_buffer_clear
write_header-IsRecorded fuel m meta_block o narrow words used fits place =
    let ic : u64 (m.iteration_count + 1) ≡ m.iteration_count + 1 =
      omega (arith, narrow.iteration) in
    let m1 = record m { iteration_count = m.iteration_count + 1 } in
    let (e, free_list, max_block, shape) = create_block-shape m1 in
    let there = block_location_lem (next_id m) (omega (arith, place)) in
    let there' : block_location (create_block m1).0.id ≡ block_start + next_id m * block_size =
      ap block_location e ∙ there in
    let (fb, page, size, (wrote, listed)) =
      write_free_list-ListedAt fuel m1 words fits (omega (arith, there', place)) in
    let q = record m1 { free_list = free_list; max_block = max_block } in
    let f = (file_buffer_write fb m.file (block_location (next_id m))).1 in
    let m2 = record q { file = f } in
    let wrote' : write_free_list (suc fuel) m1 ≡ done (next_id m, m2) =
      wrote
      ∙ ap₂
          (λ (i : ℕ) (c : Manager).
            done (i, record c { file = (file_buffer_write fb c.file (block_location i)).1 }))
          e shape in
    let listed' : ListedAt f (next_id m) m.used_blocks =
      subst
        (λ (c : Manager).
          ListedAt (file_buffer_write fb c.file (block_location (next_id m))).1 (next_id m)
            m.used_blocks)
        shape
        (subst
          (λ (i : ℕ).
            ListedAt (file_buffer_write fb (create_block m1).1.file (block_location i)).1 i
              m.used_blocks)
          e listed) in
    let h = checkpoint_header m meta_block in
    let behind : block_start ≤ block_location (next_id m) = omega (arith, there) in
    let r2 =
      write_behind-IsRecorded fb m.file (block_location (next_id m)) m.active_header o.last page
        behind (omega (arith, there, place)) o.recorded in
    let (r3, _) =
      store_header-IsRecorded m2 o.last h r2 o.page o.page_size narrow (omega (arith, o.count)) in
    let header_page = store 0 (header_bytes h) (file_buffer_clear m.header_buffer) in
    let some_used : ltb 0 (length m.used_blocks) ≡ true = lt→ltb 0 (length m.used_blocks) used in
    (
      store_header h m2,
      rw (ic, some_used)
          (ap
            (λ (x : Run (ℕ × Manager)).
              x >>= λ r. done (store_header (record h { free_list_id = r.0 }) r.1))
            wrote'),
      r3,
      write_header-ListedAt header_page f (slot_location m.active_header) (next_id m) m.used_blocks
          (store-IsPage 0 (header_bytes h) _ (clear-IsPage m.header_buffer o.page))
          (omega (arith, (places m.active_header o.recorded.flag).high.0, o.page_size)) behind
          listed',
    )

-- A checkpoint of an open database whose used blocks are at least one and fit one block ends, and
-- opening the file afterwards continues from it: the used blocks are the free list, the block of
-- the list is in use, and the meta block, the iteration and the number of blocks are those of the
-- checkpoint (the next free block lies below 2^63 in the file, and the fields are machine words).
pub open_database-write_header :
    (fuel : ℕ) (m : Manager) (meta_block : ℕ)
    → IsOpen m
    → IsWords (checkpoint_header m meta_block)
    → AllWords m.used_blocks
    → 0 < length m.used_blocks
    → 16 + 8 * length m.used_blocks ≤ block_size - 8
    → block_start + next_id m * block_size < max_offset
    → (m' n : Manager) × (write_header (suc fuel) m meta_block ≡ done m')
      × (open_database (suc fuel) m'.file ≡ done (some n))
      × (n.active_header ≡ m'.active_header)
      × (n.free_list ≡ m.used_blocks)
      × (n.used_blocks ≡ next_id m ∷ [])
      × (n.meta_block ≡ meta_block)
      × (n.iteration_count ≡ m.iteration_count + 1)
      × (n.max_block ≡ m.max_block)
open_database-write_header fuel m meta_block o narrow words used fits place =
    let (m', wrote, r, listed) =
      write_header-IsRecorded fuel m meta_block o narrow words used fits place in
    let (n, opened, _, active, free, in_use, meta, count, blocks) =
      open_database-ListedAt fuel m'.file m'.active_header (checkpoint_header m meta_block)
        m.used_blocks r listed (omega (arith, place)) in
    (m', n, wrote, opened, active, free, in_use, meta, count, blocks)
