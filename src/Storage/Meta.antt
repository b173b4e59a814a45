-- ===== src/Storage/Meta.antt =====
-- MetaBlockWriter and MetaBlockReader of storage.c: a byte stream over a chain of blocks, each with
-- the id of the next one in its first 8 bytes.
pub mod Loops
pub mod Stream
use mustdb.Prelude.Bytes.{to_bytes, from_bytes}
use mustdb.Prelude.{
  ℕ, zero, suc, ◌+◌, ◌-◌, ◌^◌, List, [], ◌∷◌, ◌++◌, length, take, drop, blit, ltb, u64,
  if◌then◌else◌,
}
use mustdb.Storage.Buffer.{FileBuffer, buffer_of}
use mustdb.Storage.Manager.{
  Block, Manager, block_create, manager_read, manager_write, get_free_block_id, create_block,
}
use mustdb.Storage.{Run, done, aborted, running, file_buffer_header_size}

-- memcpy(fb->buffer + i, bytes, …)
abbrev pub store : ℕ → List ℕ → FileBuffer → FileBuffer
store i bytes fb = record fb {
  internal_buf = blit (file_buffer_header_size + i) bytes fb.internal_buf;
}

abbrev pub in_block : (FileBuffer → FileBuffer) → Block → Block
in_block f b = record b { fb = f b.fb }

pub record Writer : Type 0 where
  pub block : Block
  pub offset : ℕ

unfoldable pub writer_init : Manager → Writer × Manager
unfolding create_block
writer_init m = let r = create_block m in (record { block = r.0; offset = 8 }, r.1)

unfoldable pub writer_flush : Writer → Manager → Writer × Manager
writer_flush w m =
    if ltb 8 w.offset
    then (let r = manager_write m w.block in (record { block = r.1; offset = 8 }, r.0))
    else (w, m)

-- One round of the loop: fill the block, name the next one in it and write it out. `offset` is the
-- local variable, which the flush does not change.
unfoldable pub next_block : Writer → Manager → ℕ → List ℕ → Writer × Manager
unfolding get_free_block_id writer_flush
next_block w m offset part =
    let filled = in_block (store offset part) w.block in
    let r = get_free_block_id m in
    let named = in_block (store 0 (to_bytes 8 r.0)) filled in
    let s = writer_flush (record { block = named; offset = offset + length part }) r.1 in
    (record (s.0) { block = record (s.0.block) { id = r.0 } }, s.1)

unfoldable pub write_loop : ℕ → Writer → Manager → ℕ → List ℕ → Run (Writer × Manager)
unfolding next_block
write_loop zero w m offset bytes = running
write_loop (suc fuel) w m offset bytes =
    let size = w.block.fb.size in
    let amount = size - offset in
    let next = next_block w m offset (take amount bytes) in
    let rest = write_loop fuel next.0 next.1 (offset + amount) (drop amount bytes) in
    if ltb size (u64 (offset + length bytes))
    then (if ltb size offset then aborted else rest)
    else done (
      record {
        block = in_block (store offset bytes) w.block;
        offset = u64 (offset + length bytes);
      },
      m,
    )

unfoldable pub write_data : ℕ → Writer → Manager → List ℕ → Run (Writer × Manager)
unfolding write_loop
write_data fuel w m bytes = write_loop fuel w m w.offset bytes

pub record Reader : Type 0 where
  pub block : Block
  pub offset : ℕ
  pub next_block_id : ℕ

unfoldable pub read_new_block : Reader → Manager → ℕ → Reader × Manager
read_new_block r m id =
    let s = manager_read m (record (r.block) { id = id }) in
    (
      record { block = s.1; offset = 8; next_block_id = from_bytes (take 8 (buffer_of s.1.fb)) },
      s.0,
    )

unfoldable pub reader_init : Manager → ℕ → Reader × Manager
unfolding read_new_block block_create
reader_init m id =
    read_new_block (record { block = block_create id; offset = 0; next_block_id = 2 ^ 64 - 1 }) m id

-- The bytes of this block go in front of those of the later ones.
abbrev pub prepend : List ℕ → Run (List ℕ × Reader × Manager) → Run (List ℕ × Reader × Manager)
prepend part (done (later, r, m)) = done (part ++ later, r, m)
prepend part aborted = aborted
prepend part running = running

unfoldable pub read_data : ℕ → Reader → Manager → ℕ → Run (List ℕ × Reader × Manager)
read_data zero r m n = running
read_data (suc fuel) r m n =
    let size = r.block.fb.size in
    let to_read = u64 (size + 2 ^ 64 - r.offset) in
    let part = take to_read (drop r.offset (buffer_of r.block.fb)) in
    let next = read_new_block r m r.next_block_id in
    let rest = prepend part (read_data fuel next.0 next.1 (n - to_read)) in
    if ltb size (u64 (r.offset + n))
    then rest
    else done
        (take n (drop r.offset (buffer_of r.block.fb)), record r { offset = u64 (r.offset + n) }, m)
