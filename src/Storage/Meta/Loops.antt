-- ===== src/Storage/Meta/Loops.antt =====
-- The loops of metaBlockWriter_write_data and metaBlockReader_read_data: when they end.
use native.Mathlib.Decide.{dec_lt}
use mustdb.Prelude.{
  ℕ, zero, suc, ◌+◌, ◌-◌, ◌^◌, ◌≤◌, ◌<◌, ◌≡◌, refl, ◌∙◌, ap, arith, List, take, drop, length,
  length-drop, ltb, lt→ltb, le→ltb, Bool-cases, inl, inr, u64,
}
use mustdb.Storage.Buffer.{buffer_of, file_buffer_read, file_buffer_write}
use mustdb.Storage.Manager.{Manager, manager_read, manager_write}
use mustdb.Storage.Meta.{
  Writer, next_block, write_loop, write_data, Reader, read_new_block, prepend, read_data,
}
use mustdb.Storage.{done, running}

size-next_block :
    (w : Writer) (m : Manager) (offset : ℕ) (part : List ℕ)
    → (next_block w m offset part).0.block.fb.size ≡ w.block.fb.size
unfolding next_block manager_write file_buffer_write
size-next_block w m offset part = elim (Bool-cases (ltb 8 (offset + length part))) [
  | inl p ↦ rw p
  | inr p ↦ rw p
]

stuck_loop :
    (fuel : ℕ) (w : Writer) (m : Manager) (offset : ℕ) (bytes : List ℕ)
    → offset ≤ w.block.fb.size
    → w.block.fb.size < offset + length bytes
    → offset + length bytes < 2 ^ 64
    → write_loop fuel w m offset bytes ≡ running
unfolding write_loop
stuck_loop zero w m offset bytes inside more narrow = refl
stuck_loop (suc fuel) w m offset bytes inside more narrow =
    let size = w.block.fb.size in
    let amount = size - offset in
    let next = next_block w m offset (take amount bytes) in
    let same = size-next_block w m offset (take amount bytes) in
    let wrap : u64 (offset + length bytes) ≡ offset + length bytes = omega arith in
    rw (wrap, lt→ltb size (offset + length bytes) more, le→ltb size offset inside)
      (stuck_loop fuel next.0 next.1 (offset + amount) (drop amount bytes) (rw same (omega arith))
        (rw (same, length-drop amount bytes) (omega arith))
        (rw (length-drop amount bytes) (omega arith)))

-- When the data does not fit the rest of the current block, the loop of
-- metaBlockWriter_write_data never ends, whatever the fuel; the offset lies inside the block, and
-- its sum with the length is a machine word.
pub write_data_stuck :
    (fuel : ℕ) (w : Writer) (m : Manager) (bytes : List ℕ)
    → w.offset ≤ w.block.fb.size
    → w.block.fb.size < w.offset + length bytes
    → w.offset + length bytes < 2 ^ 64
    → write_data fuel w m bytes ≡ running
unfolding write_data
write_data_stuck fuel w m bytes = stuck_loop fuel w m w.offset bytes

size-read_new_block :
    (r : Reader) (m : Manager) (id : ℕ)
    → ((read_new_block r m id).0.block.fb.size ≡ r.block.fb.size)
      × ((read_new_block r m id).0.offset ≡ 8)
unfolding read_new_block manager_read file_buffer_read
size-read_new_block r m id = (refl, refl)

-- one round that ends the loop, and one that goes on with the next block
pub read_data_here :
    (fuel : ℕ) (r : Reader) (m : Manager) (n : ℕ)
    → r.offset + n ≤ r.block.fb.size
    → r.block.fb.size < 2 ^ 64
    → read_data (suc fuel) r m n
      ≡ done (take n (drop r.offset (buffer_of r.block.fb)), record r { offset = r.offset + n }, m)
unfolding read_data
read_data_here fuel r m n fits narrow =
    let wrap : u64 (r.offset + n) ≡ r.offset + n = omega arith in
    rw (wrap, le→ltb r.block.fb.size (r.offset + n) fits)

read_data_next :
    (fuel : ℕ) (r : Reader) (m : Manager) (n : ℕ)
    → r.offset ≤ r.block.fb.size
    → r.block.fb.size < r.offset + n
    → r.offset + n < 2 ^ 64
    → let next = read_new_block r m r.next_block_id in
      read_data (suc fuel) r m n
      ≡ prepend
          (take (r.block.fb.size - r.offset) (drop r.offset (buffer_of r.block.fb)))
          (read_data fuel next.0 next.1 (n - (r.block.fb.size - r.offset)))
unfolding read_data
read_data_next fuel r m n inside more narrow =
    let size = r.block.fb.size in
    let to_read : u64 (size + 2 ^ 64 - r.offset) ≡ size - r.offset = omega arith in
    let wrap : u64 (r.offset + n) ≡ r.offset + n = omega arith in
    rw (wrap, to_read, lt→ltb size (r.offset + n) more)

-- From an offset inside its block of more than 8 user bytes, metaBlockReader_read_data ends
-- within n + 2 rounds for n bytes, whatever the chain of blocks holds, as long as the size of the
-- block and n add up to a machine word.
pub read_data_ends :
    (fuel : ℕ) (r : Reader) (m : Manager) (n : ℕ)
    → 8 < r.block.fb.size
    → r.offset ≤ r.block.fb.size
    → r.block.fb.size + n < 2 ^ 64
    → n + (suc r.offset - r.block.fb.size) < fuel
    → (out : List ℕ × Reader × Manager) × (read_data fuel r m n ≡ done out)
read_data_ends zero r m n big inside narrow enough = absurd (omega arith)
read_data_ends (suc fuel) r m n big inside narrow enough =
    let size = r.block.fb.size in
    let left = size - r.offset in
    let next = read_new_block r m r.next_block_id in
    let (same, start) = size-read_new_block r m r.next_block_id in
    elim (dec_lt size (r.offset + n)) [
      | no fits ↦ (_, read_data_here fuel r m n (omega arith) (omega arith))
      | yes more ↦
          let (out, e) =
            read_data_ends fuel next.0 next.1 (n - left) (rw same big)
              (rw (start, same) (omega arith)) (rw same (omega arith))
              (rw (start, same) (omega arith)) in
          (
            _,
            read_data_next fuel r m n inside more (omega arith)
                ∙ ap (prepend (take left (drop r.offset (buffer_of r.block.fb)))) e,
          )
    ]
