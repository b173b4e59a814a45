-- ===== src/Storage/Manager/Blocks.antt =====
-- Blocks in the file: where they lie, and what is read of a block after a block has been written.
use mustdb.Prelude.{ℕ, ◌+◌, ◌*◌, ◌^◌, ◌≤◌, ◌<◌, ◌≡◌, ◌≢◌, ◌⊎◌, refl, sym, ap, arith, [], ◌∷◌, ◌++◌}
use mustdb.Slice.{Rc}
use mustdb.Storage.Buffer.{FileBuffer, buffer_of, file_buffer_read}
use mustdb.Storage.Buffer.Pages.{IsPage, file_buffer_read-write, file_buffer_read-write_apart}
use mustdb.Storage.File.{max_offset}
use mustdb.Storage.Manager.{Block, Manager, block_location, manager_read, manager_write}
use mustdb.Storage.{block_size, block_start}

-- The place of a block in the file, where it does not wrap.
pub block_location_lem :
    (id : ℕ)
    → block_start + id * block_size < 2 ^ 64
    → block_location id ≡ block_start + id * block_size
unfolding block_location
block_location_lem id h = omega arith

-- A block with a whole page, at an offset that fseek takes.
pub record IsBlock (b : Block) : Type 0 where
  pub page : IsPage b.fb
  pub size : b.fb.internal_size ≡ block_size
  pub near : block_start + b.id * block_size < max_offset

location-of : (b : Block) → IsBlock b → block_location b.id ≡ block_start + b.id * block_size
location-of b h = block_location_lem b.id (omega (arith, h.near))

-- A block that the manager writes, at an offset below 2^63, is read back into any block of the
-- same id: the user bytes are those that were written, the block stays a whole one, and its id is
-- recorded as used.
pub manager_read-write :
    (m : Manager) (b c : Block)
    → IsBlock b
    → IsBlock c
    → b.id ≡ c.id
    → let (m', c') = manager_read (manager_write m b).0 c in
      (buffer_of c'.fb ≡ buffer_of b.fb)
      × IsBlock c'
      × (m'.used_blocks ≡ m.used_blocks ++ c.id ∷ [])
unfolding manager_read manager_write file_buffer_read
manager_read-write m b c hb hc same =
    let place : block_location c.id ≡ block_location b.id = ap block_location (sym same) in
    let (_, page, user) =
      file_buffer_read-write b.fb c.fb m.file (block_location b.id) hb.page hc.page
        (omega (arith, hb.page.front, hb.size, hc.page.front, hc.size))
        (omega (arith, location-of b hb, hb.near)) in
    rw place (user, record { page = page; size = hc.size; near = hc.near }, refl)

-- Writing a block changes nothing of what the manager reads of a block with another id that lies
-- inside the file, for offsets below 2^63.
pub manager_read-write_apart :
    (m : Manager) (b c : Block)
    → IsBlock b
    → IsBlock c
    → b.id ≢ c.id
    → block_start + (c.id + 1) * block_size ≤ m.file.len
    → (manager_read (manager_write m b).0 c).1 ≡ (manager_read m c).1
unfolding manager_read manager_write
manager_read-write_apart m b c hb hc other inside =
    let at_b = location-of b hb in
    let at_c = location-of c hc in
    let apart : (block_location c.id + block_size ≤ block_location b.id)
        ⊎ (block_location b.id + block_size ≤ block_location c.id) =
      grind (arith, at_b, at_c, other) in
    ap (λ (r : Rc × FileBuffer). record c { fb = r.1 })
      (file_buffer_read-write_apart b.fb c.fb m.file (block_location b.id) (block_location c.id)
        (omega (arith, at_b, hb.near)) (omega (arith, at_c, hc.page.whole, hc.size, inside))
        (omega (arith, apart, hb.page.whole, hb.size, hc.page.whole, hc.size)))
