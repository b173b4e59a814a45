-- ===== src/Storage/Manager.antt =====
-- SingleFileExtentManager of storage.c: blocks in one file behind three header pages. The contents
-- of its two slices stand for them (Slice.Refine), and memory for a new block is taken to be there.
pub mod Ids
pub mod Blocks
use mustdb.Prelude.{
  ℕ, zero, suc, ◌+◌, ◌*◌, ◌-◌, List, [], ◌∷◌, ◌++◌, replicate, length, u64, ltb, if◌then◌else◌,
}
use mustdb.Storage.Buffer.{FileBuffer, file_buffer_read, file_buffer_write}
use mustdb.Storage.File.{File}
use mustdb.Storage.{block_size, block_start, file_buffer_header_size}

pub record Block : Type 0 where
  pub id : ℕ
  pub fb : FileBuffer

pub record Manager : Type 0 where
  pub active_header : ℕ
  pub file : File
  pub header_buffer : FileBuffer
  pub free_list : List ℕ
  pub used_blocks : List ℕ
  pub max_block : ℕ
  pub meta_block : ℕ
  pub iteration_count : ℕ

-- what FileBuffer_create makes; the address does not matter here
abbrev pub blank_page : ℕ → FileBuffer
blank_page bufsiz = record {
  size = bufsiz - file_buffer_header_size;
  address = 0;
  internal_size = bufsiz;
  internal_buf = replicate bufsiz 0;
}

unfoldable pub block_create : ℕ → Block
block_create id = record { id = id; fb = blank_page block_size }

-- BLOCK_START + block->id * BLOCK_SIZE, in u64 arithmetic
unfoldable pub block_location : ℕ → ℕ
block_location id = u64 (block_start + u64 (id * block_size))

-- Memory for the growth of the slice of used blocks is taken to be there: the result of
-- slice_push_back is not looked at, and a refused one leaves the id out.
-- The assertion `block->id >= 0` holds of every unsigned id, and the callers of the checksum test
-- do not look at its result.
unfoldable pub manager_read : Manager → Block → Manager × Block
manager_read m block = (
  record m { used_blocks = m.used_blocks ++ block.id ∷ [] },
  record block { fb = (file_buffer_read block.fb m.file (block_location block.id)).1 },
)

unfoldable pub manager_write : Manager → Block → Manager × Block
manager_write m block =
    let r = file_buffer_write block.fb m.file (block_location block.id) in
    (record m { file = r.1 }, record block { fb = r.0 })

-- slice_pop_back on the contents
abbrev pub last_or : ℕ → List ℕ → ℕ
last_or d [] = d
last_or d (x ∷ xs) = last_or x xs

abbrev pub but_last : List ℕ → List ℕ
but_last [] = []
but_last (x ∷ []) = []
but_last (x ∷ y ∷ xs) = x ∷ but_last (y ∷ xs)

unfoldable pub get_free_block_id : Manager → ℕ × Manager
get_free_block_id m =
    if ltb 0 (length m.free_list)
    then (last_or 0 m.free_list, record m { free_list = but_last m.free_list })
    else (m.max_block, record m { max_block = u64 (m.max_block + 1) })

unfoldable pub create_block : Manager → Block × Manager
unfolding block_create get_free_block_id
create_block m = let r = get_free_block_id m in (block_create r.0, r.1)
