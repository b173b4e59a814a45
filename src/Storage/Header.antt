-- ===== src/Storage/Header.antt =====
-- The database file of storage.c: the master header, the two database headers that checkpoints
-- write in turn, the list of free blocks, and how a file is created and opened.
pub mod Pages
pub mod Slots
pub mod Creation
pub mod FreeList
pub mod Listed
pub mod Keeps
pub mod Checkpoint
use mustdb.Prelude.Bytes.{to_bytes, from_bytes}
use mustdb.Prelude.{
  ℕ, zero, suc, ◌+◌, ◌-◌, ◌*◌, Option, none, some, List, [], ◌∷◌, ◌++◌, take, drop, length, ltb,
  ◌==◌, if◌then◌else◌, u64,
}
use mustdb.Storage.Buffer.{
  FileBuffer, buffer_of, file_buffer_read, file_buffer_write, file_buffer_clear,
}
use mustdb.Storage.File.{File}
use mustdb.Storage.Manager.{Manager, blank_page}
use mustdb.Storage.Meta.{
  store, Writer, writer_init, writer_flush, write_data, Reader, reader_init, read_data,
}
use mustdb.Storage.{Run, done, ◌>>=◌, header_size, invalid_block, magic_number, version_number}

pub record DatabaseHeader : Type 0 where
  pub iteration : ℕ
  pub meta_block : ℕ
  pub free_list_id : ℕ
  pub block_count : ℕ

-- the struct in memory, and what a struct at the start of a buffer holds
abbrev pub header_bytes : DatabaseHeader → List ℕ
header_bytes h =
    to_bytes 8 h.iteration
    ++ (to_bytes 8 h.meta_block ++ (to_bytes 8 h.free_list_id ++ to_bytes 8 h.block_count))

abbrev pub word_at : ℕ → List ℕ → ℕ
word_at i buffer = from_bytes (take 8 (drop i buffer))

abbrev pub header_of : List ℕ → DatabaseHeader
header_of buffer = record {
  iteration = word_at 0 buffer;
  meta_block = word_at 8 buffer;
  free_list_id = word_at 16 buffer;
  block_count = word_at 24 buffer;
}

-- SERIALIZER_WRITE_TYPE of each block id, in the loop of write_header
unfoldable pub write_ids : ℕ → List ℕ → Writer → Manager → Run (Writer × Manager)
write_ids fuel [] w m = done (w, m)
write_ids fuel (id ∷ ids) w m =
    write_data fuel w m (to_bytes 8 id) >>= λ r. write_ids fuel ids r.0 r.1

-- The free list on disk: its number of blocks and their ids. The result is the first block's id.
unfoldable pub write_free_list : ℕ → Manager → Run (ℕ × Manager)
unfolding write_ids
write_free_list fuel m =
    let (w, m1) = writer_init m in
    write_data fuel w m1 (to_bytes 8 (length m.used_blocks))
    >>= (λ r. write_ids fuel m.used_blocks r.0 r.1)
    >>= λ r. done (w.block.id, (writer_flush r.0 r.1).1)

-- The header goes to the slot that is not the active one.
abbrev pub slot_location : ℕ → ℕ
slot_location active = if active == 1 then header_size else header_size * 2

-- the last part of write_header, once the free list has its id
unfoldable pub store_header : DatabaseHeader → Manager → Manager
store_header header m =
    let page = store 0 (header_bytes header) (file_buffer_clear m.header_buffer) in
    let r = file_buffer_write page m.file (slot_location m.active_header) in
    record m {
      header_buffer = r.0;
      file = r.1;
      active_header = 1 - m.active_header;
      meta_block = header.meta_block;
      free_list = m.used_blocks;
      used_blocks = [];
    }

-- The argument is the meta_block of the caller's header; its other fields are overwritten.
unfoldable pub write_header : ℕ → Manager → ℕ → Run Manager
unfolding write_free_list store_header
write_header fuel m meta_block =
    let m1 = record m { iteration_count = u64 (m.iteration_count + 1) } in
    let header : ℕ → DatabaseHeader = λ free_list_id. record {
      iteration = m1.iteration_count;
      meta_block = meta_block;
      free_list_id = free_list_id;
      block_count = m1.max_block;
    } in
    if ltb 0 (length m1.used_blocks)
    then (write_free_list fuel m1 >>= λ r. done (store_header (header r.0) r.1))
    else done (store_header (header invalid_block) m1)

unfoldable pub read_ids : ℕ → ℕ → Reader → Manager → Run Manager
read_ids fuel zero r m = done m
read_ids fuel (suc count) r m = read_data fuel r m 8 >>= λ s.
    read_ids fuel count s.1 (record (s.2) { free_list = s.2.free_list ++ from_bytes s.0 ∷ [] })

unfoldable pub read_free_list : ℕ → Manager → ℕ → Run Manager
unfolding read_ids
read_free_list fuel m id =
    let (r, m1) = reader_init m id in
    read_data fuel r m1 8 >>= λ s. read_ids fuel (from_bytes s.0) s.1 s.2

unfoldable pub initialize_manager : ℕ → Manager → DatabaseHeader → Run Manager
unfolding read_free_list
initialize_manager fuel m header =
    (if header.free_list_id == invalid_block
      then done m
      else read_free_list fuel m header.free_list_id)
    >>= λ m'. done (record m' {
      meta_block = header.meta_block;
      iteration_count = header.iteration;
      max_block = header.block_count;
    })

-- the manager as malloc and memset leave it, with the file that fopen returns
abbrev pub zero_manager : File → Manager
zero_manager f = record {
  active_header = 0;
  file = f;
  header_buffer = blank_page header_size;
  free_list = [];
  used_blocks = [];
  max_block = 0;
  meta_block = 0;
  iteration_count = 0;
}

abbrev pub empty_header : ℕ → DatabaseHeader
empty_header iteration = record {
  iteration = iteration;
  meta_block = invalid_block;
  free_list_id = invalid_block;
  block_count = 0;
}

-- create_new_database(path, true), where every allocation and fopen succeed. Each page is cleared
-- before it is filled, but for the second database header, where only the iteration changes.
unfoldable pub create_database : Manager
create_database =
    let m = zero_manager (record { len = 0; byte = λ _. 0 }) in
    let master =
      store 8 (to_bytes 8 version_number)
        (store 0 (to_bytes 8 magic_number) (file_buffer_clear m.header_buffer)) in
    let r0 = file_buffer_write master m.file 0 in
    let h1 = store 0 (header_bytes (empty_header 0)) (file_buffer_clear r0.0) in
    let r1 = file_buffer_write h1 r0.1 header_size in
    let r2 = file_buffer_write (store 0 (to_bytes 8 1) r1.0) r1.1 (header_size * 2) in
    record m {
      header_buffer = r2.0;
      file = r2.1;
      active_header = 1;
      max_block = 0;
      meta_block = invalid_block;
      iteration_count = 1;
    }

-- the choice between the two headers
unfoldable pub choose_header : ℕ → Manager → DatabaseHeader → DatabaseHeader → Run Manager
unfolding initialize_manager
choose_header fuel m h1 h2 =
    if ltb h2.iteration h1.iteration
    then initialize_manager fuel (record m { active_header = 0 }) h1
    else initialize_manager fuel (record m { active_header = 1 }) h2

-- create_new_database(path, false) on an existing file; `none` is NULL, for another version. The
-- results of the three reads, which tell whether the checksum agreed, are not looked at.
unfoldable pub open_database : ℕ → File → Run (Option Manager)
unfolding choose_header
open_database fuel f =
    let m = zero_manager f in
    let b0 = (file_buffer_read m.header_buffer f 0).1 in
    let b1 = (file_buffer_read b0 f header_size).1 in
    let b2 = (file_buffer_read b1 f (header_size * 2)).1 in
    if word_at 8 (buffer_of b0) == version_number
    then (choose_header fuel (record m { header_buffer = b2 }) (header_of (buffer_of b1))
          (header_of (buffer_of b2))
        >>= λ m'. done (some m'))
    else done none
