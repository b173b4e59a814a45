-- ===== src/Storage/Tests.antt =====
-- Runs of storage.c, and the theorems on it at concrete files, pages and managers.
use mustdb.Prelude.{
  ◌<◌, ◌≢◌, length-replicate, sym, ℕ, ◌+◌, ◌*◌, ◌%◌, ◌≤◌, ◌≡◌, refl, arith, inr, some, List, [],
  ◌∷◌, replicate,
}
use mustdb.Slice.{ok}
use mustdb.Storage.Buffer.Pages.{IsPage, file_buffer_create_aligned, file_buffer_read-write}
use mustdb.Storage.Buffer.{
  FileBuffer, buffer_of, total_size, file_buffer_create, file_buffer_read, file_buffer_write,
  file_buffer_clear,
}
use mustdb.Storage.File.{File, fread, fwrite, fread-fwrite_apart}
use mustdb.Storage.Manager.Ids.{hit, IsAllocated, Creates, create_block-IsAllocated}
use mustdb.Storage.Manager.Blocks.{IsBlock, manager_read-write}
use mustdb.Storage.Manager.{Block, Manager, blank_page, create_block, manager_read, manager_write}
use mustdb.Storage.Meta.Loops.{write_data_stuck, read_data_ends}
use mustdb.Storage.Meta.{Writer, Reader, write_data, read_data}
use mustdb.Storage.Header.Checkpoint.{IsOpen, checkpoint_header, open_database-write_header}
use mustdb.Storage.Header.Creation.{
  create_database-IsRecorded, create_database-IsPage, open_database-create_database,
}
use mustdb.Storage.Header.Pages.{page_at, IsWords}
use mustdb.Storage.Header.Slots.{
  IsRecorded, slot, active_location, store_header-IsRecorded, open_database-IsRecorded,
}
use mustdb.Storage.Header.{
  DatabaseHeader, empty_header, store_header, write_header, zero_manager, create_database,
  open_database, initialize_manager,
}
use mustdb.Storage.{done, running, ◌>>=◌, header_size, invalid_block}

abbrev small_file : File
small_file = record { len = 100; byte = λ p. p % 256 }

-- a page of 24 bytes, 16 of them the user's
abbrev page : FileBuffer
page = record { size = 16; address = 0; internal_size = 24; internal_buf = replicate 24 7 }

page-IsPage : IsPage page
page-IsPage = record { whole = refl; front = refl }

fread-fwrite_apart_example :
    fread (fwrite small_file (1 ∷ 2 ∷ []) 40) (0 ∷ 0 ∷ []) 42 ≡ fread small_file (0 ∷ 0 ∷ []) 42
fread-fwrite_apart_example =
    fread-fwrite_apart small_file (1 ∷ 2 ∷ []) 40 (0 ∷ 0 ∷ []) 42 (omega arith) (inr (omega arith))

file_buffer_create_aligned_example :
    (b : FileBuffer) × (file_buffer_create (some 5000) 8192 ≡ some b)
    × IsPage b
    × (b.internal_size ≡ 8192)
    × (b.address % 4096 ≡ 0)
    × (5032 ≤ b.address)
    × (b.address + 8192 ≤ 5000 + total_size 8192)
file_buffer_create_aligned_example =
    file_buffer_create_aligned 5000 8192 (omega arith) (omega arith) (omega arith)

file_buffer_read-write_example :
    let r = file_buffer_read page (file_buffer_write page small_file 40).1 40 in
    (r.0 ≡ ok) × IsPage r.1 × (buffer_of r.1 ≡ buffer_of page)
file_buffer_read-write_example =
    file_buffer_read-write page page small_file 40 page-IsPage page-IsPage refl (omega arith)

-- a manager with two free blocks, and three in use
abbrev manager : Manager
manager = record {
  active_header = 0;
  file = small_file;
  header_buffer = page;
  free_list = 3 ∷ 1 ∷ [];
  used_blocks = [];
  max_block = 5;
  meta_block = 0;
  iteration_count = 1;
}

abbrev in_use : List ℕ
in_use = 0 ∷ 2 ∷ 4 ∷ []

manager-IsAllocated : IsAllocated manager in_use
unfolding hit
manager-IsAllocated = record { once = λ id. ground arith; below = λ id out. ground arith }

create_block-IsAllocated_example :
    Creates manager in_use (create_block manager).0 (create_block manager).1
create_block-IsAllocated_example =
    create_block-IsAllocated manager in_use manager-IsAllocated (omega arith)

-- a writer at the start of a block of 16 user bytes, and a reader of such a block
abbrev writer : Writer
writer = record { block = record { id = 9; fb = page }; offset = 8 }

abbrev reader : Reader
reader = record { block = record { id = 9; fb = page }; offset = 8; next_block_id = 9 }

write_data_stuck_example : write_data 1000 writer manager (replicate 10 1) ≡ running
write_data_stuck_example =
    write_data_stuck 1000 writer manager (replicate 10 1) (omega arith) (omega arith) (omega arith)

read_data_ends_example :
    (out : List ℕ × Reader × Manager) × (read_data 21 reader manager 20 ≡ done out)
read_data_ends_example =
    read_data_ends 21 reader manager 20 (omega arith) (omega arith) (omega arith) (omega arith)

-- a checkpoint of a new database, and opening its file
abbrev next_header : DatabaseHeader
next_header = record {
  iteration = 2;
  meta_block = 0;
  free_list_id = invalid_block;
  block_count = 3;
}

next_header-IsWords : IsWords next_header
next_header-IsWords = record {
  iteration = omega arith;
  meta_block = omega arith;
  free_list_id = omega arith;
  block_count = omega arith;
}

new_header_buffer :
    IsPage create_database.header_buffer
    × (create_database.header_buffer.internal_size ≡ header_size)
unfolding create_database file_buffer_clear file_buffer_write
new_header_buffer = (create_database-IsPage, refl)

store_header-IsRecorded_example :
    let m = create_database in
    let m' = store_header next_header m in
    IsRecorded m'.file m'.active_header next_header
    × (slot m'.file (active_location m.active_header) ≡ empty_header 1)
store_header-IsRecorded_example =
    store_header-IsRecorded create_database (empty_header 1) next_header
      create_database-IsRecorded.0 new_header_buffer.0 new_header_buffer.1 next_header-IsWords
      (omega arith)

open_database-IsRecorded_example :
    (page' : FileBuffer) × IsPage page'
    × (page'.internal_size ≡ header_size)
    × (buffer_of page' ≡ page_at create_database.file header_size (header_size * 2))
    × (open_database 1 create_database.file ≡ (
        initialize_manager 1
          (record (zero_manager create_database.file) {
            header_buffer = page';
            active_header = create_database.active_header;
          })
          (empty_header 1)
        >>= λ m. done (some m)))
open_database-IsRecorded_example =
    open_database-IsRecorded 1 create_database.file create_database.active_header (empty_header 1)
      create_database-IsRecorded.0

open_database-create_database_example :
    (m : Manager) × (open_database 7 create_database.file ≡ done (some m))
    × (m.file ≡ create_database.file)
    × (m.active_header ≡ create_database.active_header)
    × (m.free_list ≡ create_database.free_list)
    × (m.used_blocks ≡ create_database.used_blocks)
    × (m.max_block ≡ create_database.max_block)
    × (m.meta_block ≡ create_database.meta_block)
    × (m.iteration_count ≡ create_database.iteration_count)
    × IsPage m.header_buffer
    × (buffer_of m.header_buffer ≡ buffer_of create_database.header_buffer)
open_database-create_database_example = open_database-create_database 7

-- a new database with two used blocks, and a checkpoint of it
abbrev used_database : Manager
used_database = record create_database { free_list = []; used_blocks = 0 ∷ 1 ∷ []; max_block = 2 }

used_database-IsOpen : IsOpen used_database
used_database-IsOpen = record {
  last = empty_header 1;
  recorded = create_database-IsRecorded.0;
  count = sym create_database-IsRecorded.1;
  page = new_header_buffer.0;
  page_size = new_header_buffer.1;
}

checkpoint_header-IsWords : IsWords (checkpoint_header used_database 0)
checkpoint_header-IsWords = record {
  iteration = omega (arith, create_database-IsRecorded.1);
  meta_block = omega arith;
  free_list_id = omega arith;
  block_count = omega arith;
}

open_database-write_header_example :
    (m' n : Manager) × (write_header 1 used_database 0 ≡ done m')
    × (open_database 1 m'.file ≡ done (some n))
    × (n.active_header ≡ m'.active_header)
    × (n.free_list ≡ 0 ∷ 1 ∷ [])
    × (n.used_blocks ≡ 2 ∷ [])
    × (n.meta_block ≡ 0)
    × (n.iteration_count ≡ used_database.iteration_count + 1)
    × (n.max_block ≡ 2)
open_database-write_header_example =
    open_database-write_header 0 used_database 0 used_database-IsOpen checkpoint_header-IsWords
      (omega arith, (omega arith, tt)) (omega arith) (omega arith) (omega arith)

-- two blocks, in the file of a new database that is long enough for both
abbrev block_at : ℕ → Block
block_at id = record { id = id; fb = blank_page 8192 }

block_at-IsBlock : (id : ℕ) → id < 1000 → IsBlock (block_at id)
block_at-IsBlock id h = record {
  page = record { whole = length-replicate {A = ℕ} 8192 0; front = refl };
  size = refl;
  near = omega arith;
}

abbrev long_file : Manager
long_file = record manager { file = record { len = 100_000; byte = λ p. p % 256 } }

manager_read-write_example :
    let (m', c') = manager_read (manager_write long_file (block_at 3)).0 (block_at 3) in
    (buffer_of c'.fb ≡ buffer_of (blank_page 8192)) × IsBlock c' × (m'.used_blocks ≡ 3 ∷ [])
manager_read-write_example =
    manager_read-write long_file (block_at 3) (block_at 3) (block_at-IsBlock 3 (omega arith))
      (block_at-IsBlock 3 (omega arith)) refl

three_and_four : ◌≢◌ {A = ℕ} 3 4
three_and_four e = absurd (omega (arith, e))
