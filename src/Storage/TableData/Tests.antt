-- ===== src/Storage/TableData/Tests.antt =====
-- The flushing of a column with three rows in its buffer.
use mustdb.Prelude.{
  ℕ, ◌<◌, ◌≡◌, refl, arith, true, [], ◌∷◌, ◌++◌, get_or, replicate, length-replicate,
}
use mustdb.Storage.Buffer.{buffer_of}
use mustdb.Storage.Manager.Blocks.{IsBlock}
use mustdb.Storage.Manager.{Block, Manager, blank_page, get_free_block_id, manager_read}
use mustdb.Storage.TableData.Rows.{IsColumn, rows_of, flush_block-IsColumn, flush_block-read}
use mustdb.Storage.TableData.{DataPointer, TableDataWriter, no_block, table_data_writer_flush_block}

abbrev manager : Manager
manager = record {
  active_header = 0;
  file = record { len = 100_000; byte = λ p. 0 };
  header_buffer = record {
    size = 16;
    address = 0;
    internal_size = 24;
    internal_buf = replicate 24 7;
  };
  free_list = 3 ∷ 1 ∷ [];
  used_blocks = [];
  max_block = 5;
  meta_block = 0;
  iteration_count = 1;
}

-- 40 rows are in a block, and 3 in the buffer
abbrev writer : TableDataWriter
writer = record {
  blocks = record { id = 7; fb = blank_page 8192 } ∷ [];
  offsets = 24 ∷ [];
  tuple_counts = 3 ∷ [];
  row_numbers = 40 ∷ [];
  indexes = 0 ∷ [];
  data_pointers =
      (record {
        min_bits = 0;
        max_bits = 0;
        row_start = 0;
        tuple_count = 40;
        block_id = 2;
        offset = 0;
      }
        ∷ [])
      ∷ [];
}

writer-IsColumn : IsColumn writer 0
writer-IsColumn = record {
  block = omega arith;
  offset = omega arith;
  tuple_count = omega arith;
  row_number = omega arith;
  pointer = omega arith;
  covers = (refl, refl);
  narrow = omega arith;
}

flush_block-IsColumn_example :
    let self' = (table_data_writer_flush_block true writer 0 manager).0 in
    IsColumn self' 0 × (rows_of self' 0 ≡ rows_of writer 0) × (get_or self'.tuple_counts 0 0 ≡ 0)
flush_block-IsColumn_example = flush_block-IsColumn writer 0 manager writer-IsColumn

abbrev block_of : ℕ → Block
block_of id = record { id = id; fb = blank_page 8192 }

block_of-IsBlock : (id : ℕ) → id < 1000 → IsBlock (block_of id)
block_of-IsBlock id h = record {
  page = record { whole = length-replicate {A = ℕ} 8192 0; front = refl };
  size = refl;
  near = omega arith;
}

flush_block-read_example :
    let (self', m') = table_data_writer_flush_block true writer 0 manager in
    (p : DataPointer) × (get_or self'.data_pointers 0 []
      ≡ get_or writer.data_pointers 0 [] ++ p ∷ [])
    × (p.row_start ≡ get_or writer.row_numbers 0 0)
    × (p.tuple_count ≡ get_or writer.tuple_counts 0 0)
    × (p.block_id ≡ (block_of 1).id)
    × (buffer_of (manager_read m' (block_of 1)).1.fb
        ≡ buffer_of (get_or writer.blocks 0 no_block).fb)
unfolding get_free_block_id
flush_block-read_example =
    flush_block-read writer 0 manager (block_of 1) (omega arith) (omega arith)
      (block_of-IsBlock 1 (omega arith)) (block_of-IsBlock 1 (omega arith)) refl
