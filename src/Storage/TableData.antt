-- ===== src/Storage/TableData.antt =====
-- TableDataWriter of storage.c: the columns of a table on their way to blocks, and the pointers to
-- the blocks written. The contents of its slices, one element for each column, stand for them.
pub mod Rows
mod Tests
use mustdb.Prelude.{
  Bool, true, false, ℕ, ◌+◌, ◌==◌, List, [], ◌∷◌, ◌++◌, get_or, set, if◌then◌else◌, leb, u64,
}
use mustdb.Storage.Manager.{Block, Manager, blank_page, get_free_block_id, manager_write}
use mustdb.Storage.{block_size, invalid_block}

-- `min` and `max` are the bits of a double; 0 is 0.0.
pub record DataPointer : Type 0 where
  pub min_bits : ℕ
  pub max_bits : ℕ
  pub row_start : ℕ
  pub tuple_count : ℕ
  pub block_id : ℕ
  pub offset : ℕ

pub record TableDataWriter : Type 0 where
  pub blocks : List Block
  pub offsets : List ℕ
  pub tuple_counts : List ℕ
  pub row_numbers : List ℕ
  pub indexes : List ℕ
  pub data_pointers : List (List DataPointer)

abbrev pub table_data_writer_init : TableDataWriter
table_data_writer_init = record {
  blocks = [];
  offsets = [];
  tuple_counts = [];
  row_numbers = [];
  indexes = [];
  data_pointers = [];
}

-- what stands at a column that is not there; the code does not ask for one
abbrev pub no_block : Block
no_block = record { id = invalid_block; fb = blank_page block_size }

-- slice_push_back of a pointer to those of a column; where it gets no memory they stay as they were
unfoldable pub push_pointer :
    Bool → List (List DataPointer) → ℕ → DataPointer → List (List DataPointer)
push_pointer true pointers col pointer = set pointers col (get_or pointers col [] ++ pointer ∷ [])
push_pointer false pointers col pointer = pointers

-- The result of slice_push_back is not looked at.
unfoldable pub table_data_writer_flush_block :
    Bool → TableDataWriter → ℕ → Manager → TableDataWriter × Manager
unfolding push_pointer
table_data_writer_flush_block granted self col m =
    let tuples = get_or self.tuple_counts col 0 in
    let rows = get_or self.row_numbers col 0 in
    let (id, m1) = get_free_block_id m in
    let pointer : DataPointer = record {
      min_bits = 0;
      max_bits = 0;
      row_start = rows;
      tuple_count = tuples;
      block_id = id;
      offset = 0;
    } in
    let (m2, blk) = manager_write m1 (record (get_or self.blocks col no_block) { id = id }) in
    if tuples == 0 then (self, m) else (
      record self {
        blocks = set self.blocks col blk;
        data_pointers = push_pointer granted self.data_pointers col pointer;
        offsets = set self.offsets col 0;
        row_numbers = set self.row_numbers col (u64 (rows + tuples));
        tuple_counts = set self.tuple_counts col 0;
      },
      m2,
    )

unfoldable pub table_data_writer_flush_if_full :
    Bool → TableDataWriter → ℕ → ℕ → Manager → TableDataWriter × Manager
unfolding table_data_writer_flush_block
table_data_writer_flush_if_full granted self col write_size m =
    if leb block_size (u64 (get_or self.offsets col 0 + write_size))
    then table_data_writer_flush_block granted self col m
    else (self, m)
