-- ===== src/Storage/TableData/Rows.antt =====
-- The data pointers of a column and the rows that they cover.
use mustdb.Prelude.{
  ℕ, ◌+◌, ◌^◌, ◌<◌, ◌≡◌, ◌≢◌, ◌⊎◌, inl, inr, refl, sym, ap, ◌∙◌, arith, Bool, true, false, List, [],
  ◌∷◌, ◌++◌, get_or, length, length-set, get_or-set_self, get_or-set_ne, ◌==◌, Bool-cases, leb, u64,
}
use mustdb.Storage.Buffer.{buffer_of}
use mustdb.Storage.Manager.Blocks.{IsBlock, manager_read-write}
use mustdb.Storage.Manager.{Block, Manager, get_free_block_id, manager_read}
use mustdb.Storage.TableData.{
  DataPointer, TableDataWriter, no_block, push_pointer, table_data_writer_flush_block,
  table_data_writer_flush_if_full,
}
use mustdb.Storage.{block_size}

-- The pointers cover the rows from `first` on to `end`, without a gap.
abbrev pub Covers : ℕ → List DataPointer → ℕ → Type 0
Covers first [] end = first ≡ end
Covers first (p ∷ ps) end = (p.row_start ≡ first) × Covers (first + p.tuple_count) ps end

Covers-append :
    (first end : ℕ) (ps : List DataPointer) (p : DataPointer)
    → Covers first ps end
    → p.row_start ≡ end
    → Covers first (ps ++ p ∷ []) (end + p.tuple_count)
Covers-append first end [] p h e = (e ∙ sym h, ap (λ (n : ℕ). n + p.tuple_count) h)
Covers-append first end (q ∷ ps) p h e = (h.0, Covers-append (first + q.tuple_count) end ps p h.1 e)

-- The column is there, its rows in blocks are covered, and with those in its buffer they are counted
-- by a machine word.
pub record IsColumn (self : TableDataWriter) (col : ℕ) : Type 0 where
  pub block : col < length self.blocks
  pub offset : col < length self.offsets
  pub tuple_count : col < length self.tuple_counts
  pub row_number : col < length self.row_numbers
  pub pointer : col < length self.data_pointers
  pub covers : Covers 0 (get_or self.data_pointers col []) (get_or self.row_numbers col 0)
  pub narrow : get_or self.row_numbers col 0 + get_or self.tuple_counts col 0 < 2 ^ 64

-- the rows of a column that have been written to it
abbrev pub rows_of : TableDataWriter → ℕ → ℕ
rows_of self col = get_or self.row_numbers col 0 + get_or self.tuple_counts col 0

-- Flushing a column, where the data pointer gets its memory and the rows of the column are fewer
-- than 2^64, loses no row: the pointers still cover the rows of the column without a gap, the
-- rows in blocks and in the buffer are as many as before, and none is left in the buffer.
pub flush_block-IsColumn :
    (self : TableDataWriter) (col : ℕ) (m : Manager)
    → IsColumn self col
    → let self' = (table_data_writer_flush_block true self col m).0 in
      IsColumn self' col
      × (rows_of self' col ≡ rows_of self col)
      × (get_or self'.tuple_counts col 0 ≡ 0)
unfolding table_data_writer_flush_block push_pointer
flush_block-IsColumn self col m h = elim (Bool-cases (get_or self.tuple_counts col 0 == 0)) [
  | inl none_left ↦ rw none_left (h, refl, ground arith)
  | inr some_left ↦
      let rows = get_or self.row_numbers col 0 in
      let tuples = get_or self.tuple_counts col 0 in
      let old = get_or self.data_pointers col [] in
      let p : DataPointer = record {
        min_bits = 0;
        max_bits = 0;
        row_start = rows;
        tuple_count = tuples;
        block_id = (get_free_block_id m).0;
        offset = 0;
      } in
      let wrap : u64 (rows + tuples) ≡ rows + tuples = omega (arith, h.narrow) in
      let now_rows = get_or-set_self self.row_numbers col (rows + tuples) 0 h.row_number in
      let now_tuples = get_or-set_self self.tuple_counts col 0 0 h.tuple_count in
      let now_pointers = get_or-set_self self.data_pointers col (old ++ p ∷ []) [] h.pointer in
      rw (some_left, wrap, now_rows, now_tuples)
        (
          record {
            block = rw length-set h.block;
            offset = rw length-set h.offset;
            tuple_count = rw length-set h.tuple_count;
            row_number = rw length-set h.row_number;
            pointer = rw length-set h.pointer;
            covers = rw (now_rows, now_pointers) (Covers-append 0 rows old p h.covers refl);
            narrow = rw (now_rows, now_tuples) (omega (arith, h.narrow));
          },
          omega arith,
          refl,
        )
]

length-push_pointer :
    (granted : Bool) (pointers : List (List DataPointer)) (col : ℕ) (p : DataPointer)
    → length (push_pointer granted pointers col p) ≡ length pointers
unfolding push_pointer
length-push_pointer true pointers col p = rw length-set refl
length-push_pointer false pointers col p = refl

push_pointer_other :
    (granted : Bool) (pointers : List (List DataPointer)) (col j : ℕ) (p : DataPointer)
    → col ≢ j
    → get_or (push_pointer granted pointers col p) j [] ≡ get_or pointers j []
unfolding push_pointer
push_pointer_other true pointers col j p ne =
    get_or-set_ne pointers col j (get_or pointers col [] ++ p ∷ []) [] ne
push_pointer_other false pointers col j p ne = refl

-- Flushing one column leaves every other one as it was.
pub flush_block_other :
    (granted : Bool) (self : TableDataWriter) (col j : ℕ) (m : Manager)
    → col ≢ j
    → IsColumn self j
    → let self' = (table_data_writer_flush_block granted self col m).0 in
      IsColumn self' j
      × (rows_of self' j ≡ rows_of self j)
      × (get_or self'.data_pointers j [] ≡ get_or self.data_pointers j [])
      × (get_or self'.offsets j 0 ≡ get_or self.offsets j 0)
      × (get_or self'.blocks j no_block ≡ get_or self.blocks j no_block)
unfolding table_data_writer_flush_block
flush_block_other granted self col j m ne h =
    elim (Bool-cases (get_or self.tuple_counts col 0 == 0)) [
      | inl none_left ↦ rw none_left (h, refl, refl, refl, refl)
      | inr some_left ↦
          let rows = get_or self.row_numbers col 0 in
          let tuples = get_or self.tuple_counts col 0 in
          let p : DataPointer = record {
            min_bits = 0;
            max_bits = 0;
            row_start = rows;
            tuple_count = tuples;
            block_id = (get_free_block_id m).0;
            offset = 0;
          } in
          let same_rows = get_or-set_ne self.row_numbers col j (u64 (rows + tuples)) 0 ne in
          let same_tuples = get_or-set_ne self.tuple_counts col j 0 0 ne in
          let same_pointers = push_pointer_other granted self.data_pointers col j p ne in
          rw (some_left, same_rows, same_tuples, same_pointers)
            (
              record {
                block = rw length-set h.block;
                offset = rw length-set h.offset;
                tuple_count = rw length-set h.tuple_count;
                row_number = rw length-set h.row_number;
                pointer = rw (length-push_pointer granted self.data_pointers col p) h.pointer;
                covers = rw (same_rows, same_pointers) h.covers;
                narrow = rw (same_rows, same_tuples) h.narrow;
              },
              refl,
              refl,
              get_or-set_ne self.offsets col j 0 0 ne,
              get_or-set_ne self.blocks col j _ no_block ne,
            )
    ]

-- A flush of a column with rows, where the data pointer gets its memory, appends a pointer with
-- the first row and the number of rows that were in the buffer, and the block that this pointer
-- names holds the buffer: reading it gives back the user bytes of the column. The block written
-- and the one read into are whole pages of the size of a block, at an offset below 2^63.
pub flush_block-read :
    (self : TableDataWriter) (col : ℕ) (m : Manager) (c : Block)
    → col < length self.data_pointers
    → 0 < get_or self.tuple_counts col 0
    → IsBlock (record (get_or self.blocks col no_block) { id = (get_free_block_id m).0 })
    → IsBlock c
    → c.id ≡ (get_free_block_id m).0
    → let (self', m') = table_data_writer_flush_block true self col m in
      (p : DataPointer) × (get_or self'.data_pointers col []
        ≡ get_or self.data_pointers col [] ++ p ∷ [])
      × (p.row_start ≡ get_or self.row_numbers col 0)
      × (p.tuple_count ≡ get_or self.tuple_counts col 0)
      × (p.block_id ≡ c.id)
      × (buffer_of (manager_read m' c).1.fb ≡ buffer_of (get_or self.blocks col no_block).fb)
unfolding table_data_writer_flush_block push_pointer
flush_block-read self col m c there some hb hc e =
    let left : (get_or self.tuple_counts col 0 == 0) ≡ false = ground (arith, some) in
    let p : DataPointer = record {
      min_bits = 0;
      max_bits = 0;
      row_start = get_or self.row_numbers col 0;
      tuple_count = get_or self.tuple_counts col 0;
      block_id = (get_free_block_id m).0;
      offset = 0;
    } in
    rw left (
      p,
      get_or-set_self self.data_pointers col (get_or self.data_pointers col [] ++ p ∷ []) [] there,
      refl,
      refl,
      sym e,
      (manager_read-write (get_free_block_id m).1
          (record (get_or self.blocks col no_block) { id = (get_free_block_id m).0 }) c hb hc
          (sym e)).0,
    )

flush_block-offset :
    (self : TableDataWriter) (col : ℕ) (m : Manager)
    → IsColumn self col
    → (0 < get_or self.tuple_counts col 0) ⊎ (get_or self.offsets col 0 ≡ 0)
    → get_or (table_data_writer_flush_block true self col m).0.offsets col 0 ≡ 0
unfolding table_data_writer_flush_block
flush_block-offset self col m h start = elim (Bool-cases (get_or self.tuple_counts col 0 == 0)) [
  | inl none_left ↦ rw none_left (ground (arith, start, none_left))
  | inr some_left ↦ rw some_left (get_or-set_self self.offsets col 0 0 h.offset)
]

-- After the check for a full block the rows are as many as before, and the data fits below the size of a block, or the block is empty.
pub flush_if_full-IsColumn :
    (self : TableDataWriter) (col write_size : ℕ) (m : Manager)
    → IsColumn self col
    → (0 < get_or self.tuple_counts col 0) ⊎ (get_or self.offsets col 0 ≡ 0)
    → get_or self.offsets col 0 + write_size < 2 ^ 64
    → let self' = (table_data_writer_flush_if_full true self col write_size m).0 in
      IsColumn self' col
      × (rows_of self' col ≡ rows_of self col)
      × ((get_or self'.offsets col 0 ≡ 0) ⊎ (get_or self'.offsets col 0 + write_size < block_size))
unfolding table_data_writer_flush_if_full
flush_if_full-IsColumn self col n m h start narrow =
    let wrap : u64 (get_or self.offsets col 0 + n) ≡ get_or self.offsets col 0 + n = omega arith in
    elim (Bool-cases (leb block_size (get_or self.offsets col 0 + n))) [
      | inl full ↦
          let (kept, rows, _) = flush_block-IsColumn self col m h in
          rw (wrap, full) (kept, rows, inl (flush_block-offset self col m h start))
      | inr roomy ↦ rw (wrap, roomy) (h, refl, inr (ground arith))
    ]
