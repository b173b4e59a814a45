-- ===== src/Storage/TableCatalog/Reload.antt =====
-- A table's description written to a block, flushed, and read by the parser.
use mathlib.Core.Path.{subst}
use mustdb.Parser.RoundTrip.{
  IsTable, table_bytes, table_bytes-lt, table_catalog-Writes, table_catalog-ReadsAs,
}
use mustdb.Parser.{CreateTableInfo, create_table_info_deserialize}
use mustdb.Prelude.{ℕ, suc, ◌+◌, ◌≤◌, ◌<◌, ◌≡◌, sym, arith, List, [], ◌++◌, append-nil, length}
use mustdb.Storage.File.{max_offset}
use mustdb.Storage.Manager.{Manager, block_location, create_block, block_create}
use mustdb.Storage.Meta.Stream.{Reads, writer_init-Wrote}
use mustdb.Storage.Meta.{Writer, Reader, writer_init, writer_flush, reader_init}
use mustdb.Storage.Serial.Flush.{flush-Reads}
use mustdb.Storage.Serial.Laws.{Writes, ReadsAs}
use mustdb.Storage.TableCatalog.{write_table_catalog}
use mustdb.Storage.{done, block_size}

-- The description of a table, written to a new metadata block that it fits, flushed, and read
-- back from that block, is the same description: names shorter than 2^64, columns numbered from 0
-- and fewer than 2^32, types of one byte, a 16-bit dimension for a vector and no options for any
-- other type (the block lies at an offset below 2^63).
pub write_table_catalog-deserialize :
    (fuel : ℕ) (m : Manager) (t : CreateTableInfo)
    → IsTable t
    → 16 + length (table_bytes t) ≤ block_size
    → block_location (writer_init m).0.block.id < max_offset
    → let (w, m1) = writer_init m in
      (w' : Writer) × (r' : Reader) × (write_table_catalog (suc fuel) t w m1 ≡ done (w', m1))
      × (let (r, m2) = reader_init (writer_flush w' m1).1 w.block.id in
          create_table_info_deserialize (suc fuel) r m2 ≡ done (t, r', m2))
unfolding Writes ReadsAs writer_init create_block block_create
write_table_catalog-deserialize fuel m t table fits near =
    let w = (writer_init m).0 in
    let m1 = (writer_init m).1 in
    let (w1, e1, h1, i1, s1) =
      table_catalog-Writes fuel t w m1 [] (writer_init-Wrote m) (omega (arith, fits)) in
    let reads =
      flush-Reads w1 m1 (table_bytes t) h1 (table_bytes-lt t) s1
        (subst (λ (i : ℕ). block_location i < max_offset) (sym i1) near) in
    let reads' : Reads (reader_init (writer_flush w1 m1).1 w.block.id).0 (table_bytes t ++ []) =
      subst (λ (i : ℕ). Reads (reader_init (writer_flush w1 m1).1 i).0 (table_bytes t ++ [])) i1
        (subst (λ (bs : List ℕ). Reads (reader_init (writer_flush w1 m1).1 w1.block.id).0 bs)
          (sym (append-nil (table_bytes t))) reads) in
    let r0 = reader_init (writer_flush w1 m1).1 w.block.id in
    let (r', e2, _) = table_catalog-ReadsAs fuel t table r0.0 r0.1 [] reads' in (w1, r', e1, e2)
