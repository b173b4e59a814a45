-- ===== src/Storage/TableCatalog/Tests.antt =====
-- The round trip of a table of three columns.
use mustdb.Parser.RoundTrip.{IsTable, table_bytes}
use mustdb.Parser.{
  CreateTableInfo, integer, varchar, vector, unset, vector_dim, of_code,
  create_table_info_deserialize,
}
use mustdb.Prelude.{◌+◌, ◌≤◌, ◌<◌, ◌≡◌, refl, arith, true, [], ◌∷◌, replicate, length}
use mustdb.Storage.Buffer.{FileBuffer}
use mustdb.Storage.File.{max_offset}
use mustdb.Storage.Manager.{Manager, block_location, create_block, get_free_block_id}
use mustdb.Storage.Meta.{Writer, Reader, writer_init, writer_flush, reader_init}
use mustdb.Storage.TableCatalog.Reload.{write_table_catalog-deserialize}
use mustdb.Storage.TableCatalog.{write_table_catalog}
use mustdb.Storage.{done, block_size}

abbrev header_page : FileBuffer
header_page = record { size = 16; address = 0; internal_size = 24; internal_buf = replicate 24 7 }

abbrev manager : Manager
manager = record {
  active_header = 0;
  file = record { len = 100_000; byte = λ p. 0 };
  header_buffer = header_page;
  free_list = 3 ∷ 1 ∷ [];
  used_blocks = [];
  max_block = 5;
  meta_block = 0;
  iteration_count = 1;
}

-- a table `t` of the schema `s`
abbrev items : CreateTableInfo
items = record {
  schema_name = 115 ∷ [];
  table_name = 116 ∷ [];
  if_not_exists = true;
  columns =
      record { name = 105 ∷ 100 ∷ []; oid = 0; type = integer; options = unset }
      ∷ record { name = 110 ∷ []; oid = 1; type = varchar; options = unset }
      ∷ record { name = 118 ∷ []; oid = 2; type = vector; options = vector_dim 768 }
      ∷ [];
}

items-IsTable : IsTable items
unfolding of_code
items-IsTable = record {
  schema_name = omega arith;
  table_name = omega arith;
  few = omega arith;
  columns = (
    record { index = refl; name = omega arith; type = refl; byte = omega arith; options = tt },
    (
      record { index = refl; name = omega arith; type = refl; byte = omega arith; options = tt },
      (
        record {
          index = refl;
          name = omega arith;
          type = refl;
          byte = omega arith;
          options = omega arith;
        },
        tt,
      ),
    ),
  );
  fresh = refl;
}

items_fit : 16 + length (table_bytes items) ≤ block_size
unfolding table_bytes
items_fit = omega arith

block_near : block_location (writer_init manager).0.block.id < max_offset
unfolding writer_init create_block get_free_block_id block_location
block_near = omega arith

write_table_catalog-deserialize_example :
    let (w, m1) = writer_init manager in
    (w' : Writer) × (r' : Reader) × (write_table_catalog 1 items w m1 ≡ done (w', m1))
    × (let (r, m2) = reader_init (writer_flush w' m1).1 w.block.id in
        create_table_info_deserialize 1 r m2 ≡ done (items, r', m2))
write_table_catalog-deserialize_example =
    write_table_catalog-deserialize 0 manager items items-IsTable items_fit block_near
