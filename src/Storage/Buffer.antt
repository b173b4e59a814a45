-- ===== src/Storage/Buffer.antt =====
-- FileBuffer of storage.c: a page with its checksum in front. `internal_buf` is the bytes that go
-- to disk, `address` where they start in memory, and `buffer` the user's part of them.
pub mod Pages
use mustdb.Hash.{checksum}
use mustdb.Prelude.Bytes.{to_bytes, from_bytes}
use mustdb.Prelude.{
  ℕ, ◌+◌, ◌-◌, ◌*◌, ◌%◌, ◌^◌, Bool, true, false, Option, none, some, List, ◌++◌, take, drop,
  replicate, length, blit, ltb, ◌==◌, if◌then◌else◌, u64,
}
use mustdb.Slice.{Rc, ok, failed}
use mustdb.Storage.File.{File, file_read_at, file_write_at}
use mustdb.Storage.{block_size, file_buffer_block_size, file_buffer_header_size}

pub record FileBuffer : Type 0 where
  pub size : ℕ
  pub address : ℕ
  pub internal_size : ℕ
  pub internal_buf : List ℕ

abbrev pub buffer_of : FileBuffer → List ℕ
buffer_of fb = drop file_buffer_header_size fb.internal_buf

-- sizeof(FileBuffer): two sizes and two pointers
abbrev pub file_buffer_struct_size : ℕ
file_buffer_struct_size = 32

abbrev pub total_size : ℕ → ℕ
total_size bufsiz = u64 (file_buffer_struct_size + bufsiz + (file_buffer_block_size - 1))

-- how far the next multiple of the disk block size is
unfoldable pub align_offset : ℕ → ℕ
align_offset base_ptr =
    let rem = base_ptr % file_buffer_block_size in
    if rem == 0 then 0 else file_buffer_block_size - rem

-- The first argument is what malloc returns, `none` for NULL. The memory is cleared.
unfoldable pub file_buffer_create : Option ℕ → ℕ → Option FileBuffer
file_buffer_create none bufsiz = none
file_buffer_create (some fb) bufsiz =
    let base_ptr = u64 (fb + file_buffer_struct_size) in
    let offset = align_offset base_ptr in
    if ltb (total_size bufsiz) (u64 (offset + bufsiz))
    then none
    else some (record {
      size = u64 (bufsiz + 2 ^ 64 - file_buffer_header_size);
      address = u64 (base_ptr + offset);
      internal_size = bufsiz;
      internal_buf = replicate bufsiz 0;
    })

unfoldable pub file_buffer_read : FileBuffer → File → ℕ → Rc × FileBuffer
file_buffer_read fb f location =
    let bytes = (file_read_at f fb.internal_buf location).1 in
    let stored_checksum = from_bytes (take 8 bytes) in
    let computed_checksum = checksum (drop file_buffer_header_size bytes) fb.size in
    (
      if stored_checksum == computed_checksum then ok else failed,
      record fb { internal_buf = bytes },
    )

-- the bytes with the checksum stored in front
abbrev pub sealed : FileBuffer → List ℕ
sealed fb = blit 0 (to_bytes 8 (checksum (buffer_of fb) fb.size)) fb.internal_buf

unfoldable pub file_buffer_write : FileBuffer → File → ℕ → FileBuffer × File
file_buffer_write fb f location =
    (record fb { internal_buf = sealed fb }, (file_write_at f (sealed fb) location).1)

unfoldable pub file_buffer_clear : FileBuffer → FileBuffer
file_buffer_clear fb = record fb { internal_buf = replicate fb.internal_size 0 }
