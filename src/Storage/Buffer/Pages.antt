-- ===== src/Storage/Buffer/Pages.antt =====
-- What goes through a FileBuffer: alignment in memory, and pages written and read back.
use mustdb.Hash.{checksum}
use mustdb.Hash.Checksum.{checksum-lt}
use mustdb.Prelude.Bytes.{to_bytes, from_bytes, from_bytes-to_bytes}
use mustdb.Prelude.{
  ℕ, ◌+◌, ◌-◌, ◌%◌, ◌^◌, ◌≤◌, ◌<◌, ◌≡◌, ◌⊎◌, refl, sym, ap, ◌∙◌, arith, some, false, List, ◌++◌,
  length, length-replicate, replicate, length-blit, take, drop, blit_front, take-append_length,
  drop-append_length, ltb, lt→ltb, le→ltb, ==_iff, Bool-cases, inl, inr, u64,
}
use mustdb.Slice.{ok}
use mustdb.Storage.Buffer.{
  FileBuffer, buffer_of, sealed, total_size, file_buffer_struct_size, align_offset,
  file_buffer_create, file_buffer_read, file_buffer_write,
}
use mustdb.Storage.File.{
  File, max_offset, file_read_at, file_write_at, fread-fwrite, fread-fwrite_apart,
}
use mustdb.Storage.{file_buffer_block_size}

-- The page is the length of its sizes, and the 8 bytes of the checksum are no part of the user's.
pub record IsPage (fb : FileBuffer) : Type 0 where
  pub whole : length fb.internal_buf ≡ fb.internal_size
  pub front : fb.size + 8 ≡ fb.internal_size

align_offset_lem :
    (base : ℕ)
    → ((base + align_offset base) % file_buffer_block_size ≡ 0)
      × (align_offset base < file_buffer_block_size)
unfolding align_offset
align_offset_lem base = ground arith

-- From memory that malloc returned below 2^63, FileBuffer_create makes a page of the requested
-- size, 8 bytes or more, that starts at a multiple of 4096, behind the struct, and ends inside
-- the allocation.
pub file_buffer_create_aligned :
    (fb bufsiz : ℕ)
    → 8 ≤ bufsiz
    → fb + total_size bufsiz < 2 ^ 63
    → bufsiz < 2 ^ 63
    → (b : FileBuffer) × (file_buffer_create (some fb) bufsiz ≡ some b)
      × IsPage b
      × (b.internal_size ≡ bufsiz)
      × (b.address % file_buffer_block_size ≡ 0)
      × (fb + file_buffer_struct_size ≤ b.address)
      × (b.address + bufsiz ≤ fb + total_size bufsiz)
unfolding file_buffer_create
file_buffer_create_aligned fb bufsiz small fits narrow =
    let base = fb + file_buffer_struct_size in
    let offset = align_offset base in
    let (aligned, near) = align_offset_lem base in
    let base' : u64 base ≡ base = omega arith in
    let fine : ltb (total_size bufsiz) (u64 (offset + bufsiz)) ≡ false =
      le→ltb (total_size bufsiz) (u64 (offset + bufsiz)) (omega arith) in
    let start : u64 (base + offset) ≡ base + offset = omega arith in
    (
      record {
        size = u64 (bufsiz + 2 ^ 64 - 8);
        address = base + offset;
        internal_size = bufsiz;
        internal_buf = replicate bufsiz 0;
      },
      rw (base', fine, start),
      record { whole = length-replicate bufsiz 0; front = omega arith },
      refl,
      aligned,
      omega arith,
      omega arith,
    )

sealed_as_append :
    (fb : FileBuffer)
    → IsPage fb
    → sealed fb ≡ to_bytes 8 (checksum (buffer_of fb) fb.size) ++ buffer_of fb
sealed_as_append fb page =
    let sum = checksum (buffer_of fb) fb.size in
    blit_front (to_bytes 8 sum) fb.internal_buf (omega (arith, page.whole, page.front))

module _ (fb : FileBuffer) (page : IsPage fb) where
  pub buffer_of-sealed : drop 8 (sealed fb) ≡ buffer_of fb
  buffer_of-sealed =
      ap (drop 8) (sealed_as_append fb page)
      ∙ drop-append_length (to_bytes 8 (checksum (buffer_of fb) fb.size)) (buffer_of fb)

  stored-sealed : from_bytes (take 8 (sealed fb)) ≡ checksum (buffer_of fb) fb.size
  stored-sealed =
      let sum = checksum (buffer_of fb) fb.size in
      ap (λ (bs : List ℕ). from_bytes (take 8 bs)) (sealed_as_append fb page)
      ∙ ap from_bytes (take-append_length (to_bytes 8 sum) (buffer_of fb))
      ∙ from_bytes-to_bytes 8 sum (checksum-lt (buffer_of fb) fb.size)

-- A page written at an offset of the file below 2^63 is read back there into any page of its
-- size: the checksum agrees and the user bytes are those that were written.
pub file_buffer_read-write :
    (fb other : FileBuffer) (f : File) (location : ℕ)
    → IsPage fb
    → IsPage other
    → fb.size ≡ other.size
    → location < max_offset
    → let r = file_buffer_read other (file_buffer_write fb f location).1 location in
      (r.0 ≡ ok) × IsPage r.1 × (buffer_of r.1 ≡ buffer_of fb)
unfolding file_buffer_read file_buffer_write file_read_at file_write_at
file_buffer_read-write fb other f location page page' same near =
    let n : length other.internal_buf ≡ length (sealed fb) =
      rw length-blit (omega (arith, page.whole, page.front, page'.whole, page'.front)) in
    let back = fread-fwrite f (sealed fb) location other.internal_buf n in
    let agree : checksum (drop 8 (sealed fb)) other.size ≡ checksum (buffer_of fb) fb.size =
      rw (buffer_of-sealed fb page, same) in
    rw
      (
        lt→ltb location max_offset near,
        back,
        stored-sealed fb page,
        agree,
        (==_iff (checksum (buffer_of fb) fb.size) (checksum (buffer_of fb) fb.size)).1 refl,
      )
      (refl, record { whole = sym n ∙ page'.whole; front = page'.front }, buffer_of-sealed fb page)

-- A page written at an offset below 2^63 leaves what reading a page inside the file returns as it
-- was, where the two do not overlap.
pub file_buffer_read-write_apart :
    (fb other : FileBuffer) (f : File) (location p : ℕ)
    → location < max_offset
    → p + length other.internal_buf ≤ f.len
    → (p + length other.internal_buf ≤ location) ⊎ (location + length fb.internal_buf ≤ p)
    → file_buffer_read other (file_buffer_write fb f location).1 p ≡ file_buffer_read other f p
unfolding file_buffer_read file_buffer_write file_read_at file_write_at
file_buffer_read-write_apart fb other f location p near within apart =
    let same =
      fread-fwrite_apart f (sealed fb) location other.internal_buf p within
        (rw length-blit apart) in
    elim (Bool-cases (ltb p max_offset)) [
      | inl inside ↦ rw (lt→ltb location max_offset near, inside, same)
      | inr outside ↦ rw (lt→ltb location max_offset near, outside)
    ]
