-- ===== src/Storage/Serial/Flush.antt =====
-- A block that a writer has flushed, read from its start.
use mustdb.Prelude.{
  ℕ, ◌+◌, ◌-◌, ◌≤◌, ◌<◌, ◌≡◌, refl, sym, ap, ◌∙◌, arith, true, List, length, length-append,
  length-drop, length-replicate, ltb, lt→ltb,
}
use mustdb.Storage.Buffer.{buffer_of, file_buffer_write}
use mustdb.Storage.Buffer.Pages.{IsPage}
use mustdb.Storage.File.{max_offset}
use mustdb.Storage.Header.Pages.{page_at, read-page_at, page_at-write, len-write}
use mustdb.Storage.Manager.{
  Manager, blank_page, block_create, block_location, manager_read, manager_write,
}
use mustdb.Storage.Meta.Stream.{Wrote, Reads}
use mustdb.Storage.Meta.{Writer, writer_flush, reader_init, read_new_block}
use mustdb.Storage.{block_size}

length-user : (w : Writer) (bytes : List ℕ) → Wrote w bytes → 8 + length bytes ≤ w.block.fb.size
length-user w bytes h =
    let page = h.holds.page in
    let all : length (buffer_of w.block.fb)
        ≡ length h.holds.link + (length bytes + length h.holds.spare) =
      ap length h.holds.user ∙ rw (length-append, length-append) refl in
    omega
      (arith, all, length-drop 8 w.block.fb.internal_buf, page.whole, page.front, h.holds.link_size)

-- A reader of the block stands before the bytes that were written.
pub flush-Reads :
    (w : Writer) (m : Manager) (bytes : List ℕ)
    → Wrote w bytes
    → 0 < length bytes
    → w.block.fb.size ≡ block_size - 8
    → block_location w.block.id < max_offset
    → Reads (reader_init (writer_flush w m).1 w.block.id).0 bytes
unfolding writer_flush manager_write reader_init read_new_block manager_read block_create
flush-Reads w m bytes h some size near =
    let fb = w.block.fb in
    let loc = block_location w.block.id in
    let page = h.holds.page in
    let whole : fb.internal_size ≡ block_size = omega (arith, page.front, size) in
    let f = (file_buffer_write fb m.file loc).1 in
    let (_, long) = len-write fb m.file loc page near in
    let b = blank_page block_size in
    let blank : IsPage b = record { whole = length-replicate {A = ℕ} block_size 0; front = refl } in
    let (_, _, s, e) = read-page_at b f loc blank near (omega (arith, long, whole)) in
    let filled : ltb 8 w.offset ≡ true = lt→ltb 8 w.offset (omega (arith, h.at, some)) in
    rw filled (record {
      before = h.holds.link;
      rest = h.holds.spare;
      user =
          e
          ∙ ap (λ (k : ℕ). page_at f k loc) (sym whole)
          ∙ page_at-write fb m.file loc page near
          ∙ h.holds.user;
      at = sym h.holds.link_size;
      fits = rw s (omega (arith, length-user w bytes h, size));
      narrow = rw s (omega arith);
    })
