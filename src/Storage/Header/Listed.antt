-- ===== src/Storage/Header/Listed.antt =====
-- A block of the file that holds a list of free blocks: write_header makes one, and
-- initialize_manager reads the list from it.
use mathlib.Core.Path.{subst}
use mustdb.Prelude.Bytes.{to_bytes, from_bytes, from_bytes-to_bytes}
use mustdb.Prelude.{
  ℕ, suc, ◌+◌, ◌-◌, ◌*◌, ◌≤◌, ◌<◌, ◌≡◌, refl, sym, ap, ◌∙◌, arith, List, [], ◌∷◌, ◌++◌, append-nil,
  length, length-append, length-replicate, true, ltb, lt→ltb,
}
use mustdb.Storage.Buffer.{FileBuffer, file_buffer_write}
use mustdb.Storage.Buffer.Pages.{IsPage}
use mustdb.Storage.File.{File, max_offset}
use mustdb.Storage.Header.FreeList.{
  id_bytes, AllWords, length-id_bytes, write_ids-Wrote, read_ids-Reads,
}
use mustdb.Storage.Header.Pages.{page_at, read-page_at, page_at-write, len-write}
use mustdb.Storage.Header.{write_ids, write_free_list, read_ids, read_free_list}
use mustdb.Storage.Manager.{
  Manager, blank_page, block_create, block_location, create_block, manager_read, manager_write,
}
use mustdb.Storage.Meta.Stream.{Reads, writer_init-Wrote, write_data-Wrote, read_data-Reads}
use mustdb.Storage.Meta.{Writer, Reader, writer_init, writer_flush, reader_init, read_new_block}
use mustdb.Storage.{Run, done, ◌>>=◌, block_size}

-- the list on disk: how many ids, and the ids
abbrev pub list_bytes : List ℕ → List ℕ
list_bytes ids = to_bytes 8 (length ids) ++ id_bytes ids

-- The block of the file holds the list, behind the 8 bytes of the next id.
pub record ListedAt (f : File) (id : ℕ) (ids : List ℕ) : Type 0 where
  pub near : block_location id < max_offset
  pub inside : block_location id + block_size ≤ f.len
  pub link : List ℕ
  pub spare : List ℕ
  pub link_size : length link ≡ 8
  pub user : page_at f block_size (block_location id) ≡ link ++ (list_bytes ids ++ spare)
  pub fits : 16 + 8 * length ids ≤ block_size - 8
  pub words : AllWords ids

-- Reading a listed block appends the list to the free list, and records the block as used.
pub read_free_list-ListedAt :
    (fuel : ℕ) (m : Manager) (id : ℕ) (ids : List ℕ)
    → ListedAt m.file id ids
    → read_free_list (suc fuel) m id
      ≡ done (record m { free_list = m.free_list ++ ids; used_blocks = m.used_blocks ++ id ∷ [] })
unfolding read_free_list reader_init read_new_block manager_read block_create
read_free_list-ListedAt fuel m id ids l =
    let b = blank_page block_size in
    let blank : IsPage b = record { whole = length-replicate {A = ℕ} block_size 0; front = refl } in
    let (page, n, s, e) = read-page_at b m.file (block_location id) blank l.near l.inside in
    let r0 = (reader_init m id).0 in
    let m0 = (reader_init m id).1 in
    let count = length ids in
    let reads : Reads r0 (to_bytes 8 count ++ id_bytes ids) = record {
      before = l.link;
      rest = l.spare;
      user = e ∙ l.user;
      at = sym l.link_size;
      fits = rw (s, length-append, length-id_bytes ids) (omega (arith, l.fits));
      narrow = rw s (omega arith);
    } in
    let (r1, e1, h1) = read_data-Reads fuel r0 m0 (to_bytes 8 count) (id_bytes ids) reads in
    ap
      (λ (x : Run (List ℕ × Reader × Manager)).
        x >>= λ t. read_ids (suc fuel) (from_bytes t.0) t.1 t.2)
      e1
    ∙ ap (λ (k : ℕ). read_ids (suc fuel) k r1 m0)
        (from_bytes-to_bytes 8 count (omega (arith, l.fits)))
    ∙ read_ids-Reads fuel ids [] r1 m0
        (subst (λ (t : List ℕ). Reads r1 t) (sym (append-nil (id_bytes ids))) h1) l.words

-- Writing a list that fits one block ends, and leaves a block that holds it.
pub write_free_list-ListedAt :
    (fuel : ℕ) (m : Manager)
    → AllWords m.used_blocks
    → 16 + 8 * length m.used_blocks ≤ block_size - 8
    → block_location (create_block m).0.id < max_offset
    → let (block, m1) = create_block m in
      (fb : FileBuffer) × IsPage fb
      × (fb.internal_size ≡ block_size)
      × (let f = (file_buffer_write fb m1.file (block_location block.id)).1 in
          (write_free_list (suc fuel) m ≡ done (block.id, record m1 { file = f }))
          × ListedAt f block.id m.used_blocks)
unfolding write_free_list writer_init writer_flush manager_write create_block block_create
write_free_list-ListedAt fuel m words fits near =
    let ids = m.used_blocks in
    let w0 = (writer_init m).0 in
    let m1 = (writer_init m).1 in
    let id = w0.block.id in
    let (w1, e1, h1, i1, s1) =
      write_data-Wrote fuel w0 m1 [] (to_bytes 8 (length ids)) (writer_init-Wrote m)
        (omega arith) in
    let (w2, e2, h2, i2, s2) =
      write_ids-Wrote fuel ids w1 m1 (to_bytes 8 (length ids)) h1 (omega (arith, s1, fits)) in
    let fb = w2.block.fb in
    let page = h2.holds.page in
    let size : fb.internal_size ≡ block_size = omega (arith, page.front, s2, s1) in
    let n : length (list_bytes ids) ≡ 8 + 8 * length ids =
      rw length-append (omega (arith, length-id_bytes ids)) in
    let filled : ltb 8 w2.offset ≡ true = lt→ltb 8 w2.offset (omega (arith, h2.at, n)) in
    let f = (file_buffer_write fb m1.file (block_location id)).1 in
    let (_, long) = len-write fb m1.file (block_location id) page near in
    (
      fb,
      page,
      size,
      (
        ap
              (λ (x : Run (Writer × Manager)).
                x >>= (λ r. write_ids (suc fuel) ids r.0 r.1) >>= λ r.
                done (id, (writer_flush r.0 r.1).1))
              e1
            ∙ ap (λ (x : Run (Writer × Manager)). x >>= λ r. done (id, (writer_flush r.0 r.1).1)) e2
            ∙ rw filled (
                ap
                  (λ (i : ℕ).
                    done (
                      id,
                      record m1 { file = (file_buffer_write fb m1.file (block_location i)).1 },
                    ))
                  (i2 ∙ i1)),
        record {
          near = near;
          inside = omega (arith, long, size);
          link = h2.holds.link;
          spare = h2.holds.spare;
          link_size = h2.holds.link_size;
          user =
              ap (λ (k : ℕ). page_at f k (block_location id)) (sym size)
              ∙ page_at-write fb m1.file (block_location id) page near
              ∙ h2.holds.user;
          fits = fits;
          words = words;
        },
      ),
    )
