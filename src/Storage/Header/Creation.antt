-- ===== src/Storage/Header/Creation.antt =====
-- A new database file: what create_new_database leaves in it.
use mustdb.Prelude.Bytes.{to_bytes}
use mathlib.Core.Path.{subst}
use mustdb.Prelude.{
  ℕ, ◌*◌, ◌^◌, ◌≤◌, ◌<◌, ◌≡◌, refl, sym, ap, ◌∙◌, arith, inl, some, List, ◌++◌, drop, length,
  length-replicate, length-drop, length-blit, blit_front, drop-blit,
}
use mustdb.Storage.Buffer.{FileBuffer, buffer_of, sealed, file_buffer_write, file_buffer_clear}
use mustdb.Storage.Buffer.Pages.{IsPage, buffer_of-sealed}
use mustdb.Storage.File.{File}
use mustdb.Storage.Header.Pages.{
  page_at, page_at-write, page_at-write_apart, len-write, IsWords, store-IsPage, clear-IsPage,
  header_of-store,
}
use mustdb.Storage.Header.Slots.{IsRecorded, open_database-IsRecorded}
use mustdb.Storage.Header.{
  DatabaseHeader, header_of, header_bytes, word_at, open_database, initialize_manager, empty_header,
  create_database,
}
use mustdb.Storage.Manager.{Manager, blank_page}
use mustdb.Storage.Meta.{store}
use mustdb.Storage.{done, header_size, version_number, magic_number}

blank-IsPage : IsPage (blank_page header_size)
blank-IsPage = record { whole = length-replicate {A = ℕ} header_size 0; front = refl }

sealed-IsPage : (fb : FileBuffer) → IsPage fb → IsPage (record fb { internal_buf = sealed fb })
sealed-IsPage fb page = record { whole = rw length-blit page.whole; front = page.front }

-- Of the page of the first header only the iteration is stored anew for the second.
second_header :
    (fb : FileBuffer)
    → IsPage fb
    → fb.internal_size ≡ header_size
    → let first = store 0 (header_bytes (empty_header 0)) fb in
      header_of (buffer_of (store 0 (to_bytes 8 1) (record first { internal_buf = sealed first })))
      ≡ empty_header 1
second_header fb page size =
    let first = store 0 (header_bytes (empty_header 0)) fb in
    let filled = store-IsPage 0 (header_bytes (empty_header 0)) fb page in
    let long : 40 ≤ length fb.internal_buf = omega (arith, page.whole, size) in
    let was : buffer_of first ≡ header_bytes (empty_header 0) ++ drop 32 (buffer_of fb) =
      drop-blit 8 (header_bytes (empty_header 0)) fb.internal_buf
      ∙ blit_front (header_bytes (empty_header 0)) (buffer_of fb) (rw length-drop (omega arith)) in
    let big : 8 ≤ length (drop 8 (sealed first)) =
      rw (length-drop, length-blit, length-blit) (omega arith) in
    ap header_of (
      drop-blit 8 (to_bytes 8 1) (sealed first)
      ∙ blit_front (to_bytes 8 1) (drop 8 (sealed first)) big
      ∙ ap (λ (t : List ℕ). to_bytes 8 1 ++ drop 8 t) (buffer_of-sealed first filled ∙ was))

empty_header-IsWords : (n : ℕ) → n < 2 ^ 64 → IsWords (empty_header n)
empty_header-IsWords n h = record {
  iteration = h;
  meta_block = omega arith;
  free_list_id = omega arith;
  block_count = omega arith;
}

-- A new file records its second header as the active one, with iteration 1 and no blocks.
pub create_database-IsRecorded :
    IsRecorded create_database.file create_database.active_header (empty_header 1)
    × (create_database.iteration_count ≡ 1)
    × (page_at create_database.file header_size (header_size * 2)
        ≡ buffer_of create_database.header_buffer)
unfolding create_database file_buffer_clear file_buffer_write
create_database-IsRecorded =
    let f0 : File = record { len = 0; byte = λ _. 0 } in
    let b = blank_page header_size in
    let cleared = clear-IsPage b blank-IsPage in
    let master =
      store 8 (to_bytes 8 version_number)
        (store 0 (to_bytes 8 magic_number) (file_buffer_clear b)) in
    let master-IsPage =
      store-IsPage 8 (to_bytes 8 version_number) _
        (store-IsPage 0 (to_bytes 8 magic_number) _ cleared) in
    let f1 = (file_buffer_write master f0 0).1 in
    let sealed_master = (file_buffer_write master f0 0).0 in
    let empty = file_buffer_clear sealed_master in
    let empty-IsPage = clear-IsPage sealed_master (sealed-IsPage master master-IsPage) in
    let h1 = store 0 (header_bytes (empty_header 0)) empty in
    let h1-IsPage = store-IsPage 0 (header_bytes (empty_header 0)) empty empty-IsPage in
    let f2 = (file_buffer_write h1 f1 header_size).1 in
    let h2 = store 0 (to_bytes 8 1) (file_buffer_write h1 f1 header_size).0 in
    let h2-IsPage = store-IsPage 0 (to_bytes 8 1) _ (sealed-IsPage h1 h1-IsPage) in
    let f3 = (file_buffer_write h2 f2 (header_size * 2)).1 in
    let (_, n1) = len-write master f0 0 master-IsPage (omega arith) in
    let (_, n2) = len-write h1 f1 header_size h1-IsPage (omega arith) in
    let (_, n3) = len-write h2 f2 (header_size * 2) h2-IsPage (omega arith) in
    let first : page_at f3 header_size header_size ≡ buffer_of h1 =
      page_at-write_apart h2 f2 (header_size * 2) header_size header_size h2-IsPage (omega arith)
        (omega (arith, n2)) (inl (omega arith))
      ∙ page_at-write h1 f1 header_size h1-IsPage (omega arith) in
    let front : page_at f3 header_size 0 ≡ buffer_of master =
      page_at-write_apart h2 f2 (header_size * 2) header_size 0 h2-IsPage (omega arith)
        (omega (arith, n2)) (inl (omega arith))
      ∙ page_at-write_apart h1 f1 header_size header_size 0 h1-IsPage (omega arith)
          (omega (arith, n1)) (inl (omega arith))
      ∙ page_at-write master f0 0 master-IsPage (omega arith) in
    (
      record {
        pages = omega (arith, n3);
        version = ap (word_at 8) front;
        flag = omega arith;
        current =
            ap header_of (page_at-write h2 f2 (header_size * 2) h2-IsPage (omega arith))
            ∙ second_header empty empty-IsPage refl;
        older =
            subst (λ (d : DatabaseHeader). d.iteration < 1)
              (sym (
                ap header_of first
                ∙ header_of-store (empty_header 0) empty empty-IsPage (omega arith)
                    (empty_header-IsWords 0 (omega arith))))
              (omega arith);
      },
      refl,
      page_at-write h2 f2 (header_size * 2) h2-IsPage (omega arith)
          ∙ sym (buffer_of-sealed h2 h2-IsPage),
    )

pub create_database-IsPage : IsPage create_database.header_buffer
unfolding create_database file_buffer_clear file_buffer_write
create_database-IsPage = record {
  whole =
      rw (length-blit, length-blit, length-blit, length-blit)
        (length-replicate {A = ℕ} header_size 0);
  front = refl;
}

-- A new database, opened again from its file, is in the state in which it was created: the file,
-- the active slot, the free list, the used blocks, the largest block, the meta block, the
-- iteration count and the user bytes of the header page are the same.
pub open_database-create_database :
    (fuel : ℕ)
    → (m : Manager) × (open_database fuel create_database.file ≡ done (some m))
      × (m.file ≡ create_database.file)
      × (m.active_header ≡ create_database.active_header)
      × (m.free_list ≡ create_database.free_list)
      × (m.used_blocks ≡ create_database.used_blocks)
      × (m.max_block ≡ create_database.max_block)
      × (m.meta_block ≡ create_database.meta_block)
      × (m.iteration_count ≡ create_database.iteration_count)
      × IsPage m.header_buffer
      × (buffer_of m.header_buffer ≡ buffer_of create_database.header_buffer)
unfolding initialize_manager create_database
open_database-create_database fuel =
    let (_, page, _, held, opened) =
      open_database-IsRecorded fuel create_database.file create_database.active_header
        (empty_header 1) create_database-IsRecorded.0 in
    (_, opened, refl, refl, refl, refl, refl, refl, refl, page, held ∙ create_database-IsRecorded.2)
