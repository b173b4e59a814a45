-- ===== src/Storage/Header/Slots.antt =====
-- The two header slots of the file: a checkpoint writes the one that is not active, and opening the
-- file takes the one with the higher iteration.
use mathlib.Core.Path.{subst}
use mustdb.Prelude.{
  ℕ, zero, suc, if◌then◌else◌, ◌+◌, ◌*◌, ◌-◌, ◌≤◌, ◌<◌, ◌≡◌, ◌⊎◌, refl, sym, ap, ◌∙◌, arith, true,
  false, ap₂, some, ltb, lt→ltb, le→ltb, ◌==◌, ==_iff, length-replicate,
}
use mustdb.Storage.Buffer.{
  FileBuffer, buffer_of, file_buffer_read, file_buffer_write, file_buffer_clear,
}
use mustdb.Storage.Buffer.Pages.{IsPage}
use mustdb.Storage.File.{File, max_offset}
use mustdb.Storage.Header.Pages.{
  page_at, read-page_at, page_at-write, page_at-write_apart, len-write, IsWords, store-IsPage,
  clear-IsPage, header_of-store,
}
use mustdb.Storage.Header.{
  DatabaseHeader, header_of, header_bytes, word_at, slot_location, store_header, zero_manager,
  choose_header, open_database, initialize_manager,
}
use mustdb.Storage.Manager.{Manager, blank_page}
use mustdb.Storage.Meta.{store}
use mustdb.Storage.{Run, done, ◌>>=◌, header_size, version_number, block_start}

-- the slot of the active header, which is the other one than `slot_location` writes
abbrev pub active_location : ℕ → ℕ
active_location active = if active == 1 then header_size * 2 else header_size

abbrev pub slot : File → ℕ → DatabaseHeader
slot f location = header_of (page_at f header_size location)

-- The file has its three header pages, the version is the program's, the active slot holds `h`,
-- and the other slot an older header.
pub record IsRecorded (f : File) (active : ℕ) (h : DatabaseHeader) : Type 0 where
  pub pages : block_start ≤ f.len
  pub version : word_at 8 (page_at f header_size 0) ≡ version_number
  pub flag : active < 2
  pub current : slot f (active_location active) ≡ h
  pub older : (slot f (slot_location active)).iteration < h.iteration

-- the slots change places, and lie apart behind the master header
pub record Places (a : ℕ) : Type 0 where
  pub to_active : active_location (1 - a) ≡ slot_location a
  pub to_slot : slot_location (1 - a) ≡ active_location a
  pub low : (header_size ≤ slot_location a) × (header_size ≤ active_location a)
  pub high :
      (slot_location a + header_size ≤ block_start)
      × (active_location a + header_size ≤ block_start)
  pub apart :
      (active_location a + header_size ≤ slot_location a)
      ⊎ (slot_location a + header_size ≤ active_location a)

pub places : (a : ℕ) → a < 2 → Places a
places zero h = record {
  to_active = refl;
  to_slot = refl;
  low = omega arith;
  high = omega arith;
  apart = omega arith;
}
places (suc zero) h = record {
  to_active = refl;
  to_slot = refl;
  low = omega arith;
  high = omega arith;
  apart = omega arith;
}
places (suc (suc a)) h = absurd (omega arith)

-- Writing a newer database header in a file that records the old one as active makes the file
-- record the new one as active, and the old header stays where it was; the header page has its
-- 4096 bytes, and the fields of the new header are machine words.
pub store_header-IsRecorded :
    (m : Manager) (old new : DatabaseHeader)
    → IsRecorded m.file m.active_header old
    → IsPage m.header_buffer
    → m.header_buffer.internal_size ≡ header_size
    → IsWords new
    → old.iteration < new.iteration
    → let m' = store_header new m in
      IsRecorded m'.file m'.active_header new
      × (slot m'.file (active_location m.active_header) ≡ old)
unfolding store_header file_buffer_clear
store_header-IsRecorded m old new r page size words newer =
    let a = m.active_header in
    let p = places a r.flag in
    let to = slot_location a in
    let near : to < max_offset = omega (arith, p.high) in
    let fb = store 0 (header_bytes new) (file_buffer_clear m.header_buffer) in
    let cleared = clear-IsPage m.header_buffer page in
    let filled = store-IsPage 0 (header_bytes new) _ cleared in
    let f' = (file_buffer_write fb m.file to).1 in
    let (kept, _) = len-write fb m.file to filled near in
    let here : slot f' to ≡ new =
      ap (λ (n : ℕ). header_of (page_at f' n to)) (sym size)
      ∙ ap header_of (page_at-write fb m.file to filled near)
      ∙ header_of-store new _ cleared (omega (arith, size)) words in
    let there : slot f' (active_location a) ≡ old =
      ap header_of (
        page_at-write_apart fb m.file to header_size (active_location a) filled near
          (omega (arith, p.high, r.pages)) (omega (arith, p.apart, size)))
      ∙ r.current in
    (
      record {
        pages = omega (arith, kept, r.pages);
        version =
            ap (word_at 8) (
              page_at-write_apart fb m.file to header_size 0 filled near (omega (arith, r.pages))
                (omega (arith, p.low)))
            ∙ r.version;
        flag = omega (arith, r.flag);
        current = ap (slot f') p.to_active ∙ here;
        older =
            subst (λ (k : ℕ). k < new.iteration)
              (sym (
                ap (λ (l : ℕ). (slot f' l).iteration) p.to_slot
                ∙ ap (λ (d : DatabaseHeader). d.iteration) there))
              newer;
      },
      there,
    )

-- the choice, by the slot that is active
choose_header_active :
    (fuel : ℕ) (f : File) (active : ℕ) (h : DatabaseHeader) (m : Manager)
    → IsRecorded f active h
    → choose_header fuel m (slot f header_size) (slot f (header_size * 2))
      ≡ initialize_manager fuel (record m { active_header = active }) h
unfolding choose_header
choose_header_active fuel f zero h m r =
    let newer : (slot f (header_size * 2)).iteration < (slot f header_size).iteration =
      subst (λ (d : DatabaseHeader). (slot f (header_size * 2)).iteration < d.iteration)
        (sym r.current) r.older in
    rw (lt→ltb _ _ newer) (ap (initialize_manager fuel (record m { active_header = 0 })) r.current)
choose_header_active fuel f (suc zero) h m r =
    let newer : (slot f header_size).iteration < (slot f (header_size * 2)).iteration =
      subst (λ (d : DatabaseHeader). (slot f header_size).iteration < d.iteration) (sym r.current)
        r.older in
    let test : ltb (slot f (header_size * 2)).iteration (slot f header_size).iteration ≡ false =
      le→ltb (slot f (header_size * 2)).iteration (slot f header_size).iteration
        (omega (arith, newer)) in
    rw test (ap (initialize_manager fuel (record m { active_header = 1 })) r.current)
choose_header_active fuel f (suc (suc a)) h m r = absurd (omega (arith, r.flag))

-- Opening a file with its three whole header pages and the version of the program, whose active
-- slot holds a header of a larger iteration than the other slot, continues with the active slot
-- and its header, and the second slot stands in the page of the manager.
pub open_database-IsRecorded :
    (fuel : ℕ) (f : File) (active : ℕ) (h : DatabaseHeader)
    → IsRecorded f active h
    → (page : FileBuffer) × IsPage page
      × (page.internal_size ≡ header_size)
      × (buffer_of page ≡ page_at f header_size (header_size * 2))
      × (open_database fuel f ≡ (
          initialize_manager fuel
            (record (zero_manager f) { header_buffer = page; active_header = active })
            h
          >>= λ m. done (some m)))
unfolding open_database
open_database-IsRecorded fuel f active h r =
    let b = blank_page header_size in
    let blank : IsPage b = record {
      whole = length-replicate {A = ℕ} header_size 0;
      front = refl;
    } in
    let (p0, n0, _, e0) = read-page_at b f 0 blank (omega arith) (omega (arith, r.pages)) in
    let b0 = (file_buffer_read b f 0).1 in
    let (p1, n1, _, e1) =
      read-page_at b0 f header_size p0 (omega arith) (omega (arith, n0, r.pages)) in
    let b1 = (file_buffer_read b0 f header_size).1 in
    let (p2, n2, _, e2) =
      read-page_at b1 f (header_size * 2) p1 (omega arith) (omega (arith, n1, n0, r.pages)) in
    let b2 = (file_buffer_read b1 f (header_size * 2)).1 in
    let h1 = ap header_of (e1 ∙ ap (λ (n : ℕ). page_at f n header_size) n0) in
    let h2 = ap header_of (e2 ∙ ap (λ (n : ℕ). page_at f n (header_size * 2)) (n1 ∙ n0)) in
    let version : (word_at 8 (buffer_of b0) == version_number) ≡ true =
      (==_iff (word_at 8 (buffer_of b0)) version_number).1 (ap (word_at 8) e0 ∙ r.version) in
    let m = record (zero_manager f) { header_buffer = b2 } in
    (
      b2,
      p2,
      n2 ∙ n1 ∙ n0,
      e2 ∙ ap (λ (n : ℕ). page_at f n (header_size * 2)) (n1 ∙ n0),
      rw version (
          ap (λ (x : Run Manager). x >>= λ m'. done (some m'))
            (ap₂ (choose_header fuel m) h1 h2 ∙ choose_header_active fuel f active h m r)),
    )
