-- ===== src/Storage/Header/Keeps.antt =====
-- What writing blocks and headers keeps of the file, and opening a file whose header names a list.
use mathlib.Core.Path.{subst}
use mustdb.Prelude.{
  ℕ, suc, ◌+◌, ◌≤◌, ◌<◌, ◌≡◌, inl, inr, refl, sym, ap, ◌∙◌, arith, List, [], ◌∷◌, some, length,
  false, ltb, ◌==◌, Bool-cases, if◌then◌else◌,
}
use mustdb.Storage.Buffer.{FileBuffer, file_buffer_write}
use mustdb.Storage.Buffer.Pages.{IsPage}
use mustdb.Storage.File.{File, max_offset}
use mustdb.Storage.Header.Listed.{ListedAt, read_free_list-ListedAt}
use mustdb.Storage.Header.Pages.{page_at, page_at-write_apart, len-write}
use mustdb.Storage.Header.Slots.{IsRecorded, active_location, places, open_database-IsRecorded}
use mustdb.Storage.Header.{
  DatabaseHeader, header_of, word_at, slot_location, initialize_manager, open_database,
  zero_manager,
}
use mustdb.Storage.Manager.{
  Manager, last_or, block_location, create_block, get_free_block_id, block_create,
}
use mustdb.Storage.{done, header_size, block_size, block_start, invalid_block}

-- the id that the next block gets
abbrev pub next_id : Manager → ℕ
next_id m = if ltb 0 (length m.free_list) then last_or 0 m.free_list else m.max_block

-- A new block changes nothing but the free list and `max_block`.
pub create_block-shape :
    (m : Manager)
    → ((create_block m).0.id ≡ next_id m)
      × (free_list : List ℕ) × (max_block : ℕ) × ((create_block m).1
          ≡ record m { free_list = free_list; max_block = max_block })
unfolding create_block get_free_block_id block_create
create_block-shape m = elim (Bool-cases (ltb 0 (length m.free_list))) [
  | inl p ↦ rw p (refl, _, _, refl)
  | inr p ↦ rw p (refl, _, _, refl)
]

-- Writing behind the headers keeps them.
pub write_behind-IsRecorded :
    (fb : FileBuffer) (f : File) (location active : ℕ) (h : DatabaseHeader)
    → IsPage fb
    → block_start ≤ location
    → location < max_offset
    → IsRecorded f active h
    → IsRecorded (file_buffer_write fb f location).1 active h
write_behind-IsRecorded fb f location active h page behind near r =
    let f' = (file_buffer_write fb f location).1 in
    let (kept, _) = len-write fb f location page near in
    let same : (p : ℕ)
        → p + header_size ≤ block_start
        → page_at f' header_size p ≡ page_at f header_size p =
      λ p low.
        page_at-write_apart fb f location header_size p page near (omega (arith, low, r.pages))
          (inl (omega (arith, low, behind))) in
    let a = places active r.flag in
    record {
      pages = omega (arith, kept, r.pages);
      version = ap (word_at 8) (same 0 (omega arith)) ∙ r.version;
      flag = r.flag;
      current = ap header_of (same (active_location active) a.high.1) ∙ r.current;
      older =
          subst (λ (d : DatabaseHeader). d.iteration < h.iteration)
            (sym (ap header_of (same (slot_location active) a.high.0))) r.older;
    }

-- Writing a header keeps a listed block.
pub write_header-ListedAt :
    (fb : FileBuffer) (f : File) (location id : ℕ) (ids : List ℕ)
    → IsPage fb
    → location + fb.internal_size ≤ block_start
    → block_start ≤ block_location id
    → ListedAt f id ids
    → ListedAt (file_buffer_write fb f location).1 id ids
write_header-ListedAt fb f location id ids page front behind l =
    let near : location < max_offset = omega (arith, front) in
    let (kept, _) = len-write fb f location page near in
    record {
      near = l.near;
      inside = omega (arith, kept, l.inside);
      link = l.link;
      spare = l.spare;
      link_size = l.link_size;
      user =
          page_at-write_apart fb f location block_size (block_location id) page near l.inside
            (inr (omega (arith, front, behind)))
          ∙ l.user;
      fits = l.fits;
      words = l.words;
    }

-- Opening a file whose active header names a listed block: the list is the free list, and the
-- block of the list is in use.
pub open_database-ListedAt :
    (fuel : ℕ) (f : File) (active : ℕ) (h : DatabaseHeader) (ids : List ℕ)
    → IsRecorded f active h
    → ListedAt f h.free_list_id ids
    → h.free_list_id < invalid_block
    → (n : Manager) × (open_database (suc fuel) f ≡ done (some n))
      × (n.file ≡ f)
      × (n.active_header ≡ active)
      × (n.free_list ≡ ids)
      × (n.used_blocks ≡ h.free_list_id ∷ [])
      × (n.meta_block ≡ h.meta_block)
      × (n.iteration_count ≡ h.iteration)
      × (n.max_block ≡ h.block_count)
unfolding initialize_manager
open_database-ListedAt fuel f active h ids r l valid =
    let (page, _, _, _, opened) = open_database-IsRecorded (suc fuel) f active h r in
    let m = record (zero_manager f) { header_buffer = page; active_header = active } in
    let has_list : (h.free_list_id == invalid_block) ≡ false = ground (arith, valid) in
    (
      record m {
        free_list = ids;
        used_blocks = h.free_list_id ∷ [];
        meta_block = h.meta_block;
        iteration_count = h.iteration;
        max_block = h.block_count;
      },
      opened ∙ rw (has_list, read_free_list-ListedAt fuel m h.free_list_id ids l) refl,
      refl,
      refl,
      refl,
      refl,
      refl,
      refl,
      refl,
    )
