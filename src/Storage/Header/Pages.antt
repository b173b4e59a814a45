-- ===== src/Storage/Header/Pages.antt =====
-- The header pages of the file: what one read of a page returns, and a header stored and read back.
use mustdb.Prelude.Bytes.{from_bytes-to_bytes}
use mustdb.Prelude.{
  ℕ, suc, ◌+◌, ◌^◌, ◌≤◌, ◌<◌, ◌≡◌, ◌⊎◌, refl, sym, ap, ◌∙◌, arith, List, [], ◌∷◌, ◌++◌, drop,
  length, length-drop, length-replicate, replicate, length-blit, blit_front, drop-blit, ltb, lt→ltb,
  true,
}
use mustdb.Storage.Buffer.{
  FileBuffer, buffer_of, sealed, file_buffer_read, file_buffer_write, file_buffer_clear,
}
use mustdb.Storage.Buffer.Pages.{IsPage, buffer_of-sealed}
use mustdb.Storage.File.{
  File, fread, fwrite, max_offset, file_read_at, file_write_at, fread-fwrite, fread-fwrite_apart,
}
use mustdb.Storage.Header.{DatabaseHeader, header_bytes, header_of}
use mustdb.Storage.Meta.{store}

-- inside the file a read does not depend on what the buffer held
fread_any :
    (f : File) (a b : List ℕ) (p : ℕ)
    → length a ≡ length b
    → p + length a ≤ f.len
    → fread f a p ≡ fread f b p
unfolding fread
fread_any f [] [] p n inside = refl
fread_any f [] (y ∷ b) p n inside = absurd (omega arith)
fread_any f (x ∷ a) [] p n inside = absurd (omega arith)
fread_any f (x ∷ a) (y ∷ b) p n inside =
    let here : ltb p f.len ≡ true = lt→ltb p f.len (omega arith) in
    rw here
      (ap (λ (t : List ℕ). f.byte p ∷ t) (fread_any f a b (p + 1) (omega arith) (omega arith)))

-- the user's bytes of the page of `n` bytes at `p`
pub page_at : File → ℕ → ℕ → List ℕ
page_at f n p = drop 8 (fread f (replicate n 0) p)

length-fread : (f : File) (a : List ℕ) (p : ℕ) → length (fread f a p) ≡ length a
unfolding fread
length-fread f [] p = refl
length-fread f (x ∷ a) p = ap suc (length-fread f a (p + 1))

-- what fileBuffer_read of a page inside the file leaves in its buffer
pub read-page_at :
    (fb : FileBuffer) (f : File) (p : ℕ)
    → IsPage fb
    → p < max_offset
    → p + fb.internal_size ≤ f.len
    → let r = (file_buffer_read fb f p).1 in
      IsPage r
      × (r.internal_size ≡ fb.internal_size)
      × (r.size ≡ fb.size)
      × (buffer_of r ≡ page_at f fb.internal_size p)
unfolding file_buffer_read file_read_at page_at
read-page_at fb f p page near inside = rw (lt→ltb p max_offset near) (
  record { whole = length-fread f fb.internal_buf p ∙ page.whole; front = page.front },
  refl,
  refl,
  ap (drop 8) (
      fread_any f fb.internal_buf (replicate fb.internal_size 0) p
        (page.whole ∙ sym (length-replicate fb.internal_size 0)) (rw page.whole inside)),
)

-- what fileBuffer_write of a page leaves in the file: there the page, elsewhere what it was
pub page_at-write :
    (fb : FileBuffer) (f : File) (location : ℕ)
    → IsPage fb
    → location < max_offset
    → page_at (file_buffer_write fb f location).1 fb.internal_size location ≡ buffer_of fb
unfolding file_buffer_write file_write_at page_at
page_at-write fb f location page near = rw (lt→ltb location max_offset near) (
    ap (drop 8) (
      fread-fwrite f (sealed fb) location (replicate fb.internal_size 0) (
        length-replicate fb.internal_size 0
        ∙ sym page.whole
        ∙ sym (length-blit 0 _ fb.internal_buf)))
    ∙ buffer_of-sealed fb page)

pub page_at-write_apart :
    (fb : FileBuffer) (f : File) (location n p : ℕ)
    → IsPage fb
    → location < max_offset
    → p + n ≤ f.len
    → (p + n ≤ location) ⊎ (location + fb.internal_size ≤ p)
    → page_at (file_buffer_write fb f location).1 n p ≡ page_at f n p
unfolding file_buffer_write file_write_at page_at
page_at-write_apart fb f location n p page near inside apart =
    rw (lt→ltb location max_offset near) (
      ap (drop 8) (
        fread-fwrite_apart f (sealed fb) location (replicate n 0) p (rw length-replicate inside)
          (rw (length-replicate, length-blit, page.whole) apart)))

pub len-write :
    (fb : FileBuffer) (f : File) (location : ℕ)
    → IsPage fb
    → location < max_offset
    → (f.len ≤ (file_buffer_write fb f location).1.len)
      × (location + fb.internal_size ≤ (file_buffer_write fb f location).1.len)
unfolding file_buffer_write file_write_at fwrite
len-write fb f location page near =
    rw (lt→ltb location max_offset near, length-blit, page.whole) (omega arith)

-- the fields of a header are machine words
pub record IsWords (h : DatabaseHeader) : Type 0 where
  pub iteration : h.iteration < 2 ^ 64
  pub meta_block : h.meta_block < 2 ^ 64
  pub free_list_id : h.free_list_id < 2 ^ 64
  pub block_count : h.block_count < 2 ^ 64

header_of-append :
    (h : DatabaseHeader) (rest : List ℕ) → IsWords h → header_of (header_bytes h ++ rest) ≡ h
header_of-append h rest w = λ i. record {
  iteration = from_bytes-to_bytes 8 h.iteration w.iteration i;
  meta_block = from_bytes-to_bytes 8 h.meta_block w.meta_block i;
  free_list_id = from_bytes-to_bytes 8 h.free_list_id w.free_list_id i;
  block_count = from_bytes-to_bytes 8 h.block_count w.block_count i;
}

pub store-IsPage :
    (i : ℕ) (bytes : List ℕ) (fb : FileBuffer) → IsPage fb → IsPage (store i bytes fb)
store-IsPage i bytes fb page = record { whole = rw length-blit page.whole; front = page.front }

pub clear-IsPage : (fb : FileBuffer) → IsPage fb → IsPage (file_buffer_clear fb)
unfolding file_buffer_clear
clear-IsPage fb page = record { whole = length-replicate fb.internal_size 0; front = page.front }

-- A database header stored at the start of a page is read back from the page.
pub header_of-store :
    (h : DatabaseHeader) (fb : FileBuffer)
    → IsPage fb
    → 40 ≤ fb.internal_size
    → IsWords h
    → header_of (buffer_of (store 0 (header_bytes h) fb)) ≡ h
header_of-store h fb page big w =
    ap header_of (
      drop-blit 8 (header_bytes h) fb.internal_buf
      ∙ blit_front (header_bytes h) (buffer_of fb) (rw length-drop (omega (arith, page.whole))))
    ∙ header_of-append h (drop 32 (buffer_of fb)) w
