-- ===== src/Storage/Meta/Stream.antt =====
-- The byte stream of one block: what a MetaBlockWriter stores and flushes, a MetaBlockReader of
-- the same block reads.
use mustdb.Prelude.{
  ℕ, suc, ◌+◌, ◌-◌, ◌^◌, ◌≤◌, ◌<◌, ◌≡◌, refl, sym, ◌∙◌, ap, arith, List, [], ◌++◌, append_assoc,
  take, drop, length, length-append, length-take, length-blit, blit, blit-append, take-append-drop,
  drop-append_length, drop-append_ge, take-append_length, le→ltb, replicate, length-replicate, u64,
}
use mustdb.Storage.Buffer.{FileBuffer, buffer_of}
use mustdb.Storage.Buffer.Pages.{IsPage}
use mustdb.Storage.Manager.{Manager, block_create, create_block}
use mustdb.Storage.Meta.{
  Writer, writer_init, store, in_block, write_loop, write_data, Reader, read_data,
}
use mustdb.Storage.Meta.Loops.{read_data_here}
use mustdb.Storage.{done, block_size}

-- A page whose stream, behind the 8 bytes of the next id, is `bytes` and then spare room.
pub record Holds (fb : FileBuffer) (bytes : List ℕ) : Type 0 where
  pub page : IsPage fb
  pub link : List ℕ
  pub spare : List ℕ
  pub link_size : length link ≡ 8
  pub user : buffer_of fb ≡ link ++ (bytes ++ spare)

pub record Wrote (w : Writer) (bytes : List ℕ) : Type 0 where
  pub holds : Holds w.block.fb bytes
  pub at : w.offset ≡ 8 + length bytes
  pub narrow : w.block.fb.size < 2 ^ 63

split_front :
    (k : ℕ) (xs : List ℕ) → k ≤ length xs → (take k xs ++ drop k xs ≡ xs) × (length (take k xs) ≡ k)
split_front k xs h = (take-append-drop k xs, rw length-take (omega arith))

-- a store behind the bytes written so far
store-Holds :
    (fb : FileBuffer) (old new : List ℕ)
    → Holds fb old
    → 8 + length old + length new ≤ fb.size
    → Holds (store (8 + length old) new fb) (old ++ new)
store-Holds fb old new h fits =
    let buf = fb.internal_buf in
    let front = take 8 buf in
    let mid = take (length new) h.spare in
    let post = drop (length new) h.spare in
    let pre = (front ++ h.link) ++ old in
    let parts : buf ≡ front ++ (h.link ++ (old ++ h.spare)) =
      sym (take-append-drop 8 buf) ∙ ap (λ (t : List ℕ). front ++ t) h.user in
    let front_size : length front ≡ 8 =
      rw length-take (omega (arith, h.page.whole, h.page.front)) in
    let room : length h.spare ≡ fb.size - (8 + length old) = omega (
      arith,
      ap length parts,
      length-append front (h.link ++ (old ++ h.spare)),
      length-append h.link (old ++ h.spare),
      length-append old h.spare,
      h.page.whole,
      h.page.front,
      h.link_size,
    ) in
    let halves : mid ++ post ≡ h.spare = take-append-drop (length new) h.spare in
    let whole : buf ≡ pre ++ (mid ++ post) = rw halves (simp append_assoc parts) in
    let stored : blit (8 + (8 + length old)) new buf ≡ pre ++ (new ++ post) =
      ap (blit (8 + (8 + length old)) new) whole
      ∙ blit-append pre new mid post (8 + (8 + length old))
          (rw (length-append (front ++ h.link) old, length-append front h.link)
            (omega (arith, h.link_size)))
          (rw length-take (omega arith)) in
    record {
      page = record { whole = rw length-blit h.page.whole; front = h.page.front };
      link = h.link;
      spare = post;
      link_size = h.link_size;
      user =
          ap (drop 8) stored
          ∙ simp append_assoc
              (drop-append_ge 8 0 front (h.link ++ (old ++ (new ++ post))) (omega arith));
    }

-- A new writer has written nothing.
pub writer_init-Wrote : (m : Manager) → Wrote (writer_init m).0 []
unfolding writer_init create_block block_create
writer_init-Wrote m = record {
  holds = record {
    page = record { whole = length-replicate {A = ℕ} block_size 0; front = refl };
    link = replicate 8 0;
    spare = replicate 8176 0;
    link_size = refl;
    user = refl;
  };
  at = refl;
  narrow = omega arith;
}

-- Data that fits the rest of the current block is written in one round behind what was written
-- before, and the manager is left as it was.
pub write_data-Wrote :
    (fuel : ℕ) (w : Writer) (m : Manager) (old new : List ℕ)
    → Wrote w old
    → 8 + length old + length new ≤ w.block.fb.size
    → (w' : Writer) × (write_data (suc fuel) w m new ≡ done (w', m))
      × Wrote w' (old ++ new)
      × (w'.block.id ≡ w.block.id)
      × (w'.block.fb.size ≡ w.block.fb.size)
unfolding write_data write_loop
write_data-Wrote fuel w m old new h fits =
    let end = w.offset + length new in
    let wrap : u64 end ≡ end = omega (arith, h.at, h.narrow) in
    (
      record { block = in_block (store w.offset new) w.block; offset = end },
      rw (wrap, le→ltb w.block.fb.size end (omega (arith, h.at))),
      record {
        holds = rw h.at (store-Holds w.block.fb old new h.holds fits);
        at = rw length-append (omega (arith, h.at));
        narrow = h.narrow;
      },
      refl,
      refl,
    )

-- The reader stands before `bytes`.
pub record Reads (r : Reader) (bytes : List ℕ) : Type 0 where
  pub before : List ℕ
  pub rest : List ℕ
  pub user : buffer_of r.block.fb ≡ before ++ (bytes ++ rest)
  pub at : r.offset ≡ length before
  pub fits : r.offset + length bytes ≤ r.block.fb.size
  pub narrow : r.block.fb.size < 2 ^ 63

-- A reader that stands before some bytes returns as many of them as are asked for, and then
-- stands behind them.
pub read_data-Reads :
    (fuel : ℕ) (r : Reader) (m : Manager) (xs ys : List ℕ)
    → Reads r (xs ++ ys)
    → (r' : Reader) × (read_data (suc fuel) r m (length xs) ≡ done (xs, r', m)) × Reads r' ys
read_data-Reads fuel r m xs ys h =
    let there : drop r.offset (buffer_of r.block.fb) ≡ xs ++ (ys ++ h.rest) =
      rw (h.user, h.at)
        (drop-append_length h.before ((xs ++ ys) ++ h.rest) ∙ append_assoc xs ys h.rest) in
    let n = length-append xs ys in
    (
      record r { offset = r.offset + length xs },
      read_data_here fuel r m (length xs) (omega (arith, h.fits)) (omega (arith, h.narrow))
          ∙ ap
              (λ (bs : List ℕ).
                done (take (length xs) bs, record r { offset = r.offset + length xs }, m))
              there
          ∙ ap (λ (bs : List ℕ). done (bs, record r { offset = r.offset + length xs }, m))
              (take-append_length xs (ys ++ h.rest)),
      record {
        before = h.before ++ xs;
        rest = h.rest;
        user = h.user ∙ simp append_assoc;
        at = rw length-append (omega (arith, h.at));
        fits = omega (arith, h.fits);
        narrow = h.narrow;
      },
    )
