-- ===== src/Storage/Header/FreeList.antt =====
-- The list of free blocks on disk: what write_header writes of it, and what initialize_manager reads.
use mathlib.Core.Path.{subst}
use mustdb.Prelude.Bytes.{to_bytes, from_bytes, from_bytes-to_bytes}
use mustdb.Prelude.{
  ℕ, suc, ◌+◌, ◌*◌, ◌^◌, ◌≤◌, ◌<◌, ◌≡◌, refl, sym, ap, ◌∙◌, arith, List, [], ◌∷◌, ◌++◌,
  append_assoc, append-nil, length, length-append,
}
use mustdb.Storage.Header.{write_ids, read_ids}
use mustdb.Storage.Manager.{Manager}
use mustdb.Storage.Meta.Stream.{Wrote, Reads, write_data-Wrote, read_data-Reads}
use mustdb.Storage.Meta.{Writer, Reader}
use mustdb.Storage.{Run, done, ◌>>=◌}

-- the ids as the loop of write_header stores them
abbrev pub id_bytes : List ℕ → List ℕ
id_bytes [] = []
id_bytes (id ∷ ids) = to_bytes 8 id ++ id_bytes ids

abbrev pub AllWords : List ℕ → Type 0
AllWords [] = Unit
AllWords (id ∷ ids) = (id < 2 ^ 64) × AllWords ids

pub length-id_bytes : (ids : List ℕ) → length (id_bytes ids) ≡ 8 * length ids
length-id_bytes [] = refl
length-id_bytes (id ∷ ids) = omega (arith, length-id_bytes ids)

-- Ids that fit the rest of the block are written behind what was written before.
pub write_ids-Wrote :
    (fuel : ℕ) (ids : List ℕ) (w : Writer) (m : Manager) (old : List ℕ)
    → Wrote w old
    → 8 + length old + 8 * length ids ≤ w.block.fb.size
    → (w' : Writer) × (write_ids (suc fuel) ids w m ≡ done (w', m))
      × Wrote w' (old ++ id_bytes ids)
      × (w'.block.id ≡ w.block.id)
      × (w'.block.fb.size ≡ w.block.fb.size)
unfolding write_ids
write_ids-Wrote fuel [] w m old h fits =
    (w, refl, subst (λ (t : List ℕ). Wrote w t) (sym (append-nil old)) h, refl, refl)
write_ids-Wrote fuel (id ∷ ids) w m old h fits =
    let (w1, e1, h1, i1, s1) =
      write_data-Wrote fuel w m old (to_bytes 8 id) h (omega (arith, fits)) in
    let (w2, e2, h2, i2, s2) =
      write_ids-Wrote fuel ids w1 m (old ++ to_bytes 8 id) h1
        (rw (s1, length-append) (omega (arith, fits))) in
    (
      w2,
      ap (λ (x : Run (Writer × Manager)). x >>= λ r. write_ids (suc fuel) ids r.0 r.1) e1 ∙ e2,
      subst (λ (t : List ℕ). Wrote w2 t) (append_assoc old (to_bytes 8 id) (id_bytes ids)) h2,
      i2 ∙ i1,
      s2 ∙ s1,
    )

-- A reader in front of the ids appends them to the free list.
pub read_ids-Reads :
    (fuel : ℕ) (ids ys : List ℕ) (r : Reader) (m : Manager)
    → Reads r (id_bytes ids ++ ys)
    → AllWords ids
    → read_ids (suc fuel) (length ids) r m ≡ done (record m { free_list = m.free_list ++ ids })
unfolding read_ids
read_ids-Reads fuel [] ys r m h words =
    ap (λ (t : List ℕ). done (record m { free_list = t })) (sym (append-nil m.free_list))
read_ids-Reads fuel (id ∷ ids) ys r m h words =
    let split = append_assoc (to_bytes 8 id) (id_bytes ids) ys in
    let (r1, e1, h1) =
      read_data-Reads fuel r m (to_bytes 8 id) (id_bytes ids ++ ys)
        (subst (λ (t : List ℕ). Reads r t) split h) in
    let m1 = record m { free_list = m.free_list ++ id ∷ [] } in
    ap
      (λ (x : Run (List ℕ × Reader × Manager)). x >>= λ s.
        read_ids (suc fuel) (length ids) s.1
          (record (s.2) { free_list = s.2.free_list ++ from_bytes s.0 ∷ [] }))
      e1
    ∙ ap
        (λ (k : ℕ).
          read_ids (suc fuel) (length ids) r1 (record m { free_list = m.free_list ++ k ∷ [] }))
        (from_bytes-to_bytes 8 id words.0)
    ∙ read_ids-Reads fuel ids ys r1 m1 h1 words.1
    ∙ ap (λ (t : List ℕ). done (record m { free_list = t }))
        (append_assoc m.free_list (id ∷ []) ids)
