-- ===== src/Catalog/Scan.antt =====
-- catalogSet_scan and the count of the entries.
use mathlib.Core.Path.{subst}
use native.Mathlib.Nat.{mod-eq_of_lt}
use mustdb.Catalog.{
  CatalogEntry, CatalogSet, entry_at, visit, scan_loop, catalog_set_scan, count_entry_callback,
  catalog_set_get_entry_count,
}
use mustdb.Hmap.Iterate.{nodes_of, rest_of, Advances, iter_next-Advances}
use mustdb.Hmap.{HmapNode, HmapIterator, hmap_iter_init, hmap_iter_next}
use mustdb.Prelude.{
  ℕ, zero, suc, ◌+◌, ◌<◌, ◌≡◌, refl, ap, ◌∙◌, arith, some, List, [], ◌∷◌, length, if◌then◌else◌,
  u32, Bool-cases, inl, inr, ◌^◌,
}

module _ {ℓ} {P : Type 0} {C : Type ℓ} (scan_fn : CatalogEntry P → C → C) (s : CatalogSet P) where
  -- one call for each node, on the entry that it points to
  unfoldable pub visits : List (HmapNode (List ℕ) ℕ) → C → C
  visits [] ctx = ctx
  visits (node ∷ nodes) ctx = visits nodes (scan_fn (entry_at s node.value) ctx)

  scan_loop-visits :
      (fuel : ℕ) (iter : HmapIterator (List ℕ) ℕ) (nodes : List (HmapNode (List ℕ) ℕ)) (ctx : C)
      → rest_of s.nodes.buckets iter ≡ nodes
      → length nodes < fuel
      → scan_loop scan_fn fuel s iter ctx ≡ some (visits nodes ctx)
  unfolding scan_loop visits visit
  scan_loop-visits zero iter nodes ctx e lt = absurd (omega arith)
  scan_loop-visits (suc fuel) iter [] ctx e lt =
      let (ended, _) =
        subst (Advances s.nodes.buckets (hmap_iter_next s.nodes iter)) e
          (iter_next-Advances s.nodes iter.bucket_idx iter.node) in
      rw ended refl
  scan_loop-visits (suc fuel) iter (node ∷ nodes) ctx e lt =
      let (moved, here, left) =
        subst (Advances s.nodes.buckets (hmap_iter_next s.nodes iter)) e
          (iter_next-Advances s.nodes iter.bucket_idx iter.node) in
      rw (moved, here)
        (scan_loop-visits fuel (hmap_iter_next s.nodes iter).1 nodes
          (scan_fn (entry_at s node.value) ctx) left (omega arith))

  -- A scan with a step for each node and one more visits all of them.
  pub scan-visits :
      (fuel : ℕ) (ctx : C)
      → length (nodes_of s.nodes.buckets) < fuel
      → catalog_set_scan scan_fn fuel s ctx ≡ some (visits (nodes_of s.nodes.buckets) ctx)
  unfolding catalog_set_scan hmap_iter_init
  scan-visits fuel ctx lt =
      scan_loop-visits fuel hmap_iter_init (nodes_of s.nodes.buckets) ctx refl lt

-- how many of the entries that the nodes point to are not deleted
unfoldable pub live_entries : {P : Type 0} → CatalogSet P → List (HmapNode (List ℕ) ℕ) → ℕ
live_entries s [] = 0
live_entries s (node ∷ nodes) =
    (if (entry_at s node.value).deleted then 0 else 1) + live_entries s nodes

module _ {P : Type 0} (s : CatalogSet P) where
  counted :
      (nodes : List (HmapNode (List ℕ) ℕ)) (c : ℕ)
      → c + length nodes < 2 ^ 32
      → visits count_entry_callback s nodes c ≡ c + live_entries s nodes
  unfolding visits count_entry_callback live_entries
  counted [] c lt = omega arith
  counted (node ∷ nodes) c lt = elim (Bool-cases (entry_at s node.value).deleted) [
    | inl d ↦ rw d (counted nodes c (omega arith) ∙ omega arith)
    | inr d ↦
        let next : u32 (c + 1) ≡ c + 1 = mod-eq_of_lt (omega arith) in
        rw (d, next) (counted nodes (c + 1) (omega arith) ∙ omega arith)
  ]

  -- Counting the entries of a catalog set visits each node once and then ends, within one step
  -- more than there are nodes (more steps make no difference), and returns how many of the
  -- entries that the nodes point to are not deleted (there are fewer than 2^32 nodes).
  pub entry_count-live :
      (fuel : ℕ)
      → length (nodes_of s.nodes.buckets) < fuel
      → length (nodes_of s.nodes.buckets) < 2 ^ 32
      → catalog_set_get_entry_count fuel s ≡ some (live_entries s (nodes_of s.nodes.buckets))
  unfolding catalog_set_get_entry_count
  entry_count-live fuel enough narrow =
      scan-visits count_entry_callback s fuel 0 enough
      ∙ ap some (counted (nodes_of s.nodes.buckets) 0 (omega arith) ∙ omega arith)
