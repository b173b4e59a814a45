-- ===== src/Catalog.antt =====
-- src/catalog/catalog.c and src/include/catalog.h, the sets of versioned catalog entries. The
-- entries of a set are its memory: their addresses are their indexes. The memory that malloc and
-- strdup may refuse is an argument.
pub mod Sets
pub mod View
pub mod Push
pub mod Create
pub mod Laws
pub mod Refine
pub mod Schemas
pub mod Body
pub mod Tables
pub mod Ops
pub mod Scan
pub mod NewTable
mod Tests
pub mod Link
use mustdb.Hmap.Keys.{hmap_init_str}
use mustdb.Hmap.{
  Hmap, HmapIterator, HmapNode, hmap_get, hmap_insert, hmap_deinit, hmap_set_value, hmap_iter_init,
  hmap_iter_next, hmap_iter_value,
}
use mustdb.Prelude.{
  ℕ, zero, suc, ◌+◌, Bool, true, false, Option, none, some, List, [], ◌∷◌, ◌++◌, length, get_or,
  set, if◌then◌else◌, ◌&&◌, not, u32,
}

pub data CatalogType : Type 0 where
  invalid table schema index : CatalogType

-- `body` is what follows the common part: nothing in an entry that make_entry makes.
pub record CatalogEntry (P : Type 0) : Type 0 where
  pub type : CatalogType
  pub name : List ℕ
  pub deleted : Bool
  pub parent : Option ℕ
  pub child : Option ℕ
  pub body : Option P

pub record CatalogSet (P : Type 0) : Type 0 where
  pub nodes : Hmap (List ℕ) ℕ
  pub entries : List (CatalogEntry P)

-- what the allocations of catalogSet_create_entry are granted
pub record CreateMemory : Type 0 where
  pub name_copy : Bool
  pub dummy : Bool
  pub buckets : Bool
  pub node : Bool

module _ {P : Type 0} where
  unfoldable pub catalog_set_init : CatalogSet P
  unfolding hmap_init_str
  catalog_set_init = record { nodes = hmap_init_str; entries = [] }

  -- the entries are freed, and then the table
  unfoldable pub catalog_set_deinit : CatalogSet P → CatalogSet P
  unfolding hmap_deinit
  catalog_set_deinit s = record { nodes = hmap_deinit s.nodes; entries = [] }

  unfoldable pub catalog_entry_init : Option P → CatalogType → List ℕ → CatalogEntry P
  catalog_entry_init body type name = record {
    type = type;
    name = name;
    deleted = false;
    parent = none;
    child = none;
    body = body;
  }

  unfoldable pub make_entry : CatalogType → List ℕ → CatalogEntry P
  unfolding catalog_entry_init
  make_entry type name = catalog_entry_init none type name

  unfoldable pub entry_at : CatalogSet P → ℕ → CatalogEntry P
  unfolding make_entry
  entry_at s a = get_or s.entries a (make_entry invalid [])

  -- `value`, at the next free address, in front of the entry at `a`, to which the node of `name`
  -- points
  unfoldable pub link_entry : CatalogSet P → List ℕ → ℕ → CatalogEntry P → CatalogSet P
  unfolding hmap_set_value entry_at
  link_entry s name a value =
      let new = length s.entries in
      record s {
        nodes = hmap_set_value s.nodes name new;
        entries =
            set s.entries a (record (entry_at s a) { parent = some new })
            ++ (record value { child = some a } ∷ []);
      }

  -- the set that holds one entry more, to which nothing points
  unfoldable pub push_entry : CatalogSet P → CatalogEntry P → CatalogSet P
  push_entry s entry = record s { entries = s.entries ++ (entry ∷ []) }

  unfoldable pub with_nodes : CatalogSet P → Hmap (List ℕ) ℕ → CatalogSet P
  with_nodes s nodes = record s { nodes = nodes }

  -- the first branch: no node has the name
  unfoldable pub create_first :
      CreateMemory → CatalogSet P → List ℕ → CatalogEntry P → Bool × CatalogSet P
  unfolding hmap_insert link_entry push_entry with_nodes make_entry
  create_first memory s name value =
      let dummy = length s.entries in
      let inserted = hmap_insert memory.buckets memory.node s.nodes name dummy in
      if memory.name_copy && memory.dummy
      then elim inserted.0 [
        | none ↦ (false, with_nodes s inserted.1)
        | some node ↦ (
          true,
          link_entry (push_entry (with_nodes s inserted.1) (make_entry invalid name)) name dummy
              value,
        )
      ]
      else (false, s)

  unfoldable pub catalog_set_create_entry :
      CreateMemory → CatalogSet P → List ℕ → CatalogEntry P → Bool × CatalogSet P
  unfolding hmap_get create_first link_entry entry_at
  catalog_set_create_entry memory s name value = elim (hmap_get s.nodes name) [
    | none ↦ create_first memory s name value
    | some node ↦
        if (entry_at s node.value).deleted
        then (true, link_entry s name node.value value)
        else (false, s)
  ]

  -- the address of the entry
  unfoldable pub catalog_set_get_entry : CatalogSet P → List ℕ → Option ℕ
  unfolding hmap_get entry_at
  catalog_set_get_entry s name = elim (hmap_get s.nodes name) [
    | none ↦ none
    | some node ↦ if (entry_at s node.value).deleted then none else some node.value
  ]

  -- The name is copied in any case.
  unfoldable pub catalog_set_drop_entry_impl : Bool → CatalogSet P → List ℕ → ℕ → CatalogSet P
  unfolding link_entry entry_at make_entry
  catalog_set_drop_entry_impl granted s name a =
      if granted
      then link_entry s name a (record (make_entry invalid (entry_at s a).name) { deleted = true })
      else s

  unfoldable pub catalog_set_drop_entry : Bool → CatalogSet P → List ℕ → Bool × CatalogSet P
  unfolding hmap_get catalog_set_drop_entry_impl
  catalog_set_drop_entry granted s name = elim (hmap_get s.nodes name) [
    | none ↦ (false, s)
    | some node ↦ (true, catalog_set_drop_entry_impl granted s name node.value)
  ]

  unfoldable pub visit {ℓ} :
      {C : Type ℓ} → (CatalogEntry P → C → C) → CatalogSet P → Option ℕ → C → C
  unfolding entry_at
  visit scan_fn s none ctx = ctx
  visit scan_fn s (some a) ctx = scan_fn (entry_at s a) ctx

  -- HMAP_FOREACH with at most `fuel` steps, `none` when they are not enough for the loop to end; the
  -- context is the state that `scan_fn` changes
  unfoldable pub scan_loop {ℓ} :
      {C : Type ℓ}
      → (CatalogEntry P → C → C)
      → ℕ
      → CatalogSet P
      → HmapIterator (List ℕ) ℕ
      → C
      → Option C
  unfolding hmap_iter_next hmap_iter_value visit
  scan_loop scan_fn zero s iter ctx = none
  scan_loop scan_fn (suc fuel) s iter ctx =
      let next = hmap_iter_next s.nodes iter in
      let rest = scan_loop scan_fn fuel s next.1 (visit scan_fn s (hmap_iter_value next.1) ctx) in
      if next.0 then rest else some ctx

  unfoldable pub catalog_set_scan {ℓ} :
      {C : Type ℓ} → (CatalogEntry P → C → C) → ℕ → CatalogSet P → C → Option C
  unfolding scan_loop hmap_iter_init
  catalog_set_scan scan_fn fuel s ctx = scan_loop scan_fn fuel s hmap_iter_init ctx

  unfoldable pub count_entry_callback : CatalogEntry P → ℕ → ℕ
  count_entry_callback entry count = if not entry.deleted then u32 (count + 1) else count

  unfoldable pub catalog_set_get_entry_count : ℕ → CatalogSet P → Option ℕ
  unfolding catalog_set_scan count_entry_callback
  catalog_set_get_entry_count fuel s = catalog_set_scan count_entry_callback fuel s 0
