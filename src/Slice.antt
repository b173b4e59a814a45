-- ===== src/Slice.antt =====
-- libv/src/slice.c and libv/src/include/slice.h: the growable array that every other part uses.
-- Its buffer is a list of cells, one for each element; `none` is a cell that nothing has written.
-- A NULL buffer is the empty list. The functions are those of a slice that is not NULL; `granted`
-- is whether malloc or realloc returns memory, and an element pointer is `none` when it is NULL.
pub mod Cells
pub mod Refine
pub mod Elements
pub mod Moves
pub mod Resize
mod Tests
use Cells.{realloc_cells}
use mustdb.Prelude.{
  blit, ℕ, zero, suc, ◌+◌, ◌-◌, ◌*◌, ◌/◌, ◌^◌, Bool, true, false, Option, none, some, List, [], ◌∷◌,
  get_or, set, replicate, take, drop, ltb, leb, ◌==◌, if◌then◌else◌, u64,
}

-- the `int` result: 0 or -1
pub data Rc : Type 0 where
  ok failed : Rc

pub record Slice {ℓ} (A : Type ℓ) : Type ℓ where
  pub cells : List (Option A)
  pub size : ℕ
  pub capacity : ℕ
  pub element_size : ℕ

abbrev pub slice_default_capacity : ℕ
slice_default_capacity = 16

abbrev pub slice_growth_factor : ℕ
slice_growth_factor = 2

-- how many whole elements fit what malloc(element_size * n) returns; the product is a usize
abbrev pub room : ℕ → ℕ → ℕ
room element_size n = u64 (element_size * n) / element_size

module _ {ℓ} {A : Type ℓ} where
  -- On failure only the buffer pointer has been written.
  unfoldable pub slice_init : Bool → Slice A → ℕ → ℕ → Rc × Slice A
  slice_init granted s element_size initial_capacity =
      let n = if initial_capacity == 0 then slice_default_capacity else initial_capacity in
      if granted
      then (
        ok,
        record {
          cells = replicate (room element_size n) none;
          size = 0;
          capacity = n;
          element_size = element_size;
        },
      )
      else (failed, record s { cells = [] })

  -- `none` is NULL. The struct is allocated first, then its buffer.
  unfoldable pub slice_create : Bool → Bool → ℕ → ℕ → Option (Slice A)
  unfolding slice_init
  slice_create struct_granted granted element_size initial_capacity =
      if element_size == 0
      then none
      else if struct_granted
      then (let blank : Slice A = record { cells = []; size = 0; capacity = 0; element_size = 0 } in
          let r = slice_init granted blank element_size initial_capacity in
          elim r.0 [ ok ↦ some r.1 | failed ↦ none ])
      else none

  unfoldable pub slice_deinit : Slice A → Slice A
  slice_deinit s = record { cells = []; size = 0; capacity = 0; element_size = 0 }

  unfoldable pub slice_grow : Bool → Slice A → Rc × Slice A
  slice_grow granted s =
      let n =
        if ltb 0 s.capacity
        then u64 (s.capacity * slice_growth_factor)
        else slice_default_capacity in
      if granted
      then (ok, record s { cells = realloc_cells (room s.element_size n) s.cells; capacity = n })
      else (failed, s)

  -- the store at the end of the slice, once there is room
  abbrev pub append_cell : Slice A → A → Slice A
  append_cell s x = record s { cells = set s.cells s.size (some x); size = u64 (s.size + 1) }

  unfoldable pub slice_push_back : Bool → Slice A → Option A → Rc × Slice A
  unfolding slice_grow
  slice_push_back granted s none = (failed, s)
  slice_push_back granted s (some x) =
      if leb s.capacity s.size
      then (let r = slice_grow granted s in
          elim r.0 [ ok ↦ (ok, append_cell r.1 x) | failed ↦ (failed, r.1) ])
      else (ok, append_cell s x)

  -- What goes through `out` is `none` where nothing is copied, or an unwritten cell.
  unfoldable pub slice_pop_back : Slice A → Rc × Option A × Slice A
  slice_pop_back s =
      if s.size == 0
      then (failed, none, s)
      else (ok, get_or s.cells (s.size - 1) none, record s { size = s.size - 1 })

  -- slice_get and slice_get_copy: `none` is NULL and -1.
  unfoldable pub slice_get : Slice A → ℕ → Option A
  slice_get s index = if leb s.size index then none else get_or s.cells index none

  unfoldable pub slice_set : Slice A → ℕ → Option A → Rc × Slice A
  slice_set s index none = (failed, s)
  slice_set s index (some x) =
      if leb s.size index
      then (failed, s)
      else (ok, record s { cells = set s.cells index (some x) })

  unfoldable pub slice_clear : Slice A → Slice A
  slice_clear s = record s { size = 0 }

  unfoldable pub slice_reserve : Bool → Slice A → ℕ → Rc × Slice A
  slice_reserve granted s n =
      if leb n s.capacity
      then (ok, s)
      else if granted
      then (ok, record s { cells = realloc_cells (room s.element_size n) s.cells; capacity = n })
      else (failed, s)

  -- the loop `for (i = size; i < new_size; i++)`, over the rounds left
  unfoldable pub fill_cells : ℕ → ℕ → A → List (Option A) → List (Option A)
  fill_cells zero i x cells = cells
  fill_cells (suc n) i x cells = fill_cells n (i + 1) x (set cells i (some x))

  -- `zero_value` is the element of zero bytes, stored where no default is given.
  unfoldable pub slice_resize : Bool → A → Slice A → ℕ → Option A → Rc × Slice A
  unfolding slice_reserve fill_cells
  slice_resize granted zero_value s new_size default_value =
      let x : A = elim default_value [ none ↦ zero_value | some d ↦ d ] in
      let r = slice_reserve granted s new_size in
      elim r.0 [
        | failed ↦ (failed, r.1)
        | ok ↦ (
          ok,
          record (r.1) {
            cells = fill_cells (new_size - s.size) s.size x r.1.cells;
            size = new_size;
          },
        )
      ]

  -- memmove of the tail one cell up, then the store
  abbrev pub insert_cell : Slice A → ℕ → A → Slice A
  insert_cell s index x = record s {
    cells =
        set
          (if ltb index s.size
            then blit (index + 1) (take (s.size - index) (drop index s.cells)) s.cells
            else s.cells)
          index (some x);
    size = u64 (s.size + 1);
  }

  unfoldable pub slice_insert : Bool → Slice A → ℕ → Option A → Rc × Slice A
  unfolding slice_grow
  slice_insert granted s index none = (failed, s)
  slice_insert granted s index (some x) =
      if ltb s.size index
      then (failed, s)
      else if leb s.capacity s.size
      then (let r = slice_grow granted s in
          elim r.0 [ ok ↦ (ok, insert_cell r.1 index x) | failed ↦ (failed, r.1) ])
      else (ok, insert_cell s index x)

  -- the removed element, and the tail moved one cell down
  unfoldable pub slice_erase : Slice A → ℕ → Rc × Option A × Slice A
  slice_erase s index = if leb s.size index then (failed, none, s) else (
    ok,
    get_or s.cells index none,
    record s {
      cells =
          if ltb index (s.size - 1)
          then blit index (take (s.size - index - 1) (drop (index + 1) s.cells)) s.cells
          else s.cells;
      size = s.size - 1;
    },
  )

  -- `compare(current, element) == 0` is the test `same`; `none` is -1
  unfoldable pub find_from : (Option A → Bool) → List (Option A) → ℕ → ℕ → Option ℕ
  find_from same cells i zero = none
  find_from same cells i (suc n) =
      let rest = find_from same cells (i + 1) n in
      if same (get_or cells i none) then some i else rest

  unfoldable pub slice_find : Slice A → (Option A → Bool) → Option ℕ
  unfolding find_from
  slice_find s same = find_from same s.cells 0 s.size

  unfoldable pub slice_front : Slice A → Option A
  slice_front s = if s.size == 0 then none else get_or s.cells 0 none

  unfoldable pub slice_back : Slice A → Option A
  slice_back s = if s.size == 0 then none else get_or s.cells (s.size - 1) none

-- The iterator's index; it starts before the first element, at (usize)-1.
abbrev pub slice_iter_init : ℕ
slice_iter_init = 2 ^ 64 - 1

module _ {ℓ} {A : Type ℓ} where
  unfoldable pub slice_iter_next : Slice A → ℕ → Bool × ℕ
  slice_iter_next s index = let i = u64 (index + 1) in (ltb i s.size, i)

  unfoldable pub slice_iter_get : Slice A → ℕ → Option A
  slice_iter_get s index = if leb s.size index then none else get_or s.cells index none

  -- SLICE_FOREACH: what the loop body sees, over at most `fuel` rounds
  unfoldable pub slice_foreach : ℕ → Slice A → ℕ → List (Option A)
  unfolding slice_iter_next slice_iter_get
  slice_foreach zero s index = []
  slice_foreach (suc fuel) s index =
      let step = slice_iter_next s index in
      let rest = slice_foreach fuel s step.1 in
      if step.0 then slice_iter_get s step.1 ∷ rest else []
