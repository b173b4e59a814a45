-- ===== src/Vectors.antt =====
-- src/utils/vector_types.c and src/utils/operator.c, with their headers: vectors of elements of one
-- size, and the loops that copy their elements into a flat buffer. Memory is lists of bytes; what
-- lies outside a list is not touched, or is read as 0.
pub mod Copies
pub mod Distance
mod Tests
use mustdb.Parser.{TypeId, invalid, int8, int16, int32, int64, float32, float64}
use mustdb.Prelude.{
  ℕ, zero, suc, ◌+◌, ◌-◌, ◌*◌, ◌^◌, Bool, true, false, Option, none, some, List, [], take, drop,
  blit, replicate, get_or, leb, ◌==◌, if◌then◌else◌, u64,
}

pub record MustDbVector : Type 0 where
  pub type : TypeId
  pub count : ℕ
  pub bytes : List ℕ

unfoldable pub get_typeid_size : TypeId → ℕ
get_typeid_size int8 = 1
get_typeid_size int16 = 2
get_typeid_size int32 = 4
get_typeid_size int64 = 8
get_typeid_size float32 = 4
get_typeid_size float64 = 8
get_typeid_size invalid = 0

unfoldable pub must_db_vector_init : TypeId → MustDbVector
must_db_vector_init type = record { type = type; count = 0; bytes = [] }

-- `size` and `data` are those of the slice.
unfoldable pub must_db_vector_from_slice : ℕ → List ℕ → TypeId → MustDbVector
must_db_vector_from_slice size bytes type = record { type = type; count = size; bytes = bytes }

unfoldable pub must_db_vector_deinit : MustDbVector → MustDbVector
must_db_vector_deinit vector = record vector { count = 0; bytes = [] }

unfoldable pub must_db_vector_size : MustDbVector → ℕ
must_db_vector_size vector = vector.count

unfoldable pub must_db_vector_get_data : MustDbVector → List ℕ
must_db_vector_get_data vector = vector.bytes

-- where element `k` comes from
unfoldable pub selected : Option (List ℕ) → ℕ → ℕ
selected none k = k
selected (some sel_vector) k = get_or sel_vector k 0

-- the element at an index
unfoldable pub element_at : List ℕ → ℕ → ℕ → List ℕ
element_at src elem_size i = take elem_size (drop (i * elem_size) src)

-- the loop of copy_fn and of copy_fn_set_null: `cell k` goes to place `j`, for the `n` elements left
unfoldable pub copy_loop : (ℕ → List ℕ) → ℕ → ℕ → ℕ → ℕ → List ℕ → List ℕ
copy_loop cell elem_size zero k j dst = dst
copy_loop cell elem_size (suc n) k j dst =
    copy_loop cell elem_size n (k + 1) (j + 1) (blit (j * elem_size) (cell k) dst)

-- how often `for (k = offset; k < offset + count; k++)` goes round, whose bound is a usize
abbrev pub rounds : ℕ → ℕ → ℕ
rounds offset count = u64 (offset + count) - offset

unfoldable pub copy_fn : List ℕ → List ℕ → ℕ → ℕ → ℕ → Option (List ℕ) → List ℕ
unfolding copy_loop element_at selected
copy_fn src dst offset count elem_size sel_vector =
    copy_loop (λ k. element_at src elem_size (selected sel_vector k)) elem_size
      (rounds offset count) offset 0 dst

-- an element, or zeros where the mask has a mark
unfoldable pub masked_element : List ℕ → List ℕ → ℕ → ℕ → List ℕ
unfolding element_at
masked_element nullmask src elem_size i =
    if get_or nullmask i 0 == 0 then element_at src elem_size i else replicate elem_size 0

unfoldable pub copy_fn_set_null :
    List ℕ → List ℕ → ℕ → ℕ → ℕ → Option (List ℕ) → Option (List ℕ) → List ℕ
unfolding copy_fn copy_loop masked_element selected
copy_fn_set_null src dst offset count elem_size sel_vector none =
    copy_fn src dst offset count elem_size sel_vector
copy_fn_set_null src dst offset count elem_size sel_vector (some nullmask) =
    copy_loop (λ k. masked_element nullmask src elem_size (selected sel_vector k)) elem_size
      (rounds offset count) offset 0 dst

-- `none` is a failed assertion.
unfoldable pub generic_copy_loop :
    MustDbVector → List ℕ → ℕ → ℕ → Bool → Option (List ℕ) → Option (List ℕ) → Option (List ℕ)
unfolding copy_fn copy_fn_set_null get_typeid_size
generic_copy_loop source target offset element_count set_null sel_vector nullmask =
    let elements = if element_count == 0 then source.count else element_count in
    let elem_size = get_typeid_size source.type in
    if source.count == 0
    then some target
    else if leb (u64 (offset + elements)) source.count
    then some (
        if set_null
        then copy_fn_set_null source.bytes target offset elements elem_size sel_vector nullmask
        else copy_fn source.bytes target offset elements elem_size sel_vector)
    else none

unfoldable pub copy_to_storage : MustDbVector → List ℕ → ℕ → ℕ → Option (List ℕ)
unfolding generic_copy_loop
copy_to_storage source target offset element_count =
    generic_copy_loop source target offset element_count false none none
