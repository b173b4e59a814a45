-- ===== src/Hmap/Tests.antt =====
-- Runs of the hash table, and the theorems on it at small tables with numbers as keys.
use mustdb.Hash.{hmap_int_hash, murmurhash32}
use mustdb.Hmap.Buckets.{IsMap}
use mustdb.Hmap.Chain.{IsEquality}
use mustdb.Hmap.Laws.{hmap_init-IsMap, hmap_insert-IsMap, get-insert_self, get-insert_other}
use mustdb.Hmap.Lookup.{get-delete_self}
use mustdb.Hmap.{
  Hmap, hmap_init, hmap_insert, hmap_get, hmap_get_value, hmap_delete, hmap_iter_init,
  hmap_iter_next, hmap_iter_value,
}
use mustdb.Prelude.{ℕ, ◌*◌, ◌^◌, ◌<◌, ◌≡◌, ◌≢◌, refl, arith, true, none, some, ◌==◌, ==_iff}

same_number : IsEquality ◌==◌
same_number = ==_iff

-- a table of one bucket, so that it grows at the second key
abbrev new_table : Hmap ℕ ℕ
new_table = hmap_init 1 hmap_int_hash ◌==◌

abbrev one_key : Hmap ℕ ℕ
one_key = (hmap_insert true true new_table 7 70).1

abbrev two_keys : Hmap ℕ ℕ
two_keys = (hmap_insert true true one_key 8 80).1

grown_once : two_keys.nbuckets ≡ 2
unfolding hmap_init hmap_insert hmap_int_hash murmurhash32
grown_once = refl

first_visited : hmap_iter_value (hmap_iter_next two_keys hmap_iter_init).1 ≡ some 70
unfolding hmap_init hmap_insert hmap_int_hash murmurhash32 hmap_iter_init hmap_iter_next
    hmap_iter_value
first_visited = refl

new_table-IsMap : IsMap new_table
new_table-IsMap = (hmap_init-IsMap 1 hmap_int_hash ◌==◌ 7 same_number (omega arith)).0

new_narrow : new_table.nbuckets * 2 < 2 ^ 64
unfolding hmap_init
new_narrow = omega arith

one_key-IsMap : IsMap one_key
one_key-IsMap = hmap_insert-IsMap new_table new_table-IsMap new_narrow true true 7 70

one_narrow : one_key.nbuckets * 2 < 2 ^ 64
unfolding hmap_init hmap_insert hmap_int_hash murmurhash32
one_narrow = omega arith

differ : ◌≢◌ {A = ℕ} 8 7
differ e = absurd (omega (arith, e))

get-insert_self_example : hmap_get_value (hmap_insert true true one_key 8 80).1 8 ≡ some 80
get-insert_self_example = get-insert_self one_key one_key-IsMap one_narrow true 8 80

get-insert_other_example : hmap_get (hmap_insert true true one_key 8 80).1 7 ≡ hmap_get one_key 7
get-insert_other_example = get-insert_other one_key one_key-IsMap one_narrow true true 8 7 80 differ

get-delete_self_example :
    ((hmap_delete one_key 7).0 ≡ hmap_get_value one_key 7)
    × (hmap_get (hmap_delete one_key 7).1 7 ≡ none)
    × IsMap (hmap_delete one_key 7).1
get-delete_self_example = get-delete_self one_key one_key-IsMap 7
