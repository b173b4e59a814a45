-- ===== src/Storage/Serial.antt =====
-- The SERIALIZER_WRITE and DESERIALIZER_READ macros of src/include/storage.h over the streams of
-- storage.c. A text is the list of its characters before the NUL.
pub mod Laws
pub mod Flush
use mustdb.Prelude.Bytes.{to_bytes, from_bytes}
use mustdb.Prelude.{ℕ, List, length}
use mustdb.Storage.Manager.{Manager}
use mustdb.Storage.Meta.{Writer, write_data, Reader, read_data}
use mustdb.Storage.{Run, done, aborted, running}

-- what writes to a stream, and what reads a value from one
abbrev pub Write : Type 0
Write = Writer → Manager → Run (Writer × Manager)

abbrev pub Read : Type 0 → Type 0
Read A = Reader → Manager → Run (A × Reader × Manager)

abbrev pub pure : {A : Type 0} → A → Read A
pure a r m = done (a, r, m)

abbrev pub nothing : Write
nothing w m = done (w, m)

module _ {A B : Type 0} where
  abbrev pub and_then : Run (A × Reader × Manager) → (A → Read B) → Run (B × Reader × Manager)
  and_then (done (a, r, m)) k = k a r m
  and_then aborted k = aborted
  and_then running k = running

  infixl 5 ◌>>=◌
  abbrev pub ◌>>=◌ : Read A → (A → Read B) → Read B
  f >>= k = λ r m. and_then (f r m) k

abbrev pub then_write : Run (Writer × Manager) → Write → Run (Writer × Manager)
then_write (done (w, m)) k = k w m
then_write aborted k = aborted
then_write running k = running

infixr 6 ◌then_also◌
abbrev pub ◌then_also◌ : Write → Write → Write
f then_also g = λ w m. then_write (f w m) g

-- SERIALIZER_WRITE_TYPE of an integer of `k` bytes
unfoldable pub write_word : ℕ → ℕ → ℕ → Write
write_word fuel k value w m = write_data fuel w m (to_bytes k value)

-- SERIALIZER_WRITE_STRING: the length and the characters
unfoldable pub write_string : ℕ → List ℕ → Write
unfolding write_word
write_string fuel str = write_word fuel 8 (length str) then_also λ w m. write_data fuel w m str

-- DESERIALIZER_READ_TYPE of an integer of `k` bytes, and DESERIALIZER_READ_STRING
unfoldable pub read_word : ℕ → ℕ → Read ℕ
read_word fuel k = do bytes ← λ r m. read_data fuel r m k; pure (from_bytes bytes)

unfoldable pub read_string : ℕ → Read (List ℕ)
unfolding read_word
read_string fuel = do len ← read_word fuel 8; λ r m. read_data fuel r m len
