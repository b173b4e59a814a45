-- ===== src/Storage/Serial/Laws.antt =====
-- What a writer puts into the block, and what a reader takes from it: rules for sequences.
use mathlib.Core.Path.{subst}
use mustdb.Prelude.Bytes.{to_bytes, from_bytes, from_bytes-to_bytes, length-to_bytes}
use mustdb.Prelude.{
  ℕ, suc, ◌+◌, ◌^◌, ◌≤◌, ◌<◌, ◌≡◌, refl, sym, ap, ◌∙◌, arith, List, [], ◌++◌, append_assoc,
  append-nil, length, length-append,
}
use mustdb.Storage.Manager.{Manager}
use mustdb.Storage.Meta.Stream.{Wrote, Reads, write_data-Wrote, read_data-Reads}
use mustdb.Storage.Meta.{Writer, Reader, write_data, read_data}
use mustdb.Storage.Serial.{
  Write, Read, pure, nothing, and_then, ◌>>=◌, then_write, ◌then_also◌, write_word, write_string,
  read_word, read_string,
}
use mustdb.Storage.{Run, done}

-- Where there is room for them in the block, `f` writes the bytes behind what was written before.
unfoldable pub Writes : Write → List ℕ → Type 0
Writes f bytes =
    (w : Writer) (m : Manager) (old : List ℕ)
    → Wrote w old
    → 8 + length old + length bytes ≤ w.block.fb.size
    → (w' : Writer) × (f w m ≡ done (w', m))
      × Wrote w' (old ++ bytes)
      × (w'.block.id ≡ w.block.id)
      × (w'.block.fb.size ≡ w.block.fb.size)

-- In front of the bytes, `f` reads the value and stands behind them.
unfoldable pub ReadsAs : {A : Type 0} → Read A → List ℕ → A → Type 0
ReadsAs f bytes a =
    (r : Reader) (m : Manager) (rest : List ℕ)
    → Reads r (bytes ++ rest)
    → (r' : Reader) × (f r m ≡ done (a, r', m)) × Reads r' rest

pub nothing-Writes : Writes nothing []
unfolding Writes
nothing-Writes w m old h fits =
    (w, refl, subst (λ (t : List ℕ). Wrote w t) (sym (append-nil old)) h, refl, refl)

pub then_also-Writes :
    (f g : Write) (a b : List ℕ) → Writes f a → Writes g b → Writes (f then_also g) (a ++ b)
unfolding Writes
then_also-Writes f g a b hf hg w m old h fits =
    let n = length-append a b in
    let (w1, e1, h1, i1, s1) = hf w m old h (omega (arith, n, fits)) in
    let (w2, e2, h2, i2, s2) =
      hg w1 m (old ++ a) h1 (rw (s1, length-append) (omega (arith, n, fits))) in
    (
      w2,
      ap (λ (x : Run (Writer × Manager)). then_write x g) e1 ∙ e2,
      subst (λ (t : List ℕ). Wrote w2 t) (append_assoc old a b) h2,
      i2 ∙ i1,
      s2 ∙ s1,
    )

pub write_data-Writes :
    (fuel : ℕ) (bytes : List ℕ) → Writes (λ w m. write_data (suc fuel) w m bytes) bytes
unfolding Writes
write_data-Writes fuel bytes w m old h fits = write_data-Wrote fuel w m old bytes h fits

pub write_word-Writes : (fuel k v : ℕ) → Writes (write_word (suc fuel) k v) (to_bytes k v)
unfolding write_word
write_word-Writes fuel k v = write_data-Writes fuel (to_bytes k v)

unfoldable pub string_bytes : List ℕ → List ℕ
string_bytes s = to_bytes 8 (length s) ++ s

pub write_string-Writes :
    (fuel : ℕ) (s : List ℕ) → Writes (write_string (suc fuel) s) (string_bytes s)
unfolding write_string string_bytes
write_string-Writes fuel s =
    then_also-Writes _ _ (to_bytes 8 (length s)) s (write_word-Writes fuel 8 (length s))
      (write_data-Writes fuel s)

pub pure-ReadsAs : {A : Type 0} (a : A) → ReadsAs (pure a) [] a
unfolding ReadsAs
pure-ReadsAs a r m rest h = (r, refl, h)

pub >>=-ReadsAs :
    {A B : Type 0} (f : Read A) (k : A → Read B) (x y : List ℕ) (a : A) (b : B)
    → ReadsAs f x a
    → ReadsAs (k a) y b
    → ReadsAs (f >>= k) (x ++ y) b
unfolding ReadsAs
>>=-ReadsAs {A} f k x y a b hf hk r m rest h =
    let (r1, e1, h1) =
      hf r m (y ++ rest) (subst (λ (t : List ℕ). Reads r t) (append_assoc x y rest) h) in
    let (r2, e2, h2) = hk r1 m rest h1 in
    (r2, ap (λ (t : Run (A × Reader × Manager)). and_then t k) e1 ∙ e2, h2)

pub read_data-ReadsAs :
    (fuel : ℕ) (bytes : List ℕ)
    → ReadsAs (λ r m. read_data (suc fuel) r m (length bytes)) bytes bytes
unfolding ReadsAs
read_data-ReadsAs fuel bytes r m rest h = read_data-Reads fuel r m bytes rest h

pub read_word-ReadsAs :
    (fuel k v : ℕ) → v < 256 ^ k → ReadsAs (read_word (suc fuel) k) (to_bytes k v) v
unfolding read_word ReadsAs
read_word-ReadsAs fuel k v small r m rest h =
    let (r1, e1, h1) = read_data-Reads fuel r m (to_bytes k v) rest h in
    (
      r1,
      ap (λ (n : ℕ). and_then (read_data (suc fuel) r m n) (λ bytes. pure (from_bytes bytes)))
            (sym (length-to_bytes k v))
          ∙ ap
              (λ (t : Run (List ℕ × Reader × Manager)).
                and_then t (λ bytes. pure (from_bytes bytes)))
              e1
          ∙ ap (λ (n : ℕ). done (n, r1, m)) (from_bytes-to_bytes k v small),
      h1,
    )

pub read_string-ReadsAs :
    (fuel : ℕ) (s : List ℕ)
    → length s < 2 ^ 64
    → ReadsAs (read_string (suc fuel)) (string_bytes s) s
unfolding read_string string_bytes
read_string-ReadsAs fuel s small =
    >>=-ReadsAs _ (λ len r m. read_data (suc fuel) r m len) (to_bytes 8 (length s)) s (length s) s
      (read_word-ReadsAs fuel 8 (length s) small) (read_data-ReadsAs fuel s)
