-- ===== src/Parser/RoundTrip.antt =====
-- The bytes of a table's description, as a checkpoint writes them and the parser reads them.
use mathlib.Core.Path.{subst}
use mustdb.Parser.{
  SqlType, vector, code, of_code, ColumnOptions, unset, vector_dim, ColumnDefinition,
  CreateTableInfo, read_options, read_column, read_columns, create_table_info_deserialize,
}
use mustdb.Prelude.Bytes.{to_bytes}
use mustdb.Prelude.{
  ℕ, suc, ◌+◌, ◌^◌, ◌<◌, ◌≡◌, sym, arith, true, List, [], ◌∷◌, ◌++◌, length, append-nil,
  length-append,
}
use mustdb.Storage.Serial.Laws.{
  Writes, ReadsAs, string_bytes, nothing-Writes, then_also-Writes, write_word-Writes,
  write_string-Writes, pure-ReadsAs, >>=-ReadsAs, read_word-ReadsAs, read_string-ReadsAs,
}
use mustdb.Storage.Serial.{Read, pure, ◌>>=◌}
use mustdb.Storage.TableCatalog.{
  dim_of, write_options, write_column, write_columns, write_table_catalog,
}

-- the bytes of a description
unfoldable pub options_bytes : SqlType → ColumnOptions → List ℕ
options_bytes vector options = to_bytes 2 (dim_of options)
options_bytes _ options = []

unfoldable pub column_bytes : ColumnDefinition → List ℕ
unfolding options_bytes string_bytes
column_bytes c = string_bytes c.name ++ (to_bytes 1 (code c.type) ++ options_bytes c.type c.options)

unfoldable pub columns_bytes : List ColumnDefinition → List ℕ
unfolding column_bytes
columns_bytes [] = []
columns_bytes (c ∷ cs) = column_bytes c ++ columns_bytes cs

unfoldable pub table_bytes : CreateTableInfo → List ℕ
unfolding columns_bytes string_bytes
table_bytes t =
    string_bytes t.schema_name
    ++ (string_bytes t.table_name ++ (to_bytes 4 (length t.columns) ++ columns_bytes t.columns))

pub table_bytes-lt : (t : CreateTableInfo) → 0 < length (table_bytes t)
unfolding table_bytes string_bytes
table_bytes-lt t = rw length-append (omega arith)

-- A vector has a dimension of 16 bits, another type has no options.
abbrev pub HasOptions : SqlType → ColumnOptions → Type 0
HasOptions vector unset = ⊥
HasOptions vector (vector_dim d) = d < 2 ^ 16
HasOptions _ unset = Unit
HasOptions _ (vector_dim d) = ⊥

-- The column's oid is its index, its type is named or a byte that no name stands for.
pub record IsColumn (i : ℕ) (c : ColumnDefinition) : Type 0 where
  pub index : c.oid ≡ i
  pub name : length c.name < 2 ^ 64
  pub type : of_code (code c.type) ≡ c.type
  pub byte : code c.type < 2 ^ 8
  pub options : HasOptions c.type c.options

abbrev pub AreColumns : ℕ → List ColumnDefinition → Type 0
AreColumns i [] = Unit
AreColumns i (c ∷ cs) = IsColumn i c × AreColumns (i + 1) cs

pub record IsTable (t : CreateTableInfo) : Type 0 where
  pub schema_name : length t.schema_name < 2 ^ 64
  pub table_name : length t.table_name < 2 ^ 64
  pub few : length t.columns < 2 ^ 32
  pub columns : AreColumns 0 t.columns
  pub fresh : t.if_not_exists ≡ true

module _ (fuel : ℕ) where
  options-Writes :
      (t : SqlType) (o : ColumnOptions) → Writes (write_options (suc fuel) t o) (options_bytes t o)
  unfolding write_options options_bytes
  options-Writes vector o = write_word-Writes fuel 2 (dim_of o)
  options-Writes _ o = nothing-Writes

  column-Writes : (c : ColumnDefinition) → Writes (write_column (suc fuel) c) (column_bytes c)
  unfolding write_column column_bytes
  column-Writes c = then_also-Writes _ _ _ _ (write_string-Writes fuel c.name) (
      then_also-Writes _ _ _ _ (write_word-Writes fuel 1 (code c.type))
        (options-Writes c.type c.options))

  columns-Writes :
      (cs : List ColumnDefinition) → Writes (write_columns (suc fuel) cs) (columns_bytes cs)
  unfolding write_columns columns_bytes
  columns-Writes [] = nothing-Writes
  columns-Writes (c ∷ cs) = then_also-Writes _ _ _ _ (column-Writes c) (columns-Writes cs)

  pub table_catalog-Writes :
      (t : CreateTableInfo) → Writes (write_table_catalog (suc fuel) t) (table_bytes t)
  unfolding write_table_catalog table_bytes
  table_catalog-Writes t = then_also-Writes _ _ _ _ (write_string-Writes fuel t.schema_name) (
      then_also-Writes _ _ _ _ (write_string-Writes fuel t.table_name) (
        then_also-Writes _ _ _ _ (write_word-Writes fuel 4 (length t.columns))
          (columns-Writes t.columns)))

  options-ReadsAs :
      (t : SqlType) (o : ColumnOptions)
      → HasOptions t o
      → ReadsAs (read_options (suc fuel) t) (options_bytes t o) o
  unfolding read_options options_bytes
  options-ReadsAs vector unset h = absurd h
  options-ReadsAs vector (vector_dim d) h =
      subst (λ (bs : List ℕ). ReadsAs (read_options (suc fuel) vector) bs (vector_dim d))
        (append-nil (to_bytes 2 d))
        (>>=-ReadsAs _ _ _ _ _ _ (read_word-ReadsAs fuel 2 d (omega arith))
          (pure-ReadsAs (vector_dim d)))
  options-ReadsAs _ unset h = pure-ReadsAs unset
  options-ReadsAs _ (vector_dim d) h = absurd h

  -- a last `pure` reads nothing more
  map-ReadsAs :
      {A B : Type 0} (f : Read A) (g : A → B) (bytes : List ℕ) (a : A)
      → ReadsAs f bytes a
      → ReadsAs (f >>= λ x. pure (g x)) bytes (g a)
  map-ReadsAs {A} {B} f g bytes a h =
      subst (λ (bs : List ℕ). ReadsAs (f >>= λ x. pure (g x)) bs (g a)) (append-nil bytes)
        (>>=-ReadsAs f (λ x. pure (g x)) bytes [] a (g a) h (pure-ReadsAs (g a)))

  column-ReadsAs :
      (i : ℕ) (c : ColumnDefinition)
      → IsColumn i c
      → ReadsAs (read_column (suc fuel) i) (column_bytes c) c
  unfolding read_column column_bytes
  column-ReadsAs i c h =
      let t = of_code (code c.type) in
      let options : ReadsAs (read_options (suc fuel) t) (options_bytes c.type c.options) c.options =
        subst
          (λ (x : SqlType).
            ReadsAs (read_options (suc fuel) x) (options_bytes c.type c.options) c.options)
          (sym h.type) (options-ReadsAs c.type c.options h.options) in
      let same : record { name = c.name; oid = i; type = t; options = c.options } ≡ c =
        λ j. record { name = c.name; oid = sym h.index j; type = h.type j; options = c.options } in
      subst (ReadsAs (read_column (suc fuel) i) (column_bytes c)) same (
        >>=-ReadsAs _ _ (string_bytes c.name)
          (to_bytes 1 (code c.type) ++ options_bytes c.type c.options) c.name _
          (read_string-ReadsAs fuel c.name h.name)
          (>>=-ReadsAs _ _ (to_bytes 1 (code c.type)) (options_bytes c.type c.options) (code c.type)
            _ (read_word-ReadsAs fuel 1 (code c.type) h.byte)
            (map-ReadsAs (read_options (suc fuel) t)
              (λ o. record { name = c.name; oid = i; type = t; options = o })
              (options_bytes c.type c.options) c.options options)))

  columns-ReadsAs :
      (i : ℕ) (cs : List ColumnDefinition)
      → AreColumns i cs
      → ReadsAs (read_columns (suc fuel) (length cs) i) (columns_bytes cs) cs
  unfolding read_columns columns_bytes
  columns-ReadsAs i [] h = pure-ReadsAs []
  columns-ReadsAs i (c ∷ cs) h =
      >>=-ReadsAs _ _ (column_bytes c) (columns_bytes cs) c (c ∷ cs) (column-ReadsAs i c h.0) (
        map-ReadsAs (read_columns (suc fuel) (length cs) (i + 1)) (λ r. c ∷ r) (columns_bytes cs) cs
          (columns-ReadsAs (i + 1) cs h.1))

  pub table_catalog-ReadsAs :
      (t : CreateTableInfo)
      → IsTable t
      → ReadsAs (create_table_info_deserialize (suc fuel)) (table_bytes t) t
  unfolding create_table_info_deserialize table_bytes
  table_catalog-ReadsAs t h =
      let n = to_bytes 4 (length t.columns) in
      let cols = columns_bytes t.columns in
      let table : List ColumnDefinition → CreateTableInfo = λ cs. record {
        schema_name = t.schema_name;
        table_name = t.table_name;
        if_not_exists = true;
        columns = cs;
      } in
      let same : table t.columns ≡ t = λ j. record (t) { if_not_exists = sym h.fresh j } in
      subst (ReadsAs (create_table_info_deserialize (suc fuel)) (table_bytes t)) same (
        >>=-ReadsAs _ _ (string_bytes t.schema_name) (string_bytes t.table_name ++ (n ++ cols))
          t.schema_name _ (read_string-ReadsAs fuel t.schema_name h.schema_name)
          (>>=-ReadsAs _ _ (string_bytes t.table_name) (n ++ cols) t.table_name _
            (read_string-ReadsAs fuel t.table_name h.table_name)
            (>>=-ReadsAs _ _ n cols (length t.columns) _
              (read_word-ReadsAs fuel 4 (length t.columns) h.few)
              (map-ReadsAs (read_columns (suc fuel) (length t.columns) 0) table cols t.columns
                (columns-ReadsAs 0 t.columns h.columns)))))
