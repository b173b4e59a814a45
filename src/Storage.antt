-- ===== src/Storage.antt =====
-- src/storage/table/storage.c and src/include/storage.h: constants, the database header, and the
-- outcome of code whose loops are run on fuel.
pub mod File
pub mod Buffer
pub mod Manager
pub mod Meta
pub mod Header
pub mod Serial
pub mod TableCatalog
pub mod TableData
mod Tests
use mustdb.Prelude.{ℕ, ◌+◌, ◌-◌, ◌*◌, ◌^◌}

abbrev pub block_size : ℕ
block_size = 8192

abbrev pub header_size : ℕ
header_size = 4096

abbrev pub file_buffer_block_size : ℕ
file_buffer_block_size = 4096

abbrev pub version_number : ℕ
version_number = 1

-- -1 as a block_id_t
abbrev pub invalid_block : ℕ
invalid_block = 2 ^ 64 - 1

abbrev pub magic_number : ℕ
magic_number = 0x56_4543_4442

abbrev pub file_buffer_header_size : ℕ
file_buffer_header_size = 8

abbrev pub block_start : ℕ
block_start = header_size * 3

-- A loop that runs on fuel: `running` is a loop that has not ended when the fuel is used up, and
-- `aborted` a failed assert.
pub data Run {ℓ} (A : Type ℓ) : Type ℓ where
  done : A → Run A
  aborted : Run A
  running : Run A

infixl 5 ◌>>=◌
abbrev pub ◌>>=◌ {ℓ κ} : {A : Type ℓ} {B : Type κ} → Run A → (A → Run B) → Run B
done a >>= f = f a
aborted >>= f = aborted
running >>= f = running
