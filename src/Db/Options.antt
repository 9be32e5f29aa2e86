-- ===== src/Db/Options.antt =====
-- src/db.rs: `DbOptions`.
use cdoc.Prelude.{ℕ, ◌*◌, Bytes}

-- `DEFAULT_MEMTABLE_SIZE`
abbrev pub default_memtable_size : ℕ
default_memtable_size = 4 * 1024 * 1024

pub record DbOptions : Type 0 where
  pub base_path : Bytes
  pub wal_path : Bytes
  pub memtable_size : ℕ

unfoldable pub new : Bytes → DbOptions
new path = record { base_path = path; wal_path = path; memtable_size = default_memtable_size }

unfoldable pub with_memtable_size : ℕ → DbOptions → DbOptions
with_memtable_size size options = record options { memtable_size = size }
