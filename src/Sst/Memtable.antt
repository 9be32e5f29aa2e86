-- ===== src/Sst/Memtable.antt =====
-- src/sst/memtable.rs: the buffer of recent writes.
pub mod Laws
use cdoc.Prelude.{ℕ, ◌+◌, ◌-◌, Bytes, length, Option, none, some, []}
use cdoc.BTreeMap
use cdoc.BTreeMap.{Entries}
use cdoc.Sst.Prefix.{prefix_successor}

-- `size` is a `usize`, which the sizes of the keys and values in memory do not exceed.
pub record MemTable : Type 0 where
  pub entries : Entries
  pub size : ℕ

unfoldable pub new : MemTable
new = record { entries = []; size = 0 }

-- The size after an insertion over the value `old`, if there was one.
abbrev pub resize : ℕ → Bytes → ℕ → Option Bytes → ℕ
resize size key added (some old_val) = size - length old_val + (added - length key)
resize size key added none = size + added

-- The new table; the previous value is `get` of the table before.
unfoldable pub insert : Bytes → Bytes → MemTable → MemTable
insert key value t = record {
  entries = BTreeMap.insert key value t.entries;
  size = resize t.size key (length key + length value) (BTreeMap.get key t.entries);
}

unfoldable pub get : Bytes → MemTable → Option Bytes
get key t = BTreeMap.get key t.entries

unfoldable pub scan : Bytes → MemTable → Entries
scan prefix t = BTreeMap.range prefix (prefix_successor prefix) t.entries

unfoldable pub iter : MemTable → Entries
iter t = t.entries

unfoldable pub estimated_size : MemTable → ℕ
estimated_size t = t.size
