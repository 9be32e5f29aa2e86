-- ===== src/Sst/Tables.antt =====
-- What the database asks of the sorted string tables: the operations of `SSTableReader` and of
-- `SSTableWriter`, and the entries that a table holds.
use cdoc.Prelude.{◌^◌, ◌<◌, ◌≡◌, Bytes, AreBytes, length, Option, [], ◌∷◌}
use cdoc.Varint.{Parsed, found}
use cdoc.Hlc.{Timestamp}
use cdoc.BTreeMap
use cdoc.BTreeMap.{Entries, keep}
use cdoc.BTreeMap.Sorted.{IsSorted}
use cdoc.Sst.Prefix.{starts_with}

-- Keys and values whose lengths the file format has room for.
abbrev pub AreSmall : Entries → Type 0
AreSmall [] = Unit
AreSmall ((k, v) ∷ m) = (length k < 2 ^ 16) × (length v < 2 ^ 16) × AreSmall m

pub record SsTables : Type 1 where
  pub SsTableReader : Type 0
  pub get : Bytes → SsTableReader → Option Bytes
  pub scan_prefix : Bytes → SsTableReader → Entries
  -- The file that `SSTableWriter` leaves after `new(file, ts, ts)`, `add` for the entries in their
  -- order, and `finish`.
  pub written : Timestamp → Entries → Bytes
  -- `SSTableReader::open`
  pub open_table : Bytes → Parsed SsTableReader
  -- The table holds these entries, in the order of their keys.
  pub IsTable : SsTableReader → Entries → Type 0
  pub IsTable-IsSorted : (r : SsTableReader) (m : Entries) → IsTable r m → IsSorted m
  pub get-IsTable :
      (key : Bytes) (r : SsTableReader) (m : Entries) → IsTable r m → get key r ≡ BTreeMap.get key m
  pub scan_prefix-IsTable :
      (prefix : Bytes) (r : SsTableReader) (m : Entries)
      → AreBytes prefix
      → IsTable r m
      → scan_prefix prefix r ≡ keep (λ k. starts_with k prefix) m
  -- There is room for a file of the entries.
  pub Fits : Timestamp → Entries → Type 0
  pub open_table-written :
      (ts : Timestamp) (m : Entries)
      → IsSorted m
      → AreSmall m
      → Fits ts m
      → (r : SsTableReader) × (open_table (written ts m) ≡ found r) × IsTable r m
