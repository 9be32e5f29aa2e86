-- ===== src/Db/Records.antt =====
-- The records of the log and the table that they restore.
use mathlib.Core.Option.{some-injective}
use cdoc.Prelude.{
  ◌^◌, ◌<◌, List, [], ◌∷◌, ◌++◌, Bytes, length, none, some, ◌≡◌, refl, arith, inl, inr, All,
}
use cdoc.BTreeMap.{Entries}
use cdoc.Hlc.{Timestamp}
use cdoc.Sst.Memtable
use cdoc.Sst.Memtable.{MemTable}
use cdoc.Sst.Memtable.Laws.{IsValid, new-IsValid, insert-IsValid}
use cdoc.Sst.Tables.{AreSmall}
use cdoc.Wal.{WalRecord}
use cdoc.Wal.Replay.{IsRecord}
use cdoc.Wal.Log.{committed}
use cdoc.Db.{restore, restore_all}
use cdoc.Db.Lookup.{AreSmall-insert}

pub committed-nil : committed [] ≡ []
unfolding committed
committed-nil = refl

pub restore_all-append :
    (rs : List WalRecord) (r : WalRecord) (m : MemTable)
    → restore_all (rs ++ r ∷ []) m ≡ restore r.key r.value (restore_all rs m)
restore_all-append [] r m = refl
restore_all-append (x ∷ rs) r m = restore_all-append rs r (restore x.key x.value m)

pub restore-insert :
    (k v : Bytes) (m : MemTable) → 0 < length k → restore k v m ≡ Memtable.insert k v m
restore-insert [] v m h = absurd (omega arith)
restore-insert (b ∷ k) v m h = refl

-- Writes that the log can hold, to keys that are not empty.
abbrev pub AreWrites : Entries → Type 0
AreWrites [] = Unit
AreWrites ((k, v) ∷ ws) = (0 < length k) × (length k < 2 ^ 15) × (length v < 2 ^ 16) × AreWrites ws

pub write_of-IsRecord :
    (k v : Bytes)
    → 0 < length k
    → length k < 2 ^ 15
    → length v < 2 ^ 16
    → IsRecord (record { key = k; value = v; timestamp = none })
write_of-IsRecord k v p hk hv = record {
  key_fits = hk;
  value_fits = hv;
  keyed = inl p;
  stamped = λ ts e. absurd (cc e);
}

-- The record of `write_commit`.
abbrev pub commit_of : Timestamp → WalRecord
commit_of ts = record { key = []; value = []; timestamp = some ts }

pub commit-IsRecord : (ts : Timestamp) → ts < 2 ^ 64 → IsRecord (commit_of ts)
commit-IsRecord ts h = record {
  key_fits = omega arith;
  value_fits = omega arith;
  keyed = inr refl;
  stamped = λ t e. rw (← some-injective ts t e) h;
}

-- A table that is valid, with keys and values that a file has room for.
pub record IsHeld (m : MemTable) : Type 0 where
  pub valid : IsValid m
  pub small : AreSmall m.entries

restore-IsHeld :
    (k v : Bytes) (m : MemTable)
    → length k < 2 ^ 16
    → length v < 2 ^ 16
    → IsHeld m
    → IsHeld (restore k v m)
unfolding Memtable.insert
restore-IsHeld [] v m hk hv h = h
restore-IsHeld (b ∷ k) v m hk hv h = record {
  valid = insert-IsValid (b ∷ k) v m h.valid;
  small = AreSmall-insert (b ∷ k) v m.entries hk hv h.small;
}

restore_all-IsHeld :
    (rs : List WalRecord) (m : MemTable) → All IsRecord rs → IsHeld m → IsHeld (restore_all rs m)
restore_all-IsHeld [] m hs h = h
restore_all-IsHeld (r ∷ rs) m hs h =
    restore_all-IsHeld rs (restore r.key r.value m) hs.1
      (restore-IsHeld r.key r.value m (omega (arith, hs.0.key_fits)) hs.0.value_fits h)

pub restored-IsHeld : (rs : List WalRecord) → All IsRecord rs → IsHeld (restore_all rs Memtable.new)
unfolding Memtable.new
restored-IsHeld rs hs =
    restore_all-IsHeld rs Memtable.new hs (record { valid = new-IsValid; small = tt })
