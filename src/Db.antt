-- ===== src/Db.antt =====
-- src/db.rs and src/transaction.rs. Whoever holds the lock of the writer has `DbInner` to itself,
-- so a read-write transaction passes it along. Errors of the operating system are left out, and
-- what a path is: `Db::open` is given what the two directories hold.
pub mod Options
pub mod Transaction
pub mod Flush
pub mod Lookup
pub mod Scan
pub mod Records
pub mod Pending
pub mod Durable
pub mod Restored
pub mod Crash
pub mod Executed
use cdoc.Prelude.{if◌then◌else◌, ℕ, List, [], ◌∷◌, Bytes, Option, none, some}
use cdoc.BTreeMap
use cdoc.BTreeMap.{Entries, insert_all}
use cdoc.Varint.{Parsed, found, absent, panic, ◌>>=◌}
use cdoc.Hlc.{Timestamp}
use cdoc.Hlc.Display.{Display}
use cdoc.Zerocopy.{Zerocopy}
use cdoc.Crc32.{Crc32}
use cdoc.Sst.Memtable
use cdoc.Sst.Memtable.{MemTable}
use cdoc.Sst.Tables.{SsTables}
use cdoc.Sst.Directory.{remove_tmp, load, final_path, renamed, flush_until}
use cdoc.Db.Options.{DbOptions}
use cdoc.Wal
use cdoc.Wal.{WriteAheadLog, WalRecord}

-- `if !record.key.is_empty() { memtable.insert(record.key, record.value) }`
abbrev pub restore : Bytes → Bytes → MemTable → MemTable
restore [] value memtable = memtable
restore (b ∷ key) value memtable = Memtable.insert (b ∷ key) value memtable

abbrev pub restore_all : List WalRecord → MemTable → MemTable
restore_all [] memtable = memtable
restore_all (r ∷ records) memtable = restore_all records (restore r.key r.value memtable)

module _ (sst : SsTables) where
  pub record ReadableState : Type 0 where
    pub active : MemTable
    pub sstables : List sst.SsTableReader

  pub record DbInner : Type 0 where
    pub readable : ReadableState
    pub wal : WriteAheadLog
    -- The files of the directory.
    pub sst_dir : Entries
    pub memtable_size : ℕ

  -- The loop over the tables, newest first.
  abbrev pub get_sstables : Bytes → List sst.SsTableReader → Option Bytes
  get_sstables key [] = none
  get_sstables key (r ∷ sstables) = elim (sst.get key r) [
    | none ↦ get_sstables key sstables
    | some v ↦ some v
  ]

  -- `get` of both transactions: of the snapshot, or of the fork and the snapshot's tables.
  unfoldable pub get : Bytes → MemTable → List sst.SsTableReader → Option Bytes
  get key active sstables = elim (Memtable.get key active) [
    | some v ↦ some v
    | none ↦ get_sstables key sstables
  ]

  -- `sstables.iter().rev()`: the oldest table first.
  abbrev pub merge_sstables : Bytes → List sst.SsTableReader → Entries
  merge_sstables prefix [] = []
  merge_sstables prefix (r ∷ sstables) =
      insert_all (sst.scan_prefix prefix r) (merge_sstables prefix sstables)

  unfoldable pub merge_scan : Bytes → MemTable → List sst.SsTableReader → Entries
  merge_scan prefix memtable sstables =
      insert_all (Memtable.scan prefix memtable) (merge_sstables prefix sstables)

  -- A `ReadOnlyTransaction` is the state that was there when it began.
  unfoldable pub begin_readonly : DbInner → ReadableState
  begin_readonly db = db.readable

  unfoldable pub get_readonly : Bytes → ReadableState → Option Bytes
  unfolding get
  get_readonly key snapshot = get key snapshot.active snapshot.sstables

  unfoldable pub scan_readonly : Bytes → ReadableState → Entries
  unfolding merge_scan
  scan_readonly prefix snapshot = merge_scan prefix snapshot.active snapshot.sstables

  abbrev pub open_file : Option Bytes → Parsed sst.SsTableReader
  open_file none = absent
  open_file (some file) = sst.open_table file

  -- The directory and the reader of the new table. `ts` is the reading of the clock, whose text
  -- names the files.
  unfoldable pub flush_memtable :
      Display → Timestamp → MemTable → Entries → Entries × Parsed sst.SsTableReader
  unfolding flush_until final_path
  flush_memtable d ts memtable sst_dir =
      let dir = flush_until d.fmt ts (sst.written ts (Memtable.iter memtable)) renamed sst_dir in
      if d.is_time ts
      then (dir, open_file (BTreeMap.get (final_path d.fmt ts) dir))
      else (sst_dir, panic)

  module _ (crc : Crc32) (z : Zerocopy) (uninit : ℕ → Bytes) where
    -- The records of the old log, if there is one.
    unfoldable pub replayed : Option Bytes → MemTable
    replayed none = Memtable.new
    replayed (some file) = elim (Wal.replay crc z uninit file) [
      | none ↦ Memtable.new
      | some records ↦ restore_all records Memtable.new
    ]

    -- `Db::open`, with what is in the two directories, and the order in which `read_dir` lists.
    unfoldable pub open_db :
        (Entries → Entries) → DbOptions → Entries → Option Bytes → Parsed DbInner
    unfolding replayed load remove_tmp
    open_db read_dir options dir file = load sst read_dir (remove_tmp dir) >>= λ sstables.
        found (record {
          readable = record { active = replayed file; sstables = sstables };
          wal = Wal.create;
          sst_dir = remove_tmp dir;
          memtable_size = options.memtable_size;
        })
