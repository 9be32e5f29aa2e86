-- ===== src/Db/Transaction.antt =====
-- src/transaction.rs: the read-write transaction.
use cdoc.Prelude.{◌∷◌, Bytes, Option, none, Bool, true, false, leb, if◌then◌else◌, Result, ok}
use cdoc.BTreeMap.{Entries}
use cdoc.Mutation.{Error, Mutation, for_each}
use cdoc.Varint.{Parsed, found, absent, panic, stuck}
use cdoc.Hlc.{Timestamp}
use cdoc.Hlc.Display.{Display}
use cdoc.Zerocopy.{Zerocopy}
use cdoc.Crc32.{Crc32}
use cdoc.Sst.Memtable
use cdoc.Sst.Memtable.{MemTable}
use cdoc.Sst.Tables.{SsTables}
use cdoc.Sst.Directory.{Flushing, unstarted, writing, renamed, flush_until}
use cdoc.Wal
use cdoc.Wal.{WriteAheadLog}
use cdoc.Db
use cdoc.Db.{ReadableState, DbInner}

module _ (sst : SsTables) where
  -- `db` is the database behind the lock, which the transaction holds from its start to its end.
  pub record ReadWriteTransaction : Type 0 where
    pub db : DbInner sst
    pub fork : MemTable
    pub snapshot : ReadableState sst
    pub finished : Bool

  -- `Db::begin` and `ReadWriteTransaction::new`
  unfoldable pub begin : DbInner sst → ReadWriteTransaction
  begin db = record { db = db; fork = db.readable.active; snapshot = db.readable; finished = false }

  unfoldable pub get : Bytes → ReadWriteTransaction → Option Bytes
  get key t = Db.get sst key t.fork t.snapshot.sstables

  unfoldable pub scan : Bytes → ReadWriteTransaction → Entries
  scan prefix t = Db.merge_scan sst prefix t.fork t.snapshot.sstables

  -- `commit` behind the flush: on an error the swapped state stays, and so does the log.
  abbrev pub flushed :
      ReadableState sst → DbInner sst → Parsed sst.SsTableReader → DbInner sst × Parsed (Unit {0})
  flushed snapshot db (found reader) = (
    record db {
      readable = record { active = Memtable.new; sstables = reader ∷ snapshot.sstables };
      wal = Wal.reset db.wal;
    },
    found tt,
  )
  flushed snapshot db absent = (db, absent)
  flushed snapshot db panic = (db, panic)
  flushed snapshot db stuck = (db, stuck)

  -- The part of `commit` behind the commit record: the swap, and the flush.
  abbrev pub publish :
      Display
      → Timestamp
      → MemTable
      → ReadableState sst
      → DbInner sst
      → DbInner sst × Parsed (Unit {0})
  publish d flush_ts fork snapshot db =
      let swapped : DbInner sst = record db {
        readable = record { active = fork; sstables = snapshot.sstables };
      } in
      let (dir, reader) = Db.flush_memtable sst d flush_ts fork db.sst_dir in
      if leb db.memtable_size (Memtable.estimated_size fork)
      then flushed snapshot (record swapped { sst_dir = dir }) reader
      else (swapped, found tt)

  abbrev pub dir_at : (Timestamp → Bytes) → Timestamp → Flushing → ReadWriteTransaction → Entries
  dir_at fmt flush_ts stop t =
      flush_until fmt flush_ts (sst.written flush_ts (Memtable.iter t.fork)) stop t.db.sst_dir

  unfoldable pub abort : ReadWriteTransaction → DbInner sst
  abort t = record (t.db) { wal = Wal.truncate_to_last_commit t.db.wal }

  -- `Drop` runs after `commit` and `abort` too, which set `finished` first.
  unfoldable pub drop : ReadWriteTransaction → DbInner sst
  unfolding abort
  drop t = if t.finished then t.db else abort t

  module _ (crc : Crc32) (z : Zerocopy) where
    unfoldable pub insert : Bytes → Bytes → ReadWriteTransaction → ReadWriteTransaction
    insert key value t = record t {
      db = record (t.db) { wal = Wal.write_record crc z key value none t.db.wal };
      fork = Memtable.insert key value t.fork;
    }

    -- `ts` and `flush_ts` are the readings of the clock for the commit record and for the table.
    unfoldable pub commit :
        Display → Timestamp → Timestamp → ReadWriteTransaction → DbInner sst × Parsed (Unit {0})
    commit d ts flush_ts t =
        publish d flush_ts t.fork t.snapshot
          (record (t.db) { wal = Wal.write_commit crc z ts t.db.wal })

    -- What the disk has when `commit` is interrupted behind the commit record: `stop` tells how far
    -- the flush is, and `is_reset` whether the log is reset, which it is behind the flush only.
    abbrev pub log_at : Timestamp → Flushing → Bool → ReadWriteTransaction → Bytes
    log_at ts renamed true t = (Wal.reset t.db.wal).file
    log_at ts renamed false t = (Wal.write_commit crc z ts t.db.wal).file
    log_at ts unstarted is_reset t = (Wal.write_commit crc z ts t.db.wal).file
    log_at ts (writing n) is_reset t = (Wal.write_commit crc z ts t.db.wal).file

    -- `execute`: a write to the log cannot fail here.
    unfoldable pub execute :
        (Value : Type 0) (into_writer : Value → Option Bytes)
        → Mutation Value into_writer
        → ReadWriteTransaction
        → Result Error ReadWriteTransaction
    execute Value into_writer mutation t =
        for_each Value into_writer (λ key value t'. ok (insert key value t')) mutation t
