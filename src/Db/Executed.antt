-- ===== src/Db/Executed.antt =====
-- `execute` and `commit` of `src/transaction.rs`, a crash, and `Db::open`.
use cdoc.Prelude.{
  ℕ, ◌+◌, ◌^◌, ◌<◌, ◌≤◌, List, [], Bytes, take, Option, none, some, ok, Bool, ◌≡◌, sym, subst, ◌∙◌,
  arith,
}
use cdoc.BTreeMap.{Entries}
use cdoc.Varint.{found}
use cdoc.Hlc.{Timestamp}
use cdoc.Hlc.Display.{Display}
use cdoc.Zerocopy.{Zerocopy}
use cdoc.Crc32.{Crc32}
use cdoc.Sst.Memtable.Laws.{IsValid}
use cdoc.Sst.Tables.{SsTables}
use cdoc.Sst.Directory.{Flushing}
use cdoc.Sst.Directory.Stored.{Lists}
use cdoc.Path.Write.{max_length}
use cdoc.Mutation.{Mutation}
use cdoc.Mutation.Writes
use cdoc.Db.Options.{DbOptions}
use cdoc.Db.{DbInner, open_db, get_readonly}
use cdoc.Db.Transaction
use cdoc.Db.Transaction.{ReadWriteTransaction, begin, execute, dir_at, log_at}
use cdoc.Db.Lookup.{inserts, overlay, get-inserts, execute-inserts}
use cdoc.Db.Records.{AreWrites, IsHeld, restored-IsHeld}
use cdoc.Db.Restored.{Opens, run_all-IsUsed}
use cdoc.Db.Durable.{Session, AreSessions, run_all, last_bound}
use cdoc.Db.Crash.{Recovers, open-run_all, open-flush}

module _ (d : Display) (sst : SsTables) (crc : Crc32) (z : Zerocopy) (uninit : ℕ → Bytes)
    (unset : uninit 0 ≡ []) (read_dir : Entries → Entries) where
  abbrev used : List Session → DbInner sst → DbInner sst
  used sessions db = run_all d sst crc z sessions db

  abbrev writer : Entries → DbInner sst → ReadWriteTransaction sst
  writer ws db = inserts sst crc z ws (begin sst db)

  get-writer :
      (ws : Entries) (j : Bytes) (db : DbInner sst)
      → IsValid db.readable.active
      → Transaction.get sst j (writer ws db) ≡ overlay ws (λ i. get_readonly sst i db.readable) j
  unfolding begin get_readonly Transaction.get
  get-writer ws j db h = get-inserts sst crc z ws j (begin sst db) h

  -- A mutation is made durable as a whole or not at all. On a database that `open` made in an
  -- empty directory, after any sessions that each commit, with a flush or without, or are dropped,
  -- `execute` in a new transaction succeeds. If a crash comes before the commit, and leaves any
  -- number of bytes of the log from the last commit on, `open` succeeds and gives the state of
  -- before. If it comes behind the commit record, at any point of the flush, `open` succeeds, and
  -- every lookup gives the writes that the tree of the mutation stands for, the last one to a key,
  -- over what a lookup gave before. The fields and indexes of the mutation are valid, its values
  -- can be encoded, one more than what the path writer counts for all its segments together is
  -- within the limit of a path, its keys are not empty and below 2 ^ 15 bytes and its values below
  -- 2 ^ 16; timestamps are below 2 ^ 64; the clock reads later at each commit than at the flush of
  -- the session before, and below the limit of the text of a timestamp; there is room for each
  -- file; `read_dir` gives each file once, and unset memory of no bytes is empty.
  pub open-execute :
      (Value : Type 0) (into_writer : Value → Option Bytes) (m : Mutation Value into_writer)
      (options : DbOptions) (new_db : DbInner sst) (sessions : List Session) (n : ℕ)
      (ts flush_ts : Timestamp) (stop : Flushing) (is_reset : Bool)
      → Lists read_dir
      → open_db sst crc z uninit read_dir options [] none ≡ found new_db
      → AreSessions d sst crc z sessions new_db 0
      → Writes.IsValid Value into_writer m
      → 1 + Writes.total Value into_writer m ≤ max_length
      → AreWrites (Writes.writes Value into_writer [] m)
      → ts < 2 ^ 64
      → last_bound d sst crc z sessions 0 ≤ flush_ts
      → flush_ts < d.limit
      → sst.Fits flush_ts
          (writer (Writes.writes Value into_writer [] m) (used sessions new_db)).fork.entries
      → (t : ReadWriteTransaction sst) × (execute sst crc z Value into_writer m
            (begin sst (used sessions new_db))
          ≡ ok t)
        × Opens d sst crc z uninit read_dir options t.db.sst_dir
            (some (take (t.db.wal.last_commit_pos + n) t.db.wal.file))
            (used sessions new_db).readable
        × Recovers d sst crc z uninit unset read_dir options
            (dir_at sst d.fmt flush_ts stop t)
            (log_at sst crc z ts stop is_reset t)
            (overlay
              (Writes.writes Value into_writer [] m)
              (λ i. get_readonly sst i (used sessions new_db).readable))
  open-execute Value into_writer m options new_db sessions n ts flush_ts stop is_reset lists e hs v
        short hw b l u fits =
      let db = used sessions new_db in
      let ws = Writes.writes Value into_writer [] m in
      let p = run_all-IsUsed d sst crc z uninit read_dir options new_db sessions ws lists e hs hw in
      let held : IsHeld db.readable.active =
        subst IsHeld (sym p.recoverable.active) (restored-IsHeld p.cs p.recoverable.records) in
      let o =
        open-flush d sst crc z uninit unset read_dir options new_db sessions ws ts flush_ts stop
          is_reset lists e hs hw b l u fits in
      (
        writer ws db,
        execute-inserts sst crc z Value into_writer m (begin sst db) v short,
        open-run_all d sst crc z uninit unset read_dir options new_db sessions ws
            ((writer ws db).db.wal.last_commit_pos + n) lists e hs hw (omega arith),
        record {
          opened = o.opened;
          opens = o.opens;
          looks_up = λ j. o.looks_up j ∙ get-writer ws j db held.valid;
        },
      )
