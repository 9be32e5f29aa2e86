-- ===== src/Db/Crash.antt =====
-- `Db::open` after a crash.
use cdoc.Prelude.{
  ℕ, ◌^◌, ◌<◌, ◌≤◌, List, [], ◌∷◌, Bytes, length, take, Option, none, some, Bool, true, false, ltb,
  if◌then◌else◌, ◌≡◌, refl, sym, ap, subst, ◌∙◌, arith,
}
use cdoc.BTreeMap
use cdoc.BTreeMap.{Entries}
use cdoc.Varint.{found}
use cdoc.Hlc.{Timestamp}
use cdoc.Hlc.Display.{Display}
use cdoc.Zerocopy.{Zerocopy}
use cdoc.Crc32.{Crc32}
use cdoc.Sst.Memtable
use cdoc.Sst.Memtable.{MemTable}
use cdoc.Sst.Tables.{SsTables}
use cdoc.Sst.Directory.{Flushing, unstarted, writing, renamed}
use cdoc.Sst.Directory.Stored.{Lists, IsStored, flush_until-IsStored, tables_until}
use cdoc.Sst.Directory.Files.{bound_until}
use cdoc.Wal
use cdoc.Wal.{WriteAheadLog, WalRecord, write_commit}
use cdoc.Db.Options.{DbOptions}
use cdoc.Db
use cdoc.Db.{ReadableState, DbInner, restore_all, replayed, open_db, get_readonly}
use cdoc.Db.Transaction
use cdoc.Db.Transaction.{ReadWriteTransaction, begin, dir_at, log_at}
use cdoc.Db.Lookup.{inserts}
use cdoc.Db.Records.{AreWrites, IsHeld, restored-IsHeld}
use cdoc.Db.Restored.{
  Opens, open_db_inv, open_db-IsStored, run_all-IsUsed, replayed-take, replayed-commit,
  replayed-whole,
}
use cdoc.Db.Durable.{Session, AreSessions, run_all, last_bound}
use cdoc.Db.Pending.{IsPending, pending-IsStored}

module _ (d : Display) (sst : SsTables) (crc : Crc32) (z : Zerocopy) (uninit : ℕ → Bytes)
    (unset : uninit 0 ≡ []) (read_dir : Entries → Entries) where
  abbrev used : List Session → DbInner sst → DbInner sst
  used sessions db = run_all d sst crc z sessions db

  -- A transaction that has made the writes.
  abbrev writer : Entries → DbInner sst → ReadWriteTransaction sst
  writer ws db = inserts sst crc z ws (begin sst db)

  -- `open` succeeds, and lookups give what `f` gives.
  pub record Recovers (options : DbOptions) (dir : Entries) (file : Bytes)
      (f : Bytes → Option Bytes) : Type 0 where
    pub opened : DbInner sst
    pub opens : open_db sst crc z uninit read_dir options dir (some file) ≡ found opened
    pub looks_up : (j : Bytes) → get_readonly sst j opened.readable ≡ f j

  -- What readers see when `n` bytes of `file` are left, the log with the commit record.
  abbrev pub after_crash : ℕ → Bytes → DbInner sst → ReadWriteTransaction sst → ReadableState sst
  after_crash n file db t = record {
    active = if ltb n (length file) then db.readable.active else t.fork;
    sstables = t.snapshot.sstables;
  }

  -- A crash in the middle of a transaction loses nothing that was committed. On a database that
  -- `open` made in an empty directory, after any sessions that each commit, with a flush or
  -- without, or are dropped, and with a further transaction that has made the writes `ws`, let the
  -- crash leave any number `n` of bytes of the log from the last commit on. Then `open` succeeds
  -- on these bytes and on the directory, and gives the state that readers saw before that
  -- transaction, its tables and its active table. Keys are not empty and below 2 ^ 15 bytes,
  -- values below 2 ^ 16, timestamps below 2 ^ 64; the clock reads later at each commit than at the
  -- flush of the session before, and below the limit of the text of a timestamp; there is room for
  -- each file; `read_dir` gives each file once, and unset memory of no bytes is empty.
  pub open-run_all :
      (options : DbOptions) (new_db : DbInner sst) (sessions : List Session) (ws : Entries) (n : ℕ)
      → Lists read_dir
      → open_db sst crc z uninit read_dir options [] none ≡ found new_db
      → AreSessions d sst crc z sessions new_db 0
      → AreWrites ws
      → (writer ws (used sessions new_db)).db.wal.last_commit_pos ≤ n
      → Opens d sst crc z uninit read_dir options
          (writer ws (used sessions new_db)).db.sst_dir
          (some (take n (writer ws (used sessions new_db)).db.wal.file))
          (used sessions new_db).readable
  open-run_all options new_db sessions ws n lists e hs hw l =
      let db = used sessions new_db in
      let t = writer ws db in
      let bound = last_bound d sst crc z sessions 0 in
      let u = run_all-IsUsed d sst crc z uninit read_dir options new_db sessions ws lists e hs hw in
      open_db-IsStored d sst crc z uninit read_dir options t.db.sst_dir
        (some (take n t.db.wal.file)) bound db.readable lists
        (subst (λ dir. IsStored d sst dir bound db.readable.sstables) (sym u.pending.dir)
          u.recoverable.stored)
        (replayed-take d sst crc z uninit unset db u.cs t u.rs n u.pending l
          ∙ sym u.recoverable.active)

  -- A transaction commits as a whole. On a database that `open` made in an empty directory, after
  -- any sessions that each commit, with a flush or without, or are dropped, and with a further
  -- transaction that has made the writes `ws` and has written its commit record, let the crash
  -- leave any number `n` of bytes of the log from the last commit on. Then `open` succeeds, and
  -- gives the tables of before and, as its active table, the one that readers saw before the
  -- transaction where a byte of the log is missing, and the one with the writes of the transaction
  -- where none is. Keys are not empty and below 2 ^ 15 bytes, values below 2 ^ 16, timestamps
  -- below 2 ^ 64; the clock reads later at each commit than at the flush of the session before,
  -- and below the limit of the text of a timestamp; there is room for each file; `read_dir` gives
  -- each file once, and unset memory of no bytes is empty.
  pub open-write_commit :
      (options : DbOptions) (new_db : DbInner sst) (sessions : List Session) (ws : Entries)
      (ts n : ℕ)
      → Lists read_dir
      → open_db sst crc z uninit read_dir options [] none ≡ found new_db
      → AreSessions d sst crc z sessions new_db 0
      → AreWrites ws
      → ts < 2 ^ 64
      → (writer ws (used sessions new_db)).db.wal.last_commit_pos ≤ n
      → Opens d sst crc z uninit read_dir options
          (writer ws (used sessions new_db)).db.sst_dir
          (some (take n (write_commit crc z ts (writer ws (used sessions new_db)).db.wal).file))
          (after_crash n
            (write_commit crc z ts (writer ws (used sessions new_db)).db.wal).file
            (used sessions new_db)
            (writer ws (used sessions new_db)))
  open-write_commit options new_db sessions ws ts n lists e hs hw b l =
      let db = used sessions new_db in
      let t = writer ws db in
      let bound = last_bound d sst crc z sessions 0 in
      let u = run_all-IsUsed d sst crc z uninit read_dir options new_db sessions ws lists e hs hw in
      let file = (write_commit crc z ts t.db.wal).file in
      open_db-IsStored d sst crc z uninit read_dir options t.db.sst_dir (some (take n file)) bound
        (after_crash n file db t) lists
        (pending-IsStored d sst crc z db bound u.cs t u.rs u.pending u.recoverable.stored)
        (replayed-commit d sst crc z uninit unset db u.cs t u.rs ts n b u.pending l
          ∙ ap (λ m. if ltb n (length file) then m else t.fork) (sym u.recoverable.active))

  -- The new table holds the entries of the fork.
  get_fork :
      (j : Bytes) (fork : MemTable) (r : sst.SsTableReader) (sstables : List sst.SsTableReader)
      → sst.IsTable r fork.entries
      → (Db.get sst j fork (r ∷ sstables) ≡ Db.get sst j fork sstables)
        × (Db.get sst j Memtable.new (r ∷ sstables) ≡ Db.get sst j fork sstables)
  unfolding Db.get Memtable.get Memtable.new BTreeMap.get
  get_fork j fork r sstables t =
      let held = sst.get-IsTable j r fork.entries t in (ground (arith, held), ground (arith, held))

  -- The table that the log restores at each point of the flush.
  active_at : Flushing → Bool → MemTable → MemTable
  active_at renamed true fork = Memtable.new
  active_at renamed false fork = fork
  active_at unstarted is_reset fork = fork
  active_at (writing n) is_reset fork = fork

  replayed-log_at :
      (db : DbInner sst) (cs : List WalRecord) (t : ReadWriteTransaction sst) (rs : List WalRecord)
      (ts : Timestamp) (stop : Flushing) (is_reset : Bool)
      → ts < 2 ^ 64
      → IsPending d sst crc z db cs t rs
      → replayed sst crc z uninit (some (log_at sst crc z ts stop is_reset t))
        ≡ active_at stop is_reset t.fork
  unfolding active_at replayed Wal.reset Wal.replay Wal.replay_loop
  replayed-log_at db cs t rs ts renamed true b h = refl
  replayed-log_at db cs t rs ts renamed false b h =
      replayed-whole d sst crc z uninit unset db cs t rs ts b h
  replayed-log_at db cs t rs ts unstarted is_reset b h =
      replayed-whole d sst crc z uninit unset db cs t rs ts b h
  replayed-log_at db cs t rs ts (writing n) is_reset b h =
      replayed-whole d sst crc z uninit unset db cs t rs ts b h

  get-active_at :
      (j : Bytes) (stop : Flushing) (is_reset : Bool) (fork : MemTable) (r : sst.SsTableReader)
      (sstables : List sst.SsTableReader)
      → sst.IsTable r fork.entries
      → Db.get sst j (active_at stop is_reset fork) (tables_until d sst r stop sstables)
        ≡ Db.get sst j fork sstables
  unfolding active_at
  get-active_at j renamed true fork r sstables t = (get_fork j fork r sstables t).1
  get-active_at j renamed false fork r sstables t = (get_fork j fork r sstables t).0
  get-active_at j unstarted is_reset fork r sstables t = refl
  get-active_at j (writing n) is_reset fork r sstables t = refl

  -- The flush of a commit is atomic. On a database that `open` made in an empty directory, after
  -- any sessions that each commit, with a flush or without, or are dropped, let a further
  -- transaction with the writes `ws` write its commit record, and let a crash stop it at any point
  -- behind that: before the temporary file, in the middle of it, behind the renaming, or behind
  -- the reset of the log. Then `open` on what is left in the directory and in the log succeeds,
  -- and every lookup gives what the transaction read when it committed. Keys are not empty and
  -- below 2 ^ 15 bytes, values below 2 ^ 16, timestamps below 2 ^ 64; the clock reads later at
  -- each commit than at the flush of the session before, and below the limit of the text of a
  -- timestamp; there is room for each file; `read_dir` gives each file once, and unset memory of
  -- no bytes is empty.
  pub open-flush :
      (options : DbOptions) (new_db : DbInner sst) (sessions : List Session) (ws : Entries)
      (ts flush_ts : Timestamp) (stop : Flushing) (is_reset : Bool)
      → Lists read_dir
      → open_db sst crc z uninit read_dir options [] none ≡ found new_db
      → AreSessions d sst crc z sessions new_db 0
      → AreWrites ws
      → ts < 2 ^ 64
      → last_bound d sst crc z sessions 0 ≤ flush_ts
      → flush_ts < d.limit
      → sst.Fits flush_ts (writer ws (used sessions new_db)).fork.entries
      → Recovers options
          (dir_at sst d.fmt flush_ts stop (writer ws (used sessions new_db)))
          (log_at sst crc z ts stop is_reset (writer ws (used sessions new_db)))
          (λ j. Transaction.get sst j (writer ws (used sessions new_db)))
  unfolding get_readonly Transaction.get Memtable.iter
  open-flush options new_db sessions ws ts flush_ts stop is_reset lists e hs hw b l u fits =
      let db = used sessions new_db in
      let t = writer ws db in
      let bound = last_bound d sst crc z sessions 0 in
      let p = run_all-IsUsed d sst crc z uninit read_dir options new_db sessions ws lists e hs hw in
      let held : IsHeld t.fork =
        subst IsHeld (sym p.pending.fork) (restored-IsHeld p.rs p.pending.records) in
      let (r, opens, is_table) =
        sst.open_table-written flush_ts t.fork.entries held.valid.sorted held.small fits in
      let stored =
        flush_until-IsStored d sst t.db.sst_dir bound flush_ts (sst.written flush_ts t.fork.entries)
          stop r t.snapshot.sstables l u opens
          (pending-IsStored d sst crc z db bound p.cs t p.rs p.pending p.recoverable.stored) in
      let o =
        open_db-IsStored d sst crc z uninit read_dir options (dir_at sst d.fmt flush_ts stop t)
          (some (log_at sst crc z ts stop is_reset t)) (bound_until d flush_ts stop bound)
          (record {
            active = active_at stop is_reset t.fork;
            sstables = tables_until d sst r stop t.snapshot.sstables;
          })
          lists stored (replayed-log_at db p.cs t p.rs ts stop is_reset b p.pending) in
      record {
        opened = o.opened;
        opens = o.opens;
        looks_up = λ j.
            ap (λ (s : ReadableState sst). Db.get sst j s.active s.sstables) o.readable_is
            ∙ get-active_at j stop is_reset t.fork r t.snapshot.sstables is_table;
      }

  -- `open` cuts the log that it restored from to nothing: a second `open`, on what the first one
  -- left in the log and in the directory, restores an empty active table, whatever the first one
  -- restored. Both succeed; unset memory of no bytes is empty.
  pub open-open :
      (options : DbOptions) (dir : Entries) (file : Option Bytes) (first second : DbInner sst)
      → open_db sst crc z uninit read_dir options dir file ≡ found first
      → open_db sst crc z uninit read_dir options first.sst_dir (some first.wal.file) ≡ found second
      → second.readable.active ≡ Memtable.new
  unfolding open_db replayed Wal.create Wal.replay Wal.replay_loop
  open-open options dir file first second e h =
      let one = open_db_inv d sst crc z uninit read_dir options dir file first e in
      let two =
        open_db_inv d sst crc z uninit read_dir options first.sst_dir (some first.wal.file) second
          h in
      two.1 ∙ ap (λ (w : WriteAheadLog). replayed sst crc z uninit (some w.file)) one.0
