-- ===== src/Db/Durable.antt =====
-- Transactions that run after one another, and what the log and the directory hold.
use cdoc.Prelude.{
  ◌+◌, ◌^◌, ◌<◌, ◌≤◌, List, [], ◌∷◌, ◌++◌, Bool, if◌then◌else◌, ◌≡◌, refl, sym, subst, arith,
  Bool-cases, inl, inr, All, All-append, leb,
}
use cdoc.BTreeMap.{Entries}
use cdoc.Hlc.{Timestamp}
use cdoc.Hlc.Display.{Display}
use cdoc.Zerocopy.{Zerocopy}
use cdoc.Crc32.{Crc32}
use cdoc.Sst.Memtable
use cdoc.Sst.Memtable.{MemTable}
use cdoc.Sst.Tables.{SsTables}
use cdoc.Sst.Directory.Stored.{IsStored, IsStored-le}
use cdoc.Wal.{WalRecord, write_commit}
use cdoc.Wal.Replay.{IsRecord}
use cdoc.Wal.Log.{committed}
use cdoc.Wal.Writer.{IsLog, committed-append_some, reset-IsLog, truncate-IsLog}
use cdoc.Db.{ReadableState, DbInner, restore_all}
use cdoc.Db.Transaction.{ReadWriteTransaction, begin, commit, abort, drop, publish}
use cdoc.Db.Lookup.{inserts}
use cdoc.Db.Flush.{flush_memtable-IsStored}
use cdoc.Db.Records.{committed-nil, AreWrites, commit_of, commit-IsRecord, IsHeld, restored-IsHeld}
use cdoc.Db.Pending.{
  IsPending, IsRecoverable, begin-IsPending, commit-fork, commit-log, inserts-IsPending, logged,
  pending-IsStored,
}

-- One transaction: its writes, and whether it commits or is dropped. `ts` and `flush_ts`
-- are the readings of the clock in `commit`.
pub record Session : Type 0 where
  pub ts : Timestamp
  pub flush_ts : Timestamp
  pub writes : Entries
  pub commits : Bool

module _ (d : Display) (sst : SsTables) (crc : Crc32) (z : Zerocopy) where
  -- Published or flushed, what is committed can be restored.
  publish-IsRecoverable :
      (db : DbInner sst) (bound flush_ts : Timestamp) (rs : List WalRecord) (fork : MemTable)
      (snapshot : ReadableState sst)
      → IsLog crc z db.wal rs
      → committed rs ≡ rs
      → All IsRecord rs
      → fork ≡ restore_all rs Memtable.new
      → bound ≤ flush_ts
      → flush_ts < d.limit
      → sst.Fits flush_ts fork.entries
      → IsStored d sst db.sst_dir bound snapshot.sstables
      → (rs' : List WalRecord) × IsRecoverable d sst crc z
          (publish sst d flush_ts fork snapshot db).0
          (flush_ts + 1)
          rs'
  publish-IsRecoverable db bound flush_ts rs fork snapshot log settled records same l u fits
        stored =
      let held : IsHeld fork = subst IsHeld (sym same) (restored-IsHeld rs records) in
      let made =
        flush_memtable-IsStored sst d flush_ts fork db.sst_dir bound snapshot.sstables held.valid
          held.small fits l u stored in
      elim (Bool-cases (leb db.memtable_size (Memtable.estimated_size fork))) [
        | inl e ↦ (
          [],
          rw e (
              rw made.1 (record {
                log = reset-IsLog crc z db.wal;
                settled = committed-nil;
                records = tt;
                active = refl;
                stored = made.3;
              })),
        )
        | inr e ↦ (
          rs,
          rw e (record {
            log = log;
            settled = settled;
            records = records;
            active = same;
            stored =
                IsStored-le d sst db.sst_dir bound (flush_ts + 1) snapshot.sstables (omega arith)
                  stored;
          }),
        )
      ]

  commit-IsRecoverable :
      (db : DbInner sst) (bound : Timestamp) (cs : List WalRecord) (t : ReadWriteTransaction sst)
      (rs : List WalRecord) (ts flush_ts : Timestamp)
      → ts < 2 ^ 64
      → bound ≤ flush_ts
      → flush_ts < d.limit
      → sst.Fits flush_ts t.fork.entries
      → IsStored d sst db.sst_dir bound db.readable.sstables
      → IsPending d sst crc z db cs t rs
      → (rs' : List WalRecord) × IsRecoverable d sst crc z
          (commit sst crc z d ts flush_ts t).0
          (flush_ts + 1)
          rs'
  unfolding commit
  commit-IsRecoverable db bound cs t rs ts flush_ts b l u fits stored h =
      publish-IsRecoverable (record (t.db) { wal = write_commit crc z ts t.db.wal }) bound flush_ts
        (rs ++ commit_of ts ∷ []) t.fork t.snapshot (commit-log d sst crc z db cs t rs ts h)
        (committed-append_some rs (commit_of ts) refl)
        (All-append IsRecord rs (commit_of ts ∷ []) h.records (commit-IsRecord ts b, tt))
        (commit-fork d sst crc z db cs t rs ts h) l u fits
        (pending-IsStored d sst crc z db bound cs t rs h stored)

  drop-IsRecoverable :
      (db : DbInner sst) (bound : Timestamp) (cs : List WalRecord) (t : ReadWriteTransaction sst)
      (rs : List WalRecord)
      → IsRecoverable d sst crc z db bound cs
      → IsPending d sst crc z db cs t rs
      → IsRecoverable d sst crc z (drop sst t) bound cs
  unfolding drop abort
  drop-IsRecoverable db bound cs t rs g h = rw h.unfinished (record {
    log = rw (← h.settled) (truncate-IsLog crc z t.db.wal rs h.log);
    settled = g.settled;
    records = g.records;
    active = rw h.readable g.active;
    stored = rw h.readable (rw h.dir g.stored);
  })

  abbrev pub opened : Session → DbInner sst → ReadWriteTransaction sst
  opened s db = inserts sst crc z s.writes (begin sst db)

  unfoldable pub run : Session → DbInner sst → DbInner sst
  run s db =
      if s.commits
      then (commit sst crc z d s.ts s.flush_ts (opened s db)).0
      else drop sst (opened s db)

  abbrev pub run_all : List Session → DbInner sst → DbInner sst
  run_all [] db = db
  run_all (s ∷ sessions) db = run_all sessions (run s db)

  -- What a session asks for: its clock reads later than at the last flush, and there is room for
  -- the file.
  abbrev pub IsSession : Session → DbInner sst → Timestamp → Type 0
  IsSession s db bound =
      (s.ts < 2 ^ 64)
      × (bound ≤ s.flush_ts)
      × (s.flush_ts < d.limit)
      × AreWrites s.writes
      × sst.Fits s.flush_ts (opened s db).fork.entries

  abbrev pub AreSessions : List Session → DbInner sst → Timestamp → Type 0
  AreSessions [] db bound = Unit
  AreSessions (s ∷ sessions) db bound =
      IsSession s db bound × AreSessions sessions (run s db) (s.flush_ts + 1)

  abbrev pub last_bound : List Session → Timestamp → Timestamp
  last_bound [] bound = bound
  last_bound (s ∷ sessions) bound = last_bound sessions (s.flush_ts + 1)

  pub opened-IsPending :
      (db : DbInner sst) (bound : Timestamp) (rs : List WalRecord) (ws : Entries)
      → AreWrites ws
      → IsRecoverable d sst crc z db bound rs
      → IsPending d sst crc z db rs (inserts sst crc z ws (begin sst db)) (logged d sst crc z rs ws)
  opened-IsPending db bound rs ws hw h =
      inserts-IsPending d sst crc z db rs (begin sst db) rs ws hw
        (begin-IsPending d sst crc z db bound rs h)

  IsRecoverable-le :
      (db : DbInner sst) (a b : Timestamp) (rs : List WalRecord)
      → a ≤ b
      → IsRecoverable d sst crc z db a rs
      → IsRecoverable d sst crc z db b rs
  IsRecoverable-le db a b rs l h = record {
    log = h.log;
    settled = h.settled;
    records = h.records;
    active = h.active;
    stored = IsStored-le d sst db.sst_dir a b db.readable.sstables l h.stored;
  }

  run-IsRecoverable :
      (s : Session) (db : DbInner sst) (bound : Timestamp) (rs : List WalRecord)
      → IsSession s db bound
      → IsRecoverable d sst crc z db bound rs
      → (rs' : List WalRecord) × IsRecoverable d sst crc z (run s db) (s.flush_ts + 1) rs'
  unfolding run
  run-IsRecoverable s db bound rs (b, l, u, hw, fits) h =
      let t = opened s db in
      let p = opened-IsPending db bound rs s.writes hw h in
      elim (Bool-cases s.commits) [
        | inl e ↦ rw e (
            commit-IsRecoverable db bound rs t (logged d sst crc z rs s.writes) s.ts s.flush_ts b l
              u fits h.stored p)
        | inr e ↦ rw e (
          rs,
          IsRecoverable-le (drop sst t) bound (s.flush_ts + 1) rs (omega arith)
              (drop-IsRecoverable db bound rs t (logged d sst crc z rs s.writes) h p),
        )
      ]

  pub run_all-IsRecoverable :
      (sessions : List Session) (db : DbInner sst) (bound : Timestamp) (rs : List WalRecord)
      → AreSessions sessions db bound
      → IsRecoverable d sst crc z db bound rs
      → (rs' : List WalRecord) × IsRecoverable d sst crc z
          (run_all sessions db)
          (last_bound sessions bound)
          rs'
  run_all-IsRecoverable [] db bound rs hs h = (rs, h)
  run_all-IsRecoverable (s ∷ sessions) db bound rs (hs, rest) h =
      let n = run-IsRecoverable s db bound rs hs h in
      run_all-IsRecoverable sessions (run s db) (s.flush_ts + 1) n.0 rest n.1
