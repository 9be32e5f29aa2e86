-- ===== src/Db/Pending.antt =====
-- What a transaction has written to the log, and to its fork.
use cdoc.Prelude.{
  ◌^◌, ◌<◌, List, [], ◌∷◌, ◌++◌, Bytes, length, some, none, ◌≡◌, refl, ap, sym, subst, ◌∙◌, All,
  All-append, false,
}
use cdoc.BTreeMap.{Entries}
use cdoc.Hlc.{Timestamp}
use cdoc.Hlc.Display.{Display}
use cdoc.Zerocopy.{Zerocopy}
use cdoc.Crc32.{Crc32}
use cdoc.Sst.Memtable
use cdoc.Sst.Memtable.{MemTable}
use cdoc.Sst.Tables.{SsTables}
use cdoc.Sst.Directory.Stored.{IsStored}
use cdoc.Wal.{WalRecord, write_commit}
use cdoc.Wal.Replay.{IsRecord}
use cdoc.Wal.Log.{committed}
use cdoc.Wal.Writer.{IsLog, committed-append_none, write_record-IsLog}
use cdoc.Db.{ReadableState, DbInner, restore_all}
use cdoc.Db.Transaction.{ReadWriteTransaction, begin, insert}
use cdoc.Db.Lookup.{inserts}
use cdoc.Db.Records.{restore_all-append, restore-insert, AreWrites, write_of-IsRecord, commit_of}

module _ (d : Display) (sst : SsTables) (crc : Crc32) (z : Zerocopy) where
  -- The active table is what the log restores, the log ends with a commit, and the directory has
  -- the other tables, all from before `bound`.
  pub record IsRecoverable (db : DbInner sst) (bound : Timestamp) (rs : List WalRecord)
      : Type 0 where
    pub log : IsLog crc z db.wal rs
    pub settled : committed rs ≡ rs
    pub records : All IsRecord rs
    pub active : db.readable.active ≡ restore_all rs Memtable.new
    pub stored : IsStored d sst db.sst_dir bound db.readable.sstables

  -- A transaction on such a database: `rs` with its writes.
  pub record IsPending (db : DbInner sst) (cs : List WalRecord) (t : ReadWriteTransaction sst)
      (rs : List WalRecord) : Type 0 where
    pub log : IsLog crc z t.db.wal rs
    pub settled : committed rs ≡ cs
    pub records : All IsRecord rs
    pub fork : t.fork ≡ restore_all rs Memtable.new
    pub snapshot : t.snapshot ≡ db.readable
    pub readable : t.db.readable ≡ db.readable
    pub dir : t.db.sst_dir ≡ db.sst_dir
    pub unfinished : t.finished ≡ false

  pub begin-IsPending :
      (db : DbInner sst) (bound : Timestamp) (rs : List WalRecord)
      → IsRecoverable db bound rs
      → IsPending db rs (begin sst db) rs
  unfolding begin
  begin-IsPending db bound rs h = record {
    log = h.log;
    settled = h.settled;
    records = h.records;
    fork = h.active;
    snapshot = refl;
    readable = refl;
    dir = refl;
    unfinished = refl;
  }

  insert-IsPending :
      (db : DbInner sst) (cs : List WalRecord) (t : ReadWriteTransaction sst) (rs : List WalRecord)
      (k v : Bytes)
      → 0 < length k
      → length k < 2 ^ 15
      → length v < 2 ^ 16
      → IsPending db cs t rs
      → IsPending db cs
          (insert sst crc z k v t)
          (rs ++ record { key = k; value = v; timestamp = none } ∷ [])
  unfolding insert
  insert-IsPending db cs t rs k v p hk hv h =
      let r : WalRecord = record { key = k; value = v; timestamp = none } in
      record {
        log = write_record-IsLog crc z t.db.wal rs k v none h.log;
        settled = committed-append_none rs r refl ∙ h.settled;
        records = All-append IsRecord rs (r ∷ []) h.records (write_of-IsRecord k v p hk hv, tt);
        fork =
            ap (Memtable.insert k v) h.fork
            ∙ sym (
                restore_all-append rs r Memtable.new
                ∙ restore-insert k v (restore_all rs Memtable.new) p);
        snapshot = h.snapshot;
        readable = h.readable;
        dir = h.dir;
        unfinished = h.unfinished;
      }

  abbrev pub logged : List WalRecord → Entries → List WalRecord
  logged rs [] = rs
  logged rs ((k, v) ∷ ws) = logged (rs ++ record { key = k; value = v; timestamp = none } ∷ []) ws

  pub inserts-IsPending :
      (db : DbInner sst) (cs : List WalRecord) (t : ReadWriteTransaction sst) (rs : List WalRecord)
      (ws : Entries)
      → AreWrites ws
      → IsPending db cs t rs
      → IsPending db cs (inserts sst crc z ws t) (logged rs ws)
  inserts-IsPending db cs t rs [] hw h = h
  inserts-IsPending db cs t rs ((k, v) ∷ ws) hw h =
      inserts-IsPending db cs (insert sst crc z k v t)
        (rs ++ record { key = k; value = v; timestamp = none } ∷ []) ws hw.3
        (insert-IsPending db cs t rs k v hw.0 hw.1 hw.2 h)

  pub commit-log :
      (db : DbInner sst) (cs : List WalRecord) (t : ReadWriteTransaction sst) (rs : List WalRecord)
      (ts : Timestamp)
      → IsPending db cs t rs
      → IsLog crc z (write_commit crc z ts t.db.wal) (rs ++ commit_of ts ∷ [])
  unfolding write_commit
  commit-log db cs t rs ts h = write_record-IsLog crc z t.db.wal rs [] [] (some ts) h.log

  pub commit-fork :
      (db : DbInner sst) (cs : List WalRecord) (t : ReadWriteTransaction sst) (rs : List WalRecord)
      (ts : Timestamp)
      → IsPending db cs t rs
      → t.fork ≡ restore_all (rs ++ commit_of ts ∷ []) Memtable.new
  commit-fork db cs t rs ts h = h.fork ∙ sym (restore_all-append rs (commit_of ts) Memtable.new)

  pub pending-IsStored :
      (db : DbInner sst) (bound : Timestamp) (cs : List WalRecord) (t : ReadWriteTransaction sst)
      (rs : List WalRecord)
      → IsPending db cs t rs
      → IsStored d sst db.sst_dir bound db.readable.sstables
      → IsStored d sst t.db.sst_dir bound t.snapshot.sstables
  pending-IsStored db bound cs t rs h stored =
      subst (λ (s : ReadableState sst). IsStored d sst t.db.sst_dir bound s.sstables)
        (sym h.snapshot)
        (subst (λ dir. IsStored d sst dir bound db.readable.sstables) (sym h.dir) stored)
