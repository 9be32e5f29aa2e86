-- ===== src/Db/Restored.antt =====
-- What `Db::open` restores from a log and a directory.
use cdoc.Prelude.{
  ℕ, zero, suc, ◌+◌, ◌^◌, ◌<◌, ◌≤◌, List, [], ◌∷◌, ◌++◌, Bytes, length, take, Option, none, some,
  ltb, ltb→lt, not-ltb→le, le→not-ltb, if◌then◌else◌, ◌≡◌, refl, sym, ap, subst, ◌∙◌, arith,
  Bool-cases, inl, inr, All-append,
}
use cdoc.BTreeMap.{Entries}
use cdoc.Varint.{Parsed, found, absent, panic, stuck, ◌>>=◌}
use cdoc.Hlc.{Timestamp}
use cdoc.Hlc.Display.{Display}
use cdoc.Zerocopy.{Zerocopy}
use cdoc.Crc32.{Crc32}
use cdoc.Sst.Memtable
use cdoc.Sst.Memtable.{MemTable}
use cdoc.Sst.Tables.{SsTables}
use cdoc.Sst.Directory.{remove_tmp, load}
use cdoc.Sst.Directory.Stored.{
  Lists, IsStored, nothing-IsStored, load-IsStored, remove_tmp-IsStored,
}
use cdoc.Wal
use cdoc.Wal.{WalRecord, write_commit}
use cdoc.Wal.Replay.{IsRecord}
use cdoc.Wal.Log.{committed, encode}
use cdoc.Wal.Writer.{committed-append_some, create-IsLog}
use cdoc.Wal.Crash.{replay-take, replay-take_last}
use cdoc.Db.Options.{DbOptions}
use cdoc.Db.{ReadableState, DbInner, restore_all, replayed, open_db}
use cdoc.Db.Transaction.{ReadWriteTransaction, begin}
use cdoc.Db.Lookup.{inserts}
use cdoc.Db.Records.{AreWrites, commit_of, commit-IsRecord, committed-nil}
use cdoc.Db.Durable.{
  Session, AreSessions, run_all, run_all-IsRecoverable, last_bound, opened-IsPending,
}
use cdoc.Db.Pending.{IsRecoverable, IsPending, logged, commit-log, commit-fork}

take_all : (n : ℕ) (x : Bytes) → length x ≤ n → take n x ≡ x
take_all zero [] h = refl
take_all (suc n) [] h = refl
take_all zero (b ∷ x) h = absurd (omega arith)
take_all (suc n) (b ∷ x) h = ap (λ l. b ∷ l) (take_all n x (omega arith))

-- What a result holds, or `a` where it is none.
abbrev found_or : {A : Type 0} → A → Parsed A → A
found_or a (found b) = b
found_or a absent = a
found_or a panic = a
found_or a stuck = a

bind_inv :
    {A : Type 0} {B : Type 0} (m : Parsed A) (f : A → Parsed B) (b : B)
    → m >>= f ≡ found b
    → (a : A) × (m ≡ found a) × (f a ≡ found b)
bind_inv (found a) f b e = (a, refl, e)
bind_inv absent f b e = absurd (cc)
bind_inv panic f b e = absurd (cc)
bind_inv stuck f b e = absurd (cc)

module _ (d : Display) (sst : SsTables) (crc : Crc32) (z : Zerocopy) where
  module _ (uninit : ℕ → Bytes) (read_dir : Entries → Entries) where
    -- `open` succeeds, and gives the tables of the directory and what the log restores.
    pub record Opens (options : DbOptions) (dir : Entries) (file : Option Bytes)
        (state : ReadableState sst) : Type 0 where
      pub opened : DbInner sst
      pub opens : open_db sst crc z uninit read_dir options dir file ≡ found opened
      pub readable_is : opened.readable ≡ state

    pub open_db_inv :
        (options : DbOptions) (dir : Entries) (file : Option Bytes) (db : DbInner sst)
        → open_db sst crc z uninit read_dir options dir file ≡ found db
        → (db.wal ≡ Wal.create) × (db.readable.active ≡ replayed sst crc z uninit file)
    unfolding open_db
    open_db_inv options dir file db e =
        let (sstables, loaded, made) = bind_inv (load sst read_dir (remove_tmp dir)) _ db e in
        let same = ap (found_or db) made in
        (
          sym (ap (λ (b : DbInner sst). b.wal) same),
          sym (ap (λ (b : DbInner sst). b.readable.active) same),
        )

    pub open_db-IsStored :
        (options : DbOptions) (dir : Entries) (file : Option Bytes) (bound : Timestamp)
        (state : ReadableState sst)
        → Lists read_dir
        → IsStored d sst dir bound state.sstables
        → replayed sst crc z uninit file ≡ state.active
        → Opens options dir file state
    unfolding open_db
    open_db-IsStored options dir file bound state lists h e =
        let loaded =
          load-IsStored d sst read_dir (remove_tmp dir) bound state.sstables lists
            (remove_tmp-IsStored d sst dir bound state.sstables h) in
        record {
          opened = record {
            readable = record {
              active = replayed sst crc z uninit file;
              sstables = state.sstables;
            };
            wal = Wal.create;
            sst_dir = remove_tmp dir;
            memtable_size = options.memtable_size;
          };
          opens = rw loaded refl;
          readable_is = ap (λ m. record state { active = m }) e;
        }

    created : DbOptions → DbInner sst
    created options = record {
      readable = record { active = Memtable.new; sstables = [] };
      wal = Wal.create;
      sst_dir = [];
      memtable_size = options.memtable_size;
    }

    open_db-created :
        (options : DbOptions)
        → Lists read_dir
        → open_db sst crc z uninit read_dir options [] none ≡ found (created options)
    unfolding open_db created replayed remove_tmp
    open_db-created options lists =
        rw (load-IsStored d sst read_dir [] 0 [] lists (nothing-IsStored d sst)) refl

    -- A database that `open` makes where there was none.
    open-IsRecoverable :
        (options : DbOptions) (db : DbInner sst)
        → Lists read_dir
        → open_db sst crc z uninit read_dir options [] none ≡ found db
        → IsRecoverable d sst crc z db 0 []
    open-IsRecoverable options db lists e =
        subst (λ (b : DbInner sst). IsRecoverable d sst crc z b 0 [])
          (ap (found_or db) (sym (open_db-created options lists) ∙ e))
          (unfold created in
            record {
              log = create-IsLog crc z;
              settled = committed-nil;
              records = tt;
              active = refl;
              stored = nothing-IsStored d sst;
            })

    -- The database and a transaction on it, after any sessions.
    pub record IsUsed (db : DbInner sst) (t : ReadWriteTransaction sst) (bound : Timestamp)
        : Type 0 where
      pub cs : List WalRecord
      pub rs : List WalRecord
      pub recoverable : IsRecoverable d sst crc z db bound cs
      pub pending : IsPending d sst crc z db cs t rs

    pub run_all-IsUsed :
        (options : DbOptions) (new_db : DbInner sst) (sessions : List Session) (ws : Entries)
        → Lists read_dir
        → open_db sst crc z uninit read_dir options [] none ≡ found new_db
        → AreSessions d sst crc z sessions new_db 0
        → AreWrites ws
        → IsUsed
            (run_all d sst crc z sessions new_db)
            (inserts sst crc z ws (begin sst (run_all d sst crc z sessions new_db)))
            (last_bound d sst crc z sessions 0)
    run_all-IsUsed options new_db sessions ws lists e hs hw =
        let db = run_all d sst crc z sessions new_db in
        let bound = last_bound d sst crc z sessions 0 in
        let (cs, h) =
          run_all-IsRecoverable d sst crc z sessions new_db 0 [] hs
            (open-IsRecoverable options new_db lists e) in
        record {
          cs = cs;
          rs = logged d sst crc z cs ws;
          recoverable = h;
          pending = opened-IsPending d sst crc z db bound cs ws hw h;
        }

  module _ (uninit : ℕ → Bytes) (unset : uninit 0 ≡ []) where
    replayed-some :
        (file : Bytes) (rs : List WalRecord)
        → Wal.replay crc z uninit file ≡ some rs
        → replayed sst crc z uninit (some file) ≡ restore_all rs Memtable.new
    unfolding replayed
    replayed-some file rs e = rw (e, replayed) refl

    pub replayed-take :
        (db : DbInner sst) (cs : List WalRecord) (t : ReadWriteTransaction sst)
        (rs : List WalRecord) (n : ℕ)
        → IsPending d sst crc z db cs t rs
        → t.db.wal.last_commit_pos ≤ n
        → replayed sst crc z uninit (some (take n t.db.wal.file)) ≡ restore_all cs Memtable.new
    replayed-take db cs t rs n h l = rw h.log.file_is (
        replayed-some (take n (encode crc z 0 rs)) (committed rs)
          (replay-take crc z uninit unset rs n h.records (omega (arith, l, h.log.pos_is)))
        ∙ ap (λ l. restore_all l Memtable.new) h.settled)

    -- The whole log with the commit record, or a part of it.
    pub replayed-commit :
        (db : DbInner sst) (cs : List WalRecord) (t : ReadWriteTransaction sst)
        (rs : List WalRecord) (ts : Timestamp) (n : ℕ)
        → ts < 2 ^ 64
        → IsPending d sst crc z db cs t rs
        → t.db.wal.last_commit_pos ≤ n
        → replayed sst crc z uninit (some (take n (write_commit crc z ts t.db.wal).file)) ≡ (
            if ltb n (length (write_commit crc z ts t.db.wal).file)
            then restore_all cs Memtable.new
            else t.fork)
    replayed-commit db cs t rs ts n b h l =
        let full = rs ++ commit_of ts ∷ [] in
        let w = commit-log d sst crc z db cs t rs ts h in
        let records =
          All-append IsRecord rs (commit_of ts ∷ []) h.records (commit-IsRecord ts b, tt) in
        let settled = committed-append_some rs (commit_of ts) refl in
        let read = λ (e : Bytes). replayed sst crc z uninit (some (take n e)) in
        elim (Bool-cases (ltb n (length (write_commit crc z ts t.db.wal).file))) [
          | inl e ↦ rw e (
              ap read w.file_is
              ∙ (replayed-some (take n (encode crc z 0 full)) (committed rs) (
                    replay-take_last crc z uninit unset rs (commit_of ts) n h.records
                      (commit-IsRecord ts b) (omega (arith, l, h.log.pos_is))
                      (omega (arith, ltb→lt _ _ e, ap length w.file_is)))
                  ∙ ap (λ l. restore_all l Memtable.new) h.settled))
          | inr e ↦ rw e (
              ap read w.file_is
              ∙ (replayed-some (take n (encode crc z 0 full)) (committed full) (
                    replay-take crc z uninit unset full n records (
                      omega (
                        arith,
                        not-ltb→le _ _ e,
                        ap length w.file_is,
                        ap (λ l. length (encode crc z 0 l)) settled,
                      )))
                  ∙ (ap (λ l. restore_all l Memtable.new) settled
                      ∙ sym (commit-fork d sst crc z db cs t rs ts h))))
        ]

    pub replayed-whole :
        (db : DbInner sst) (cs : List WalRecord) (t : ReadWriteTransaction sst)
        (rs : List WalRecord) (ts : Timestamp)
        → ts < 2 ^ 64
        → IsPending d sst crc z db cs t rs
        → replayed sst crc z uninit (some (write_commit crc z ts t.db.wal).file) ≡ t.fork
    replayed-whole db cs t rs ts b h =
        let file = (write_commit crc z ts t.db.wal).file in
        let n = length file + t.db.wal.last_commit_pos in
        ap (λ f. replayed sst crc z uninit (some f)) (sym (take_all n file (omega arith)))
        ∙ (replayed-commit db cs t rs ts n b h (omega arith)
            ∙ rw (le→not-ltb n (length file) (omega arith)) refl)
