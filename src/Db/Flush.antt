-- ===== src/Db/Flush.antt =====
-- `flush_memtable`: the table that it makes, and the directory.
use cdoc.Prelude.{leb, true, false, ◌+◌, ◌<◌, ◌≤◌, List, ◌∷◌, ◌≡◌, ap, ◌∙◌, refl}
use cdoc.BTreeMap
use cdoc.BTreeMap.{Entries}
use cdoc.BTreeMap.Sorted.{IsSorted}
use cdoc.Varint.{Parsed, found, absent, panic, stuck}
use cdoc.Hlc.{Timestamp}
use cdoc.Hlc.Display.{Display}
use cdoc.Sst.Memtable
use cdoc.Sst.Memtable.{MemTable}
use cdoc.Sst.Memtable.Laws.{IsValid}
use cdoc.Sst.Tables.{SsTables, AreSmall}
use cdoc.Sst.Directory.{renamed, final_path}
use cdoc.Sst.Directory.Stored.{IsStored, flush_until-IsStored}
use cdoc.Sst.Directory.Files.{get-flush_until}
use cdoc.Wal.{write_commit}
use cdoc.Zerocopy.{Zerocopy}
use cdoc.Crc32.{Crc32}
use cdoc.Db
use cdoc.Db.Transaction.{ReadWriteTransaction, flushed, commit, dir_at}

module _ (sst : SsTables) where
  -- The table that a flush makes is opened, and holds the entries.
  pub flush_memtable-IsTable :
      (d : Display) (ts : Timestamp) (m : MemTable) (dir : Entries)
      → d.is_time ts ≡ true
      → IsValid m
      → AreSmall m.entries
      → sst.Fits ts m.entries
      → IsSorted dir
      → (r : sst.SsTableReader) × ((Db.flush_memtable sst d ts m dir).1 ≡ found r)
        × sst.IsTable r m.entries
  unfolding Db.flush_memtable Memtable.iter
  flush_memtable-IsTable d ts m dir e h hs hf hd =
      let (r, opens, is_table) = sst.open_table-written ts m.entries h.sorted hs hf in
      (
        r,
        rw e (
            ap (λ o. Db.open_file sst o)
              (get-flush_until d.fmt ts (sst.written ts m.entries) dir hd)
            ∙ opens),
        is_table,
      )

  -- A time that has no text makes no file.
  pub flush_memtable-panic :
      (d : Display) (ts : Timestamp) (m : MemTable) (dir : Entries)
      → d.is_time ts ≡ false
      → Db.flush_memtable sst d ts m dir ≡ (dir, panic)
  unfolding Db.flush_memtable
  flush_memtable-panic d ts m dir e = rw e refl

  pub flush_memtable-IsStored :
      (d : Display) (ts : Timestamp) (m : MemTable) (dir : Entries) (bound : Timestamp)
      (sstables : List sst.SsTableReader)
      → IsValid m
      → AreSmall m.entries
      → sst.Fits ts m.entries
      → bound ≤ ts
      → ts < d.limit
      → IsStored d sst dir bound sstables
      → (r : sst.SsTableReader) × ((Db.flush_memtable sst d ts m dir).1 ≡ found r)
        × sst.IsTable r m.entries
        × IsStored d sst (Db.flush_memtable sst d ts m dir).0 (ts + 1) (r ∷ sstables)
  unfolding Db.flush_memtable Memtable.iter
  flush_memtable-IsStored d ts m dir bound sstables h hs hf l u stored =
      let (r, opens, is_table) = sst.open_table-written ts m.entries h.sorted hs hf in
      (
        r,
        rw (d.is_time_lt ts u) (
            ap (λ o. Db.open_file sst o)
              (get-flush_until d.fmt ts (sst.written ts m.entries) dir stored.has_files.sorted)
            ∙ opens),
        is_table,
        rw (d.is_time_lt ts u) (
            flush_until-IsStored d sst dir bound ts (sst.written ts m.entries) renamed r sstables l
              u opens stored),
      )

  flushed-sst_dir :
      (snapshot : Db.ReadableState sst) (db : Db.DbInner sst) (reader : Parsed sst.SsTableReader)
      → (flushed sst snapshot db reader).0.sst_dir ≡ db.sst_dir
  flushed-sst_dir snapshot db (found r) = refl
  flushed-sst_dir snapshot db absent = refl
  flushed-sst_dir snapshot db panic = refl
  flushed-sst_dir snapshot db stuck = refl

  -- A commit that flushes leaves the directory as the last step of the flush does.
  pub commit-dir_at :
      (crc : Crc32) (z : Zerocopy) (d : Display) (ts flush_ts : Timestamp)
      (t : ReadWriteTransaction sst)
      → d.is_time flush_ts ≡ true
      → leb t.db.memtable_size (Memtable.estimated_size t.fork) ≡ true
      → (commit sst crc z d ts flush_ts t).0.sst_dir ≡ dir_at sst d.fmt flush_ts renamed t
  unfolding commit Db.flush_memtable
  commit-dir_at crc z d ts flush_ts t e h = rw h (
      rw e (
        flushed-sst_dir t.snapshot
          (record (t.db) {
            wal = write_commit crc z ts t.db.wal;
            readable = record { active = t.fork; sstables = t.snapshot.sstables };
            sst_dir = dir_at sst d.fmt flush_ts renamed t;
          })
          (Db.open_file sst
            (BTreeMap.get (final_path d.fmt flush_ts) (dir_at sst d.fmt flush_ts renamed t)))))
