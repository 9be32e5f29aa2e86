-- ===== src/Sst/Directory/Replaced.antt =====
-- Two flushes at one timestamp, and when that happens.
use cdoc.Prelude.{ℕ, ◌+◌, ◌%◌, ◌^◌, ◌<◌, ◌≤◌, List, ◌∷◌, Bytes, ◌≡◌, refl, ◌∙◌, ap}
use cdoc.BTreeMap
use cdoc.BTreeMap.{Entries, keep}
use cdoc.BTreeMap.Filtered.{insert-append_same}
use cdoc.Varint.{found}
use cdoc.Hlc
use cdoc.Hlc.{Timestamp, mask}
use cdoc.Hlc.Display.{Display}
use cdoc.Sst.Tables.{SsTables}
use cdoc.Sst.Directory.{final_path, remove_tmp, renamed, flush_until, load}
use cdoc.Sst.Directory.Stored.{IsStored, Lists, load-IsStored, remove_tmp-IsStored}
use cdoc.Sst.Directory.Files.{
  oldest_first, oldest_first-IsBelow, keep-renamed, renamed-IsSorted, Files, HasFiles,
  remove_tmp-HasFiles, flush_until-HasFiles,
}

-- The timestamp of the flush in the first commit of a process: its counter starts at 0, and the
-- commit record takes the timestamp before. The clock reads `a` and then `b`.
abbrev pub first_flush : ℕ → ℕ → Timestamp
first_flush a b = (Hlc.now (Hlc.now 0 a).0 b).1

first_flush_same :
    (a b c e : ℕ)
    → mask (a % 2 ^ 64) ≡ mask (c % 2 ^ 64)
    → mask (b % 2 ^ 64) ≡ mask (e % 2 ^ 64)
    → first_flush a b ≡ first_flush c e
unfolding Hlc.now Hlc.proposal
first_flush_same a b c e h k = rw h (rw k refl)

module _ (d : Display) (sst : SsTables) where
  flush_again-HasFiles :
      (dir : Entries) (bound ts : Timestamp) (old new : Bytes) (files : Files)
      → bound ≤ ts
      → ts < d.limit
      → HasFiles d dir bound files
      → HasFiles d
          (flush_until d.fmt ts new renamed (remove_tmp (flush_until d.fmt ts old renamed dir)))
          (ts + 1)
          ((ts, new) ∷ files)
  flush_again-HasFiles dir bound ts old new files l u h =
      let between = remove_tmp (flush_until d.fmt ts old renamed dir) in
      let once =
        remove_tmp-HasFiles d (flush_until d.fmt ts old renamed dir) (ts + 1) ((ts, old) ∷ files)
          (flush_until-HasFiles d dir bound ts old files renamed l u h) in
      record {
        sorted = renamed-IsSorted d ts new between once.sorted;
        files_are =
            keep-renamed d ts new between once.sorted
            ∙ (ap (BTreeMap.insert (final_path d.fmt ts) new) once.files_are
                ∙ insert-append_same (final_path d.fmt ts) new old (oldest_first d files)
                    (oldest_first-IsBelow d bound ts files h.older l u));
        older = once.older;
      }

  -- Two processes that open the database one after the other, and each flush in their first
  -- commit, where the clock's readings of the one agree with those of the other but for the lowest
  -- eight bits: the second table takes the place of the first one, and what `open` loads is the
  -- second table and the tables from before both. The second file can be opened, the timestamp is
  -- not below the bound of the older tables and below the limit of the text of a timestamp, and
  -- `read_dir` gives each file once.
  pub load-flush_until_again :
      (read_dir : Entries → Entries) (dir : Entries) (bound : Timestamp) (a b c e : ℕ)
      (old new : Bytes) (r : sst.SsTableReader) (sstables : List sst.SsTableReader)
      → Lists read_dir
      → IsStored d sst dir bound sstables
      → mask (a % 2 ^ 64) ≡ mask (c % 2 ^ 64)
      → mask (b % 2 ^ 64) ≡ mask (e % 2 ^ 64)
      → bound ≤ first_flush a b
      → first_flush a b < d.limit
      → sst.open_table new ≡ found r
      → load sst read_dir (
          remove_tmp (
            flush_until d.fmt
              (first_flush c e)
              new
              renamed
              (remove_tmp (flush_until d.fmt (first_flush a b) old renamed dir))))
        ≡ found (r ∷ sstables)
  load-flush_until_again read_dir dir bound a b c e old new r sstables lists h p q l u o =
      let ts = first_flush a b in
      let twice =
        flush_until d.fmt ts new renamed (remove_tmp (flush_until d.fmt ts old renamed dir)) in
      let stored : IsStored d sst twice (ts + 1) (r ∷ sstables) = record {
        files = (ts, new) ∷ h.files;
        has_files = flush_again-HasFiles dir bound ts old new h.files l u h.has_files;
        opened = rw o (rw h.opened refl);
      } in
      rw (← first_flush_same a b c e p q) (
        load-IsStored d sst read_dir (remove_tmp twice) (ts + 1) (r ∷ sstables) lists
          (remove_tmp-IsStored d sst twice (ts + 1) (r ∷ sstables) stored))
