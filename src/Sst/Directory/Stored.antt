-- ===== src/Sst/Directory/Stored.antt =====
-- The tables that the directory holds, through the steps of a flush and through `Db::open`.
use mathlib.Core.List.{reverse}
use cdoc.Prelude.{◌<◌, ◌≤◌, List, [], ◌∷◌, Bytes, ◌≡◌, refl, sym, ◌∙◌, ap}
use cdoc.BTreeMap.{Entries, insert_all, keep}
use cdoc.BTreeMap.Sorted.{IsSorted}
use cdoc.BTreeMap.Filtered.{keep-insert_all}
use cdoc.Varint.{found}
use cdoc.Hlc.{Timestamp}
use cdoc.Hlc.Display.{Display}
use cdoc.Sst.Tables.{SsTables}
use cdoc.Sst.Directory.{
  remove_tmp, Flushing, unstarted, writing, renamed, flush_until, sst_paths, open_all, load,
}
use cdoc.Sst.Directory.Files.{
  AreOlder-le, Files, HasFiles, bound_until, files_until, flush_until-HasFiles, is_sst,
  newest_first, remove_tmp-HasFiles, reverse-oldest_first,
}

-- `read_dir` gives each file once.
abbrev pub Lists : (Entries → Entries) → Type 0
Lists read_dir = (dir : Entries) → IsSorted dir → insert_all (read_dir dir) [] ≡ dir

sst_paths_lem :
    (read_dir : Entries → Entries) (dir : Entries)
    → Lists read_dir
    → IsSorted dir
    → sst_paths read_dir dir ≡ keep is_sst dir
unfolding sst_paths is_sst
sst_paths_lem read_dir dir lists h =
    sym (keep-insert_all is_sst (read_dir dir) [] tt) ∙ ap (keep is_sst) (lists dir h)

module _ (d : Display) (sst : SsTables) where
  pub record IsStored (dir : Entries) (bound : Timestamp) (sstables : List sst.SsTableReader)
      : Type 0 where
    pub files : Files
    pub has_files : HasFiles d dir bound files
    pub opened : open_all sst (newest_first d files) ≡ found sstables

  pub nothing-IsStored : IsStored [] 0 []
  nothing-IsStored = record {
    files = [];
    has_files = record { sorted = tt; files_are = refl; older = tt };
    opened = refl;
  }

  pub load-IsStored :
      (read_dir : Entries → Entries) (dir : Entries) (bound : Timestamp)
      (sstables : List sst.SsTableReader)
      → Lists read_dir
      → IsStored dir bound sstables
      → load sst read_dir dir ≡ found sstables
  unfolding load
  load-IsStored read_dir dir bound sstables lists h =
      ap (λ l. open_all sst (reverse l))
        (sst_paths_lem read_dir dir lists h.has_files.sorted ∙ h.has_files.files_are)
      ∙ (ap (open_all sst) (reverse-oldest_first d h.files) ∙ h.opened)

  abbrev pub tables_until :
      sst.SsTableReader → Flushing → List sst.SsTableReader → List sst.SsTableReader
  tables_until r unstarted sstables = sstables
  tables_until r (writing n) sstables = sstables
  tables_until r renamed sstables = r ∷ sstables

  opened_until :
      (ts : Timestamp) (file : Bytes) (p : Flushing) (files : Files) (r : sst.SsTableReader)
      (sstables : List sst.SsTableReader)
      → sst.open_table file ≡ found r
      → open_all sst (newest_first d files) ≡ found sstables
      → open_all sst (newest_first d (files_until d ts file p files))
        ≡ found (tables_until r p sstables)
  opened_until ts file unstarted files r sstables o h = h
  opened_until ts file (writing n) files r sstables o h = h
  opened_until ts file renamed files r sstables o h = rw o (rw h refl)

  pub flush_until-IsStored :
      (dir : Entries) (bound ts : Timestamp) (file : Bytes) (p : Flushing) (r : sst.SsTableReader)
      (sstables : List sst.SsTableReader)
      → bound ≤ ts
      → ts < d.limit
      → sst.open_table file ≡ found r
      → IsStored dir bound sstables
      → IsStored
          (flush_until d.fmt ts file p dir)
          (bound_until d ts p bound)
          (tables_until r p sstables)
  flush_until-IsStored dir bound ts file p r sstables l u o h = record {
    files = files_until d ts file p h.files;
    has_files = flush_until-HasFiles d dir bound ts file h.files p l u h.has_files;
    opened = opened_until ts file p h.files r sstables o h.opened;
  }

  pub remove_tmp-IsStored :
      (dir : Entries) (bound : Timestamp) (sstables : List sst.SsTableReader)
      → IsStored dir bound sstables
      → IsStored (remove_tmp dir) bound sstables
  remove_tmp-IsStored dir bound sstables h = record {
    files = h.files;
    has_files = remove_tmp-HasFiles d dir bound h.files h.has_files;
    opened = h.opened;
  }

  pub IsStored-le :
      (dir : Entries) (a b : Timestamp) (sstables : List sst.SsTableReader)
      → a ≤ b
      → IsStored dir a sstables
      → IsStored dir b sstables
  IsStored-le dir a b sstables l h = record {
    files = h.files;
    has_files = record {
      sorted = h.has_files.sorted;
      files_are = h.has_files.files_are;
      older = AreOlder-le a b h.files l h.has_files.older;
    };
    opened = h.opened;
  }
