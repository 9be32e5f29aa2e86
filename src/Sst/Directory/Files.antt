-- ===== src/Sst/Directory/Files.antt =====
-- The files in the directory, through the steps of a flush.
use mathlib.Core.List.{reverse, reverse-append}
use cdoc.Prelude.{
  ◌+◌, ◌<◌, ◌≤◌, List, [], ◌∷◌, ◌++◌, Bytes, take, some, Bool, true, false, not, ◌≡◌, refl, sym,
  ◌∙◌, ap, subst, arith, is_eq, cmp, cmp_refl, eq_of_cmp,
}
use cdoc.BTreeMap
use cdoc.BTreeMap.{Entries, insert_all, keep}
use cdoc.BTreeMap.Sorted.{IsSorted, insert-IsSorted}
use cdoc.BTreeMap.Lookup.{keep-IsSorted, get-insert}
use cdoc.BTreeMap.Filtered.{keep-insert, keep-keep, IsBelow, insert-IsBelow, IsBelow-append}
use cdoc.Hlc.{Timestamp}
use cdoc.Hlc.Display.{Display}
use cdoc.Sst.Directory.{
  sst_extension, tmp_extension, has_extension, remove_tmp, create_file, remove_file, rename,
  final_path, tmp_path, Flushing, unstarted, writing, renamed, flush_until,
}
use cdoc.Sst.Directory.Names.{sst_not_tmp, final_path_sst, tmp_path_not_sst, final_path_lt}

-- The files of the tables, newest first: their timestamps and their bytes.
abbrev pub Files : Type 0
Files = List (Timestamp × Bytes)

-- Each is older than `bound` and than the one before it.
abbrev pub AreOlder : Timestamp → Files → Type 0
AreOlder bound [] = Unit
AreOlder bound ((ts, file) ∷ files) = (ts < bound) × AreOlder ts files

unfoldable pub is_sst : Bytes → Bool
is_sst name = has_extension sst_extension name

pub AreOlder-le : (a b : Timestamp) (files : Files) → a ≤ b → AreOlder a files → AreOlder b files
AreOlder-le a b [] l h = tt
AreOlder-le a b ((ts, file) ∷ files) l h = (omega (arith, h.0), h.1)

tmp_not_sst :
    (name path : Bytes)
    → is_sst path ≡ false
    → is_sst name ≡ true
    → not (is_eq (cmp name path)) ≡ true
tmp_not_sst name path h e = ground (arith, eq_of_cmp name path)

keep-remove_tmp : (dir : Entries) → keep is_sst (remove_tmp dir) ≡ keep is_sst dir
unfolding remove_tmp is_sst
keep-remove_tmp dir =
    keep-keep is_sst (λ name. not (has_extension tmp_extension name)) dir sst_not_tmp

remove_tmp-IsSorted : (dir : Entries) → IsSorted dir → IsSorted (remove_tmp dir)
unfolding remove_tmp
remove_tmp-IsSorted dir h = keep-IsSorted (λ name. not (has_extension tmp_extension name)) dir h

-- The renaming takes the file that was created.
rename-create_file :
    (fmt : Timestamp → Bytes) (ts : Timestamp) (file : Bytes) (dir : Entries)
    → IsSorted dir
    → flush_until fmt ts file renamed dir
      ≡ BTreeMap.insert
          (final_path fmt ts)
          file
          (remove_file (tmp_path fmt ts) (BTreeMap.insert (tmp_path fmt ts) file dir))
unfolding flush_until create_file rename
rename-create_file fmt ts file dir h =
    let tmp = tmp_path fmt ts in rw (get-insert tmp tmp file dir h) (rw (cmp_refl tmp) refl)

remove_file-IsSorted :
    (path : Bytes) (dir : Entries) → IsSorted dir → IsSorted (remove_file path dir)
unfolding remove_file
remove_file-IsSorted path dir h = keep-IsSorted (λ name. not (is_eq (cmp name path))) dir h

-- The renamed file has the bytes that were written.
pub get-flush_until :
    (fmt : Timestamp → Bytes) (ts : Timestamp) (file : Bytes) (dir : Entries)
    → IsSorted dir
    → BTreeMap.get (final_path fmt ts) (flush_until fmt ts file renamed dir) ≡ some file
get-flush_until fmt ts file dir h =
    let tmp = tmp_path fmt ts in
    let path = final_path fmt ts in
    let created = BTreeMap.insert tmp file dir in
    rw (rename-create_file fmt ts file dir h) (
      get-insert path path file (remove_file tmp created)
        (remove_file-IsSorted tmp created (insert-IsSorted tmp file dir h))
      ∙ rw (cmp_refl path) refl)

module _ (d : Display) where
  abbrev pub oldest_first : Files → Entries
  oldest_first [] = []
  oldest_first ((ts, file) ∷ files) = oldest_first files ++ (final_path d.fmt ts, file) ∷ []

  abbrev pub newest_first : Files → Entries
  newest_first [] = []
  newest_first ((ts, file) ∷ files) = (final_path d.fmt ts, file) ∷ newest_first files

  pub reverse-oldest_first : (files : Files) → reverse (oldest_first files) ≡ newest_first files
  reverse-oldest_first [] = refl
  reverse-oldest_first ((ts, file) ∷ files) =
      reverse-append (oldest_first files) ((final_path d.fmt ts, file) ∷ [])
      ∙ ap (λ l. (final_path d.fmt ts, file) ∷ l) (reverse-oldest_first files)

  pub oldest_first-IsBelow :
      (bound ts : Timestamp) (files : Files)
      → AreOlder bound files
      → bound ≤ ts
      → ts < d.limit
      → IsBelow (final_path d.fmt ts) (oldest_first files)
  oldest_first-IsBelow bound ts [] h l u = tt
  oldest_first-IsBelow bound ts ((t, file) ∷ files) h l u =
      IsBelow-append (final_path d.fmt ts) (oldest_first files) ((final_path d.fmt t, file) ∷ [])
        (oldest_first-IsBelow t ts files h.1 (omega (arith, h.0)) u)
        (final_path_lt d t ts (omega (arith, h.0)) u, tt)

  -- The directory has the files of the tables, and any other files that are no tables.
  pub record HasFiles (dir : Entries) (bound : Timestamp) (files : Files) : Type 0 where
    pub sorted : IsSorted dir
    pub files_are : keep is_sst dir ≡ oldest_first files
    pub older : AreOlder bound files

  pub remove_tmp-HasFiles :
      (dir : Entries) (bound : Timestamp) (files : Files)
      → HasFiles dir bound files
      → HasFiles (remove_tmp dir) bound files
  remove_tmp-HasFiles dir bound files h = record {
    sorted = remove_tmp-IsSorted dir h.sorted;
    files_are = keep-remove_tmp dir ∙ h.files_are;
    older = h.older;
  }

  abbrev pub files_until : Timestamp → Bytes → Flushing → Files → Files
  files_until ts file unstarted files = files
  files_until ts file (writing n) files = files
  files_until ts file renamed files = (ts, file) ∷ files

  abbrev pub bound_until : Timestamp → Flushing → Timestamp → Timestamp
  bound_until ts unstarted bound = bound
  bound_until ts (writing n) bound = bound
  bound_until ts renamed bound = ts + 1

  keep-create_tmp :
      (ts : Timestamp) (file : Bytes) (dir : Entries)
      → IsSorted dir
      → keep is_sst (BTreeMap.insert (tmp_path d.fmt ts) file dir) ≡ keep is_sst dir
  unfolding is_sst
  keep-create_tmp ts file dir h =
      keep-insert is_sst (tmp_path d.fmt ts) file dir h ∙ rw (tmp_path_not_sst d ts) refl

  keep-remove_file :
      (path : Bytes) (dir : Entries)
      → is_sst path ≡ false
      → keep is_sst (remove_file path dir) ≡ keep is_sst dir
  unfolding remove_file
  keep-remove_file path dir h =
      keep-keep is_sst (λ name. not (is_eq (cmp name path))) dir
        (λ name e. tmp_not_sst name path h e)

  pub renamed-IsSorted :
      (ts : Timestamp) (file : Bytes) (dir : Entries)
      → IsSorted dir
      → IsSorted (flush_until d.fmt ts file renamed dir)
  renamed-IsSorted ts file dir h =
      let created = BTreeMap.insert (tmp_path d.fmt ts) file dir in
      subst IsSorted (sym (rename-create_file d.fmt ts file dir h)) (
        insert-IsSorted (final_path d.fmt ts) file (remove_file (tmp_path d.fmt ts) created) (
          remove_file-IsSorted (tmp_path d.fmt ts) created
            (insert-IsSorted (tmp_path d.fmt ts) file dir h)))

  pub keep-renamed :
      (ts : Timestamp) (file : Bytes) (dir : Entries)
      → IsSorted dir
      → keep is_sst (flush_until d.fmt ts file renamed dir)
        ≡ BTreeMap.insert (final_path d.fmt ts) file (keep is_sst dir)
  keep-renamed ts file dir h =
      let path = final_path d.fmt ts in
      let path_is : is_sst path ≡ true = unfold is_sst in final_path_sst d ts in
      let tmp = tmp_path d.fmt ts in
      let tmp_is : is_sst tmp ≡ false = unfold is_sst in tmp_path_not_sst d ts in
      let created = BTreeMap.insert tmp file dir in
      ap (keep is_sst) (rename-create_file d.fmt ts file dir h)
      ∙ (keep-insert is_sst path file (remove_file tmp created)
            (remove_file-IsSorted tmp created (insert-IsSorted tmp file dir h))
          ∙ rw path_is (
              ap (BTreeMap.insert path file)
                (keep-remove_file tmp created tmp_is ∙ keep-create_tmp ts file dir h)))

  pub flush_until-HasFiles :
      (dir : Entries) (bound ts : Timestamp) (file : Bytes) (files : Files) (p : Flushing)
      → bound ≤ ts
      → ts < d.limit
      → HasFiles dir bound files
      → HasFiles
          (flush_until d.fmt ts file p dir)
          (bound_until ts p bound)
          (files_until ts file p files)
  unfolding flush_until create_file
  flush_until-HasFiles dir bound ts file files unstarted l u h = h
  flush_until-HasFiles dir bound ts file files (writing n) l u h = record {
    sorted = insert-IsSorted (tmp_path d.fmt ts) (take n file) dir h.sorted;
    files_are = keep-create_tmp ts (take n file) dir h.sorted ∙ h.files_are;
    older = h.older;
  }
  flush_until-HasFiles dir bound ts file files renamed l u h = record {
    sorted = renamed-IsSorted ts file dir h.sorted;
    files_are =
        keep-renamed ts file dir h.sorted
        ∙ (ap (BTreeMap.insert (final_path d.fmt ts) file) h.files_are
            ∙ insert-IsBelow (final_path d.fmt ts) file (oldest_first files)
                (oldest_first-IsBelow bound ts files h.older l u));
    older = (omega arith, AreOlder-le bound ts files l h.older);
  }
