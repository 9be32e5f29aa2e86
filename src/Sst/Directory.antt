-- ===== src/Sst/Directory.antt =====
-- src/db.rs: the directory `sst` with the files of the tables, as `Db::open` reads it and as
-- `flush_memtable` changes it. A directory has the files' names and their bytes.
pub mod Names
pub mod Files
pub mod Stored
pub mod Replaced
use cdoc.Prelude.{
  ℕ, List, [], ◌∷◌, ◌++◌, Bytes, take, Option, none, some, Bool, true, false, not, ◌==◌, is_eq, cmp,
  if◌then◌else◌,
}
use mathlib.Core.List.{reverse}
use cdoc.BTreeMap
use cdoc.BTreeMap.{Entries, insert_all, keep}
use cdoc.Varint.{Parsed, found, ◌>>=◌}
use cdoc.Hlc.{Timestamp}
use cdoc.Sst.Tables.{SsTables}

-- The texts `.sst`, `.tmp`, and what stands behind their dots.
abbrev pub dot : ℕ
dot = b'.'

abbrev pub sst_extension : Bytes
sst_extension = b's' ∷ b's' ∷ b't' ∷ []

abbrev pub tmp_extension : Bytes
tmp_extension = b't' ∷ b'm' ∷ b'p' ∷ []

-- `Path::extension`: what stands behind the last dot, unless the dot is the first byte of the name.
unfoldable pub rsplit_dot : Bytes → Option (Bytes × Bytes)
rsplit_dot [] = none
rsplit_dot (b ∷ name) = elim (rsplit_dot name) [
  | some (stem, ext) ↦ some (b ∷ stem, ext)
  | none ↦ if b == dot then some ([], name) else none
]

abbrev pub behind_stem : Option (Bytes × Bytes) → Option Bytes
behind_stem none = none
behind_stem (some ([], ext)) = none
behind_stem (some (b ∷ stem, ext)) = some ext

abbrev pub is_some_of : Bytes → Option Bytes → Bool
is_some_of ext none = false
is_some_of ext (some e) = is_eq (cmp e ext)

-- `path.extension().and_then(|e| e.to_str()) == Some(ext)`
unfoldable pub has_extension : Bytes → Bytes → Bool
unfolding rsplit_dot
has_extension ext name = is_some_of ext (behind_stem (rsplit_dot name))

-- `fs::remove_file` for every `.tmp` file.
unfoldable pub remove_tmp : Entries → Entries
unfolding has_extension
remove_tmp dir = keep (λ name. not (has_extension tmp_extension name)) dir

-- `File::create`, and what is written to the new file.
unfoldable pub create_file : Bytes → Bytes → Entries → Entries
create_file path file dir = BTreeMap.insert path file dir

unfoldable pub remove_file : Bytes → Entries → Entries
remove_file path dir = keep (λ name. not (is_eq (cmp name path))) dir

abbrev pub move_file : Bytes → Option Bytes → Entries → Entries
move_file final_path none dir = dir
move_file final_path (some file) dir = BTreeMap.insert final_path file dir

-- `fs::rename`, which replaces a file that has the new name.
unfoldable pub rename : Bytes → Bytes → Entries → Entries
unfolding remove_file
rename tmp_path final_path dir =
    move_file final_path (BTreeMap.get tmp_path dir) (remove_file tmp_path dir)

-- Where `flush_memtable` can be interrupted: before it creates a file, when `n` bytes of the
-- temporary file are written, and behind the renaming.
pub data Flushing : Type 0 where
  unstarted : Flushing
  writing : ℕ → Flushing
  renamed : Flushing

-- `format!("{}.sst", ts)` and `format!("{}.sst.tmp", ts)`, where `display` is the text of a
-- timestamp, which the crate `chrono` makes.
module _ (display : Timestamp → Bytes) where
  unfoldable pub final_path : Timestamp → Bytes
  final_path ts = display ts ++ dot ∷ sst_extension

  unfoldable pub tmp_path : Timestamp → Bytes
  unfolding final_path
  tmp_path ts = final_path ts ++ dot ∷ tmp_extension

  unfoldable pub flush_until : Timestamp → Bytes → Flushing → Entries → Entries
  unfolding create_file rename
  flush_until ts file unstarted dir = dir
  flush_until ts file (writing n) dir = create_file (tmp_path ts) (take n file) dir
  flush_until ts file renamed dir =
      rename (tmp_path ts) (final_path ts) (create_file (tmp_path ts) file dir)

-- `read_dir` gives the files in an order of its own, and `sst_paths.sort()` puts them in the order
-- of their names, which are distinct.
unfoldable pub sst_paths : (Entries → Entries) → Entries → Entries
unfolding has_extension
sst_paths read_dir dir = insert_all (keep (has_extension sst_extension) (read_dir dir)) []

module _ (sst : SsTables) where
  abbrev pub open_all : Entries → Parsed (List sst.SsTableReader)
  open_all [] = found []
  open_all ((path, file) ∷ paths) =
      sst.open_table file >>= λ r. open_all paths >>= λ sstables. found (r ∷ sstables)

  -- The tables, newest first.
  unfoldable pub load : (Entries → Entries) → Entries → Parsed (List sst.SsTableReader)
  unfolding sst_paths
  load read_dir dir = open_all (reverse (sst_paths read_dir dir))
