-- ===== src/Examples/Databases.antt =====
-- Databases, with their tables in files.
use cdoc.Prelude.{
  ◌+◌, ◌^◌, ◌<◌, ◌≺◌, cmp, cmp-append, ltb, lt→ltb, length, List, [], ◌∷◌, ◌++◌, ◌≡◌, refl, sym, ap,
  ◌∙◌, arith, Bytes, take, some, none, ok, true, false, if◌then◌else◌,
}
use cdoc.Zerocopy.{plain}
use cdoc.Crc32.{sum32}
use cdoc.Varint.{found, panic}
use cdoc.Hlc
use cdoc.Hlc.{Timestamp}
use cdoc.Hlc.Display.{Display}
use cdoc.BTreeMap
use cdoc.BTreeMap.{Entries, insert_all}
use cdoc.BTreeMap.Filtered.{insert-IsAbove}
use mathlib.Core.List.{reverse, reverse-cons}
use cdoc.Sst.Prefix.{starts_with}
use cdoc.Sst.Memtable
use cdoc.Varint.LittleEndian.{le_bytes, of_le}
use cdoc.Varint.BigEndian.{be_bytes, of_be, length-be_bytes, cmp-be_bytes}
use cdoc.Sst.{footer_bytes, bloom_hash, read_footer}
use cdoc.Sst.Tables.{SsTables, AreSmall}
use cdoc.Sst.Write.{new, add_all, finish, common_prefix_len, bloom_filter, entry_bytes}
use cdoc.Sst.Written.{written}
use cdoc.Sst.Files.{in_files}
use cdoc.Sst.Directory.{
  remove_tmp, load, renamed, writing, flush_until, create_file, rename, remove_file, final_path,
  tmp_path,
}
use cdoc.Sst.Read.{open_table, parse_index}
use cdoc.Db
use cdoc.Sst.Directory.Stored.{Lists, nothing-IsStored}
use cdoc.Sst.Directory.Replaced.{first_flush, load-flush_until_again}
use cdoc.Wal
use cdoc.Db.Options
use cdoc.Db.Options.{DbOptions}
use cdoc.Db.{DbInner, get, get_readonly, merge_scan, open_db, replayed}
use cdoc.Db.Transaction.{
  ReadWriteTransaction, begin, insert, commit, execute, drop, abort, dir_at, log_at,
}
use cdoc.Db.Transaction
use cdoc.Db.Restored.{Opens}
use cdoc.Db.Crash.{after_crash, Recovers, open-run_all, open-write_commit, open-flush, open-open}
use cdoc.Db.Executed.{open-execute}
use cdoc.Wal.{WriteAheadLog, write_commit, write_record}
use cdoc.Db.Lookup.{overlay, inserts, panics, get-commit-inserts}
use cdoc.Db.Scan.{get-merge_scan}
use cdoc.Db.Records.{AreWrites}
use cdoc.Db.Durable.{Session, AreSessions, run, run_all}
use cdoc.Mutation.Writes
use cdoc.Examples.Logs.{zeros}
use cdoc.Examples.Tables.{table, table-IsValid, table-AreKeys, b_AreBytes}
use cdoc.Examples.Paths.{as_is, mutation, mutation-IsValid, mutation-total}

abbrev pub files : SsTables
files = in_files sum32 plain

-- Names of a fixed length.
pub eight_some : (ts : Timestamp) → 0 < length (be_bytes 8 ts)
eight_some ts = omega (arith, length-be_bytes 8 ts)

pub eight_lt :
    (a b : Timestamp) (s t : Bytes) → a < b → b < 2 ^ 64 → (be_bytes 8 a ++ s) ≺ (be_bytes 8 b ++ t)
eight_lt a b s t h l =
    cmp-append (be_bytes 8 a) (be_bytes 8 b) s t (length-be_bytes 8 a ∙ sym (length-be_bytes 8 b))
    ∙ rw (cmp-be_bytes 8 a b (omega arith) (omega arith)) (ground (arith, h))

abbrev pub names : Display
names = record {
  is_time = λ ts. ltb ts (2 ^ 64);
  fmt = be_bytes 8;
  limit = 2 ^ 64;
  is_time_lt = λ ts h. lt→ltb ts (2 ^ 64) h;
  fmt_some = eight_some;
  fmt_lt = eight_lt;
}

-- A listing that begins with the last file.
insert_all-append : (a b m : Entries) → insert_all (a ++ b) m ≡ insert_all b (insert_all a m)
insert_all-append [] b m = refl
insert_all-append ((k, v) ∷ a) b m = insert_all-append a b (BTreeMap.insert k v m)

pub reverse-Lists : Lists reverse
reverse-Lists [] h = refl
reverse-Lists ((k, v) ∷ dir) h =
    ap (λ l. insert_all l []) (reverse-cons (k, v) dir)
    ∙ (insert_all-append (reverse dir) ((k, v) ∷ []) []
        ∙ rw (reverse-Lists dir h.1) (insert-IsAbove k v dir h.0))

abbrev db : DbInner files
db = record {
  readable = record { active = table; sstables = [] };
  wal = Wal.create;
  sst_dir = [];
  memtable_size = 4;
}

abbrev ws : Entries
ws = (98 ∷ [], 7 ∷ []) ∷ (97 ∷ [], 8 ∷ []) ∷ []

abbrev opened : ReadWriteTransaction files
opened = begin files db

length-written :
    length (written sum32 512 512 plain (inserts files sum32 plain ws opened).fork.entries) ≡ 111
unfolding begin insert finish add_all new footer_bytes entry_bytes le_bytes be_bytes
    common_prefix_len bloom_filter bloom_hash cmp BTreeMap.insert Memtable.insert
length-written = refl

written_Fits : files.Fits 512 (inserts files sum32 plain ws opened).fork.entries
written_Fits = (omega arith, omega (arith, length-written))

get-commit-inserts_example :
    (get_readonly files
        (97 ∷ [])
        (commit files sum32 plain names 256 512 (inserts files sum32 plain ws opened)).0.readable
      ≡ overlay ws (λ i. get_readonly files i db.readable) (97 ∷ []))
    × ((commit files sum32 plain names 256 512 (inserts files sum32 plain ws opened)).1 ≡ (
        if panics files sum32 plain names 512 (inserts files sum32 plain ws opened)
        then panic
        else found tt))
get-commit-inserts_example =
    get-commit-inserts files sum32 plain names 256 512 ws (97 ∷ []) db table-IsValid (ground arith)
      (ground arith) tt written_Fits

abbrev options : DbOptions
options = Options.with_memtable_size 4 (Options.new (100 ∷ []))

abbrev new_db : DbInner files
new_db = record {
  readable = record { active = Memtable.new; sstables = [] };
  wal = Wal.create;
  sst_dir = [];
  memtable_size = 4;
}

open_db-new : open_db files sum32 plain zeros reverse options [] none ≡ found new_db
unfolding open_db Options.with_memtable_size Options.new
open_db-new = refl

-- One session that flushes, and one that is dropped.
abbrev sessions : List Session
sessions =
    record { ts = 512; flush_ts = 513; writes = ws; commits = true }
    ∷ record { ts = 768; flush_ts = 769; writes = ws; commits = false }
    ∷ []

abbrev one : DbInner files
one = run_all names files sum32 plain (take 1 sessions) new_db

abbrev used : DbInner files
used = run_all names files sum32 plain sessions new_db

abbrev last : ReadWriteTransaction files
last = inserts files sum32 plain ws (begin files used)

length-one :
    length
      (written sum32 513 513 plain (inserts files sum32 plain ws (begin files new_db)).fork.entries)
    ≡ 102
unfolding begin insert finish add_all new footer_bytes entry_bytes le_bytes be_bytes
    common_prefix_len bloom_filter bloom_hash cmp BTreeMap.insert Memtable.insert Memtable.new
length-one = refl

length-two :
    length
      (written sum32 769 769 plain (inserts files sum32 plain ws (begin files one)).fork.entries)
    ≡ 102
unfolding run begin insert commit drop abort Db.flush_memtable flush_until create_file rename
    remove_file final_path tmp_path Memtable.insert Memtable.new Memtable.iter
    Memtable.estimated_size BTreeMap.insert BTreeMap.get cmp finish add_all new footer_bytes
    entry_bytes le_bytes be_bytes common_prefix_len bloom_filter bloom_hash open_table parse_index
    read_footer of_le of_be
length-two = refl

length-last : length (written sum32 900 900 plain last.fork.entries) ≡ 102
unfolding run begin insert commit drop abort Db.flush_memtable flush_until create_file rename
    remove_file final_path tmp_path Memtable.insert Memtable.new Memtable.iter
    Memtable.estimated_size BTreeMap.insert BTreeMap.get cmp finish add_all new footer_bytes
    entry_bytes le_bytes be_bytes common_prefix_len bloom_filter bloom_hash open_table parse_index
    read_footer of_le of_be
length-last = refl

ws-AreWrites : AreWrites ws
ws-AreWrites = ground arith

sessions-AreSessions : AreSessions names files sum32 plain sessions new_db 0
sessions-AreSessions = (
  (omega arith, omega arith, omega arith, ws-AreWrites, (omega arith, omega (arith, length-one))),
  (
    (omega arith, omega arith, omega arith, ws-AreWrites, (omega arith, omega (arith, length-two))),
    tt,
  ),
)

open-run_all_example :
    Opens names files sum32 plain zeros reverse options last.db.sst_dir
      (some (take (last.db.wal.last_commit_pos + 3) last.db.wal.file))
      used.readable
open-run_all_example =
    open-run_all names files sum32 plain zeros refl reverse options new_db sessions ws
      (last.db.wal.last_commit_pos + 3) reverse-Lists open_db-new sessions-AreSessions ws-AreWrites
      (omega arith)

open-write_commit_example :
    Opens names files sum32 plain zeros reverse options last.db.sst_dir
      (some
        (take (last.db.wal.last_commit_pos + 3) (write_commit sum32 plain 899 last.db.wal).file))
      (after_crash names files sum32 plain zeros refl reverse
        (last.db.wal.last_commit_pos + 3)
        (write_commit sum32 plain 899 last.db.wal).file
        used
        last)
open-write_commit_example =
    open-write_commit names files sum32 plain zeros refl reverse options new_db sessions ws 899
      (last.db.wal.last_commit_pos + 3) reverse-Lists open_db-new sessions-AreSessions ws-AreWrites
      (omega arith) (omega arith)

open-flush_example :
    Recovers names files sum32 plain zeros refl reverse options
      (dir_at files names.fmt 900 (writing 7) last)
      (log_at files sum32 plain 899 (writing 7) false last)
      (λ j. Transaction.get files j last)
open-flush_example =
    open-flush names files sum32 plain zeros refl reverse options new_db sessions ws 899 900
      (writing 7) false reverse-Lists open_db-new sessions-AreSessions ws-AreWrites (omega arith)
      (omega arith) (omega arith) (omega arith, omega (arith, length-last))

-- A mutation in place of the writes.
abbrev made : Entries
made = Writes.writes Bytes as_is [] mutation

abbrev maker : ReadWriteTransaction files
maker = inserts files sum32 plain made (begin files used)

made-AreWrites : AreWrites made
unfolding Writes.writes
made-AreWrites = ground arith

length-maker : length (written sum32 900 900 plain maker.fork.entries) ≡ 113
unfolding run begin insert commit drop abort Db.flush_memtable flush_until create_file rename
    remove_file final_path tmp_path Memtable.insert Memtable.new Memtable.iter
    Memtable.estimated_size BTreeMap.insert BTreeMap.get cmp finish add_all new footer_bytes
    entry_bytes le_bytes be_bytes common_prefix_len bloom_filter bloom_hash open_table parse_index
    read_footer of_le of_be Writes.writes
length-maker = refl

open-execute_example :
    (t : ReadWriteTransaction files) × (execute files sum32 plain Bytes as_is mutation
        (begin files used)
      ≡ ok t)
    × Opens names files sum32 plain zeros reverse options t.db.sst_dir
        (some (take (t.db.wal.last_commit_pos + 3) t.db.wal.file))
        used.readable
    × Recovers names files sum32 plain zeros refl reverse options
        (dir_at files names.fmt 900 renamed t)
        (log_at files sum32 plain 899 renamed false t)
        (overlay made (λ i. get_readonly files i used.readable))
open-execute_example =
    open-execute names files sum32 plain zeros refl reverse Bytes as_is mutation options new_db
      sessions 3 899 900 renamed false reverse-Lists open_db-new sessions-AreSessions
      mutation-IsValid mutation-total made-AreWrites (omega arith) (omega arith) (omega arith)
      (omega arith, omega (arith, length-maker))

-- A log with one committed write, and what `open` restores from it.
abbrev log : WriteAheadLog
log = write_commit sum32 plain 256 (write_record sum32 plain (97 ∷ []) (1 ∷ []) none Wal.create)

abbrev first : DbInner files
first = record {
  readable = record { active = Memtable.insert (97 ∷ []) (1 ∷ []) Memtable.new; sstables = [] };
  wal = Wal.create;
  sst_dir = [];
  memtable_size = 4;
}

open_db-log : open_db files sum32 plain zeros reverse options [] (some log.file) ≡ found first
unfolding open_db Options.with_memtable_size Options.new replayed Wal.replay Wal.replay_loop
    Wal.read_raw Wal.read_exact Wal.read_data Wal.read_timestamp Wal.checksum write_commit
    write_record Wal.record_bytes le_bytes of_le be_bytes of_be Wal.create Memtable.insert
    Memtable.new cmp
open_db-log = refl

-- A table in a file.
length-table : length (written sum32 1026 1026 plain table.entries) ≡ 103
unfolding finish add_all new footer_bytes entry_bytes le_bytes be_bytes common_prefix_len
    bloom_filter bloom_hash cmp
length-table = refl

table-AreSmall : AreSmall table.entries
table-AreSmall = ground arith

abbrev flushed :
    (r : files.SsTableReader) × (files.open_table (written sum32 1026 1026 plain table.entries)
      ≡ found r)
    × files.IsTable r table.entries
flushed =
    files.open_table-written 1026 table.entries table-IsValid.sorted table-AreSmall
      (omega arith, omega (arith, length-table))

open-open_example : new_db.readable.active ≡ Memtable.new
open-open_example =
    open-open names files sum32 plain zeros refl reverse options [] (some log.file) first new_db
      open_db-log
      (unfold open_db Options.with_memtable_size Options.new replayed Wal.replay Wal.replay_loop
          Wal.create in
        refl)

get-merge_scan_example :
    BTreeMap.get (98 ∷ []) (merge_scan files (98 ∷ []) table (flushed.0 ∷ []))
    ≡ (if starts_with (98 ∷ []) (98 ∷ []) then get files (98 ∷ []) table (flushed.0 ∷ []) else none)
get-merge_scan_example =
    get-merge_scan files (98 ∷ []) (98 ∷ []) table (flushed.0 ∷ []) b_AreBytes table-AreKeys
      table-IsValid ((table.entries, flushed.2), tt)

first_flush_lt : first_flush 1024 1025 < 2 ^ 64
unfolding Hlc.now Hlc.proposal Hlc.mask
first_flush_lt = omega arith

load-flush_until_again_example :
    load files reverse (
      remove_tmp (
        flush_until names.fmt
          (first_flush 1030 1040)
          (written sum32 1026 1026 plain table.entries)
          renamed
          (remove_tmp (flush_until names.fmt (first_flush 1024 1025) (108 ∷ []) renamed []))))
    ≡ found (flushed.0 ∷ [])
load-flush_until_again_example =
    load-flush_until_again names files reverse [] 0 1024 1025 1030 1040 (108 ∷ [])
      (written sum32 1026 1026 plain table.entries) flushed.0 [] reverse-Lists
      (nothing-IsStored names files) (unfold Hlc.mask in refl) (unfold Hlc.mask in refl)
      (omega arith) first_flush_lt flushed.1
