-- ===== src/Db/Scan.antt =====
-- `merge_scan` against `get`.
use cdoc.Prelude.{
  List, [], ◌∷◌, Bytes, AreBytes, Option, none, Bool, if◌then◌else◌, ◌≡◌, refl, ◌∙◌, arith,
  Bool-cases, inl, inr,
}
use cdoc.BTreeMap
use cdoc.BTreeMap.{Entries, insert_all, keep}
use cdoc.BTreeMap.Sorted.{IsSorted}
use cdoc.BTreeMap.Lookup.{or_else, get-insert_all, insert_all-IsSorted, get-keep, keep-IsSorted}
use cdoc.Sst.Prefix.{starts_with}
use cdoc.Sst.Memtable
use cdoc.Sst.Memtable.{MemTable}
use cdoc.Sst.Memtable.Laws.{IsValid, AreKeys, scan-keep}
use cdoc.Sst.Tables.{SsTables}
use cdoc.Db.{get_sstables, get, merge_sstables, merge_scan}

module _ (sst : SsTables) where
  merge_sstables-IsSorted :
      (prefix : Bytes) (sstables : List sst.SsTableReader)
      → IsSorted (merge_sstables sst prefix sstables)
  merge_sstables-IsSorted prefix [] = tt
  merge_sstables-IsSorted prefix (r ∷ sstables) =
      insert_all-IsSorted (sst.scan_prefix prefix r) (merge_sstables sst prefix sstables)
        (merge_sstables-IsSorted prefix sstables)

  -- The result of a scan is in the strict order of its keys, so each is in it once.
  pub merge_scan-IsSorted :
      (prefix : Bytes) (memtable : MemTable) (sstables : List sst.SsTableReader)
      → IsSorted (merge_scan sst prefix memtable sstables)
  unfolding merge_scan
  merge_scan-IsSorted prefix memtable sstables =
      insert_all-IsSorted (Memtable.scan prefix memtable) (merge_sstables sst prefix sstables)
        (merge_sstables-IsSorted prefix sstables)

  -- One source of a scan over what the others gave.
  get-layer :
      (prefix k : Bytes) (m merged : Entries) (o : Option Bytes)
      → IsSorted m
      → IsSorted merged
      → BTreeMap.get k merged ≡ (if starts_with k prefix then o else none)
      → BTreeMap.get k (insert_all (keep (λ j. starts_with j prefix) m) merged)
        ≡ (if starts_with k prefix then or_else (BTreeMap.get k m) o else none)
  get-layer prefix k m merged o h hm e =
      let f : Bytes → Bool = λ j. starts_with j prefix in
      get-insert_all k (keep f m) merged (keep-IsSorted f m h) hm
      ∙ rw (get-keep f k m h) (
          rw e (elim (Bool-cases (starts_with k prefix)) [ inl p ↦ rw p refl | inr p ↦ rw p refl ]))

  -- Each of the tables holds entries.
  abbrev pub AreTables : List sst.SsTableReader → Type 0
  AreTables [] = Unit
  AreTables (r ∷ sstables) = ((m : Entries) × sst.IsTable r m) × AreTables sstables

  get-merge_sstables :
      (prefix k : Bytes) (sstables : List sst.SsTableReader)
      → AreBytes prefix
      → AreTables sstables
      → BTreeMap.get k (merge_sstables sst prefix sstables)
        ≡ (if starts_with k prefix then get_sstables sst k sstables else none)
  unfolding BTreeMap.get
  get-merge_sstables prefix k [] h t = ground arith
  get-merge_sstables prefix k (r ∷ sstables) h ((m, t), ts) =
      rw (sst.scan_prefix-IsTable prefix r m h t) (
        get-layer prefix k m (merge_sstables sst prefix sstables) (get_sstables sst k sstables)
          (sst.IsTable-IsSorted r m t) (merge_sstables-IsSorted prefix sstables)
          (get-merge_sstables prefix k sstables h ts)
        ∙ rw (← sst.get-IsTable k r m t) (ground arith))

  -- A scan finds a key exactly where the key starts with the prefix and `get` finds it, and then
  -- with the value of `get`. The prefix and the keys of the memory table are bytes, the memory
  -- table is valid, and each of the tables holds entries.
  pub get-merge_scan :
      (prefix k : Bytes) (memtable : MemTable) (sstables : List sst.SsTableReader)
      → AreBytes prefix
      → AreKeys memtable.entries
      → IsValid memtable
      → AreTables sstables
      → BTreeMap.get k (merge_scan sst prefix memtable sstables)
        ≡ (if starts_with k prefix then get sst k memtable sstables else none)
  unfolding merge_scan get Memtable.get Memtable.iter
  get-merge_scan prefix k memtable sstables h hk hv ht = rw (scan-keep prefix memtable h hk) (
      get-layer prefix k memtable.entries (merge_sstables sst prefix sstables)
        (get_sstables sst k sstables) hv.sorted (merge_sstables-IsSorted prefix sstables)
        (get-merge_sstables prefix k sstables h ht)
      ∙ ground arith)
