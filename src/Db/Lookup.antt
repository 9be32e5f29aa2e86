-- ===== src/Db/Lookup.antt =====
-- What a transaction reads and what is read after it.
use cdoc.Prelude.{
  ◌^◌, ◌<◌, [], ◌∷◌, Bytes, length, Option, some, if◌then◌else◌, ◌≡◌, refl, ap, ◌∙◌, arith,
  Bool-cases, inl, inr, is_eq, cmp, leb, Bool, not, ◌&&◌, ◌≤◌, ok, ◌+◌,
}
use cdoc.BTreeMap
use cdoc.BTreeMap.{Entries}
use cdoc.Hlc.{Timestamp}
use cdoc.Zerocopy.{Zerocopy}
use cdoc.Crc32.{Crc32}
use cdoc.Sst.Memtable
use cdoc.Sst.Memtable.{MemTable}
use cdoc.Sst.Memtable.Laws.{IsValid, insert-IsValid, get-insert_lem}
use cdoc.Sst.Tables.{SsTables, AreSmall}
use cdoc.Path.Write.{max_length}
use cdoc.Mutation.{Mutation}
use cdoc.Mutation.Writes
use cdoc.Mutation.Writes.{fold_writes, for_each_lem}
use cdoc.Varint.{found, panic}
use cdoc.Hlc.Display.{Display}
use cdoc.BTreeMap.Sorted.{IsSorted}
use cdoc.Wal.{write_commit}
use cdoc.Db
use cdoc.Db.{ReadableState, DbInner, get_sstables, get_readonly}
use cdoc.Db.Flush.{flush_memtable-IsTable, flush_memtable-panic}
use cdoc.Db.Transaction
use cdoc.Db.Transaction.{ReadWriteTransaction, begin, insert, commit, abort, drop, publish, execute}

-- A map that the writes `ws` are laid over, the later ones on top.
abbrev pub overlay : Entries → (Bytes → Option Bytes) → Bytes → Option Bytes
overlay [] f j = f j
overlay ((k, v) ∷ ws) f j = overlay ws (λ i. if is_eq (cmp i k) then some v else f i) j

overlay-eq :
    (ws : Entries) (f g : Bytes → Option Bytes) (j : Bytes)
    → ((i : Bytes) → f i ≡ g i)
    → overlay ws f j ≡ overlay ws g j
overlay-eq [] f g j h = h j
overlay-eq ((k, v) ∷ ws) f g j h =
    overlay-eq ws _ _ j (λ i. ap (λ o. if is_eq (cmp i k) then some v else o) (h i))

pub AreSmall-insert :
    (k v : Bytes) (m : Entries)
    → length k < 2 ^ 16
    → length v < 2 ^ 16
    → AreSmall m
    → AreSmall (BTreeMap.insert k v m)
unfolding BTreeMap.insert
AreSmall-insert k v [] hk hv h = (hk, hv, tt)
AreSmall-insert k v ((j, w) ∷ m) hk hv h = ground (arith, AreSmall-insert k v m hk hv h.2)

module _ (sst : SsTables) (crc : Crc32) (z : Zerocopy) where
  abbrev pub inserts : Entries → ReadWriteTransaction sst → ReadWriteTransaction sst
  inserts [] t = t
  inserts ((k, v) ∷ ws) t = inserts ws (insert sst crc z k v t)

  get-insert :
      (k v j : Bytes) (t : ReadWriteTransaction sst)
      → IsValid t.fork
      → Transaction.get sst j (insert sst crc z k v t)
        ≡ (if is_eq (cmp j k) then some v else Transaction.get sst j t)
  unfolding Transaction.get Db.get insert
  get-insert k v j t h = ground (arith, get-insert_lem k j v t.fork h)

  fork-insert :
      (k v : Bytes) (t : ReadWriteTransaction sst)
      → (insert sst crc z k v t).fork ≡ Memtable.insert k v t.fork
  unfolding insert
  fork-insert k v t = refl

  -- A transaction reads its own writes, the last one to a key, and below them what it read before;
  -- its fork was a valid table.
  pub get-inserts :
      (ws : Entries) (j : Bytes) (t : ReadWriteTransaction sst)
      → IsValid t.fork
      → Transaction.get sst j (inserts ws t) ≡ overlay ws (λ i. Transaction.get sst i t) j
  get-inserts [] j t h = refl
  get-inserts ((k, v) ∷ ws) j t h =
      get-inserts ws j (insert sst crc z k v t)
        (rw (fork-insert k v t) (insert-IsValid k v t.fork h))
      ∙ overlay-eq ws _ _ j (λ i. get-insert k v i t h)

  record IsOpen (db : DbInner sst) (t : ReadWriteTransaction sst) : Type 0 where
    valid : IsValid t.fork
    small : AreSmall t.fork.entries
    same : t.snapshot ≡ db.readable
    dir : IsSorted t.db.sst_dir
    size : t.db.memtable_size ≡ db.memtable_size

  inserts-IsOpen :
      (ws : Entries) (db : DbInner sst) (t : ReadWriteTransaction sst)
      → AreSmall ws
      → IsOpen db t
      → IsOpen db (inserts ws t)
  unfolding insert Memtable.insert
  inserts-IsOpen [] db t hw h = h
  inserts-IsOpen ((k, v) ∷ ws) db t hw h =
      inserts-IsOpen ws db (insert sst crc z k v t) hw.2 (record {
        valid = insert-IsValid k v t.fork h.valid;
        small = AreSmall-insert k v t.fork.entries hw.0 hw.1 h.small;
        same = h.same;
        dir = h.dir;
        size = h.size;
      })

  -- Whether the flush of a commit is at a time that has no text.
  abbrev pub panics : Display → Timestamp → ReadWriteTransaction sst → Bool
  panics d flush_ts t =
      leb t.db.memtable_size (Memtable.estimated_size t.fork) && not (d.is_time flush_ts)

  get-publish :
      (d : Display) (flush_ts : Timestamp) (j : Bytes) (fork : MemTable)
      (snapshot : ReadableState sst) (db : DbInner sst)
      → IsValid fork
      → AreSmall fork.entries
      → sst.Fits flush_ts fork.entries
      → IsSorted db.sst_dir
      → (get_readonly sst j (publish sst d flush_ts fork snapshot db).0.readable
          ≡ Db.get sst j fork snapshot.sstables)
        × ((publish sst d flush_ts fork snapshot db).1 ≡ (
            if leb db.memtable_size (Memtable.estimated_size fork) && not (d.is_time flush_ts)
            then panic
            else found tt))
  unfolding get_readonly Db.get Memtable.get Memtable.new BTreeMap.get
  get-publish d flush_ts j fork snapshot db h hs hf hd =
      elim (Bool-cases (leb db.memtable_size (Memtable.estimated_size fork))) [
        | inr b ↦ rw b (refl, refl)
        | inl b ↦ elim (Bool-cases (d.is_time flush_ts)) [
          | inl e ↦
              let (r, opens, is_table) =
                flush_memtable-IsTable sst d flush_ts fork db.sst_dir e h hs hf hd in
              rw b (rw opens (rw e (rw (sst.get-IsTable j r fork.entries is_table) (refl, refl))))
          | inr e ↦
              rw b (rw (flush_memtable-panic sst d flush_ts fork db.sst_dir e) (rw e (refl, refl)))
        ]
      ]

  get-commit :
      (d : Display) (ts flush_ts : Timestamp) (j : Bytes) (t : ReadWriteTransaction sst)
      → IsValid t.fork
      → AreSmall t.fork.entries
      → sst.Fits flush_ts t.fork.entries
      → IsSorted t.db.sst_dir
      → (get_readonly sst j (commit sst crc z d ts flush_ts t).0.readable ≡ Transaction.get sst j t)
        × ((commit sst crc z d ts flush_ts t).1 ≡ (if panics d flush_ts t then panic else found tt))
  unfolding commit Transaction.get
  get-commit d ts flush_ts j t h hs hf hd =
      get-publish d flush_ts j t.fork t.snapshot
        (record (t.db) { wal = write_commit crc z ts t.db.wal }) h hs hf hd

  -- Whether a commit flushes or not, a lookup after it gives the writes `ws` of the committed
  -- transaction, the last one to a key, over what a lookup gave before it; and the commit returns
  -- without an error, unless it flushes at a time that has no text: then it panics. The active
  -- table was valid, in it and in `ws` the keys and values are below 2 ^ 16 bytes, the files of
  -- the directory are in the order of their names, and there is room for a file of the table with
  -- the writes.
  pub get-commit-inserts :
      (d : Display) (ts flush_ts : Timestamp) (ws : Entries) (j : Bytes) (db : DbInner sst)
      → IsValid db.readable.active
      → AreSmall db.readable.active.entries
      → AreSmall ws
      → IsSorted db.sst_dir
      → sst.Fits flush_ts (inserts ws (begin sst db)).fork.entries
      → (get_readonly sst j (commit sst crc z d ts flush_ts (inserts ws (begin sst db))).0.readable
          ≡ overlay ws (λ i. get_readonly sst i db.readable) j)
        × ((commit sst crc z d ts flush_ts (inserts ws (begin sst db))).1
            ≡ (if panics d flush_ts (inserts ws (begin sst db)) then panic else found tt))
  unfolding begin get_readonly Transaction.get
  get-commit-inserts d ts flush_ts ws j db h hs hw hd hf =
      let o =
        inserts-IsOpen ws db (begin sst db) hw
          (record { valid = h; small = hs; same = refl; dir = hd; size = refl }) in
      let (looked_up, done) =
        get-commit d ts flush_ts j (inserts ws (begin sst db)) o.valid o.small hf o.dir in
      (looked_up ∙ get-inserts ws j (begin sst db) h, done)

  fold_writes-inserts :
      (Value : Type 0) (into_writer : Value → Option Bytes) (ws : Entries)
      (t : ReadWriteTransaction sst)
      → fold_writes Value into_writer (insert sst crc z) ws t ≡ inserts ws t
  fold_writes-inserts Value into_writer [] t = refl
  fold_writes-inserts Value into_writer ((k, v) ∷ ws) t =
      fold_writes-inserts Value into_writer ws (insert sst crc z k v t)

  -- `execute` inserts the writes that the tree of the mutation stands for, in their order. Its
  -- fields and indexes are valid, its values can be encoded, and one more than what the path
  -- writer counts for all its segments together is within the limit of a path.
  pub execute-inserts :
      (Value : Type 0) (into_writer : Value → Option Bytes) (m : Mutation Value into_writer)
      (t : ReadWriteTransaction sst)
      → Writes.IsValid Value into_writer m
      → 1 + Writes.total Value into_writer m ≤ max_length
      → execute sst crc z Value into_writer m t
        ≡ ok (inserts (Writes.writes Value into_writer [] m) t)
  unfolding execute
  execute-inserts Value into_writer m t v h =
      for_each_lem Value into_writer (insert sst crc z) m t v h
      ∙ ap (λ t'. ok t')
          (fold_writes-inserts Value into_writer (Writes.writes Value into_writer [] m) t)
