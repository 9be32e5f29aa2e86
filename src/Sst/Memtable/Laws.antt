-- ===== src/Sst/Memtable/Laws.antt =====
-- The table as a sorted map, with the size of what it holds.
use cdoc.Prelude.{
  ℕ, ◌+◌, ◌≤◌, [], ◌∷◌, Bytes, AreBytes, length, some, ◌≡◌, refl, arith, Bool, if◌then◌else◌, is_eq,
  cmp, eq_of_cmp, Option-cases, inl, inr,
}
use cdoc.BTreeMap
use cdoc.BTreeMap.{Entries, in_range, keep}
use cdoc.BTreeMap.Sorted.{IsSorted, insert-IsSorted}
use cdoc.BTreeMap.Lookup.{get-insert}
use cdoc.Sst.Prefix.{starts_with, in_range-prefix_successor}
use cdoc.Sst.Memtable.{MemTable, new, resize, insert, get, scan, iter}

-- The bytes of all keys and values.
abbrev pub total : Entries → ℕ
total [] = 0
total ((k, v) ∷ m) = length k + length v + total m

pub record IsValid (t : MemTable) : Type 0 where
  pub sorted : IsSorted t.entries
  pub counted : t.size ≡ total t.entries

pub new-IsValid : IsValid new
unfolding new
new-IsValid = record { sorted = tt; counted = refl }

old-le-total :
    (k : Bytes) (m : Entries) (old : Bytes) → BTreeMap.get k m ≡ some old → length old ≤ total m
unfolding BTreeMap.get
old-le-total k [] old e = cc
old-le-total k ((j, w) ∷ m) old e = ground (arith, old-le-total k m old)

total-insert :
    (k v : Bytes) (m : Entries)
    → total (BTreeMap.insert k v m) ≡ resize (total m) k (length k + length v) (BTreeMap.get k m)
unfolding BTreeMap.insert BTreeMap.get
total-insert k v [] = ground arith
total-insert k v ((j, w) ∷ m) = elim (Option-cases (BTreeMap.get k m)) [
  | inl e ↦ ground (arith, total-insert k v m, eq_of_cmp k j)
  | inr (old, e) ↦ ground (arith, total-insert k v m, eq_of_cmp k j, old-le-total k m old e)
]

-- `insert` keeps the keys of a valid table in order, and its size equal to the bytes of its keys
-- and values.
pub insert-IsValid : (key value : Bytes) (t : MemTable) → IsValid t → IsValid (insert key value t)
unfolding insert
insert-IsValid key value t h = record {
  sorted = insert-IsSorted key value t.entries h.sorted;
  counted = rw h.counted (rw (total-insert key value t.entries));
}

-- Where `insert` subtracts the length of the old value, the size is at least that.
old-le-size :
    (key old : Bytes) (t : MemTable) → IsValid t → get key t ≡ some old → length old ≤ t.size
unfolding get
old-le-size key old t h e = omega (arith, h.counted, old-le-total key t.entries old e)

-- After `insert` into a valid table, `get` gives the new value for the inserted key, and what it
-- gave before for any other key.
pub get-insert_lem :
    (key j value : Bytes) (t : MemTable)
    → IsValid t
    → get j (insert key value t) ≡ (if is_eq (cmp j key) then some value else get j t)
unfolding insert get
get-insert_lem key j value t h = get-insert key j value t.entries h.sorted

abbrev pub AreKeys : Entries → Type 0
AreKeys [] = Unit
AreKeys ((k, v) ∷ m) = AreBytes k × AreKeys m

keep-eq :
    (f g : Bytes → Bool) (m : Entries)
    → ((k : Bytes) → AreBytes k → f k ≡ g k)
    → AreKeys m
    → keep f m ≡ keep g m
keep-eq f g [] e h = refl
keep-eq f g ((k, v) ∷ m) e h = rw (e k h.0, keep-eq f g m e h.1)

-- `scan` gives the entries of the table whose keys start with the prefix, all of them and in their
-- order; the prefix and the keys are bytes.
pub scan-keep :
    (prefix : Bytes) (t : MemTable)
    → AreBytes prefix
    → AreKeys t.entries
    → scan prefix t ≡ keep (λ k. starts_with k prefix) (iter t)
unfolding scan iter BTreeMap.range
scan-keep prefix t hp hk = keep-eq _ _ t.entries (λ k h. in_range-prefix_successor prefix k hp h) hk
