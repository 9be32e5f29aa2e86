-- ===== src/BTreeMap/Lookup.antt =====
-- `get` after `insert`.
use cdoc.Prelude.{
  [], ◌∷◌, Bytes, ◌≡◌, arith, cmp, ≺_trans, eq_of_cmp, lt_of_gt, gt_of_lt, cmp_refl, ◌∙◌, refl,
  Bool, Option, none, some, lt, eq, is_eq, if◌then◌else◌,
}
use cdoc.BTreeMap.{Entries, insert, get, keep, insert_all}
use cdoc.BTreeMap.Sorted.{IsSorted, IsAbove, IsAbove-trans, insert-IsSorted}

-- The map law, for every pair of keys.
pub get-insert :
    (k j v : Bytes) (m : Entries)
    → IsSorted m
    → get j (insert k v m) ≡ (if is_eq (cmp j k) then some v else get j m)
unfolding get insert
get-insert k j v [] h = ground arith
get-insert k j v ((i, w) ∷ m) h = ground (
  arith,
  get-insert k j v m h.1,
  eq_of_cmp k i,
  eq_of_cmp j k,
  eq_of_cmp j i,
  lt_of_gt k i,
  lt_of_gt j k,
  gt_of_lt j k,
  cmp_refl j,
  ≺_trans j k i,
  ≺_trans i k j,
)

-- A key below all of a map is not in it.
pub get-IsAbove : (k : Bytes) (m : Entries) → IsAbove k m → get k m ≡ none
unfolding get
get-IsAbove k [] h = refl
get-IsAbove k ((j, w) ∷ m) h = ground (arith, h.0)

get-lt : (k j : Bytes) (m : Entries) → cmp k j ≡ lt → IsAbove j m → get k m ≡ none
get-lt k j m p h = get-IsAbove k m (IsAbove-trans k j m p h)

get-eq : (k j : Bytes) (m : Entries) → cmp k j ≡ eq → IsAbove j m → get k m ≡ none
get-eq k j m p h = get-IsAbove k m (rw (eq_of_cmp k j p) h)

abbrev pub or_else : Option Bytes → Option Bytes → Option Bytes
or_else none o = o
or_else (some v) o = some v

pub insert_all-IsSorted : (m merged : Entries) → IsSorted merged → IsSorted (insert_all m merged)
insert_all-IsSorted [] merged h = h
insert_all-IsSorted ((k, v) ∷ m) merged h =
    insert_all-IsSorted m (insert k v merged) (insert-IsSorted k v merged h)

-- The entries that are inserted win over those that are there.
pub get-insert_all :
    (k : Bytes) (m merged : Entries)
    → IsSorted m
    → IsSorted merged
    → get k (insert_all m merged) ≡ or_else (get k m) (get k merged)
unfolding get
get-insert_all k [] merged h hm = refl
get-insert_all k ((j, v) ∷ m) merged h hm =
    get-insert_all k m (insert j v merged) h.1 (insert-IsSorted j v merged hm)
    ∙ rw (get-insert j k v merged hm) (ground (arith, get-lt k j m, get-eq k j m, h.0))

pub IsAbove-keep : (f : Bytes → Bool) (k : Bytes) (m : Entries) → IsAbove k m → IsAbove k (keep f m)
IsAbove-keep f k [] h = tt
IsAbove-keep f k ((j, w) ∷ m) h = ground (arith, h.0, IsAbove-keep f k m h.1)

pub keep-IsSorted : (f : Bytes → Bool) (m : Entries) → IsSorted m → IsSorted (keep f m)
keep-IsSorted f [] h = tt
keep-IsSorted f ((k, v) ∷ m) h = ground (arith, IsAbove-keep f k m h.0, keep-IsSorted f m h.1)

pub get-keep :
    (f : Bytes → Bool) (k : Bytes) (m : Entries)
    → IsSorted m
    → get k (keep f m) ≡ (if f k then get k m else none)
unfolding get
get-keep f k [] h = ground arith
get-keep f k ((j, w) ∷ m) h =
    ground (arith, get-keep f k m h.1, get-lt k j m, get-eq k j m, h.0, eq_of_cmp k j)
