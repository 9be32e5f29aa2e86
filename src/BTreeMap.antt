-- ===== src/BTreeMap.antt =====
-- The standard library's `BTreeMap<Vec<u8>, V>`: the entries in the order of their keys.
pub mod Lookup
pub mod Sorted
pub mod Joined
pub mod Filtered
use cdoc.Prelude.{
  ℕ, List, [], ◌∷◌, Bytes, Option, none, some, Ordering, lt, eq, gt, cmp, Bool, true, false, ◌&&◌,
  not, is_lt, if◌then◌else◌,
}

abbrev pub Entries : Type 0
Entries = List (Bytes × Bytes)

-- `insert`; the value that was there is what `get` gives before it.
unfoldable pub insert : Bytes → Bytes → Entries → Entries
insert k v [] = (k, v) ∷ []
insert k v ((j, w) ∷ m) = elim (cmp k j) [
  | lt ↦ (k, v) ∷ (j, w) ∷ m
  | eq ↦ (j, v) ∷ m
  | gt ↦ (j, w) ∷ insert k v m
]

unfoldable pub get : Bytes → Entries → Option Bytes
get k [] = none
get k ((j, w) ∷ m) = elim (cmp k j) [ lt ↦ none | eq ↦ some w | gt ↦ get k m ]

-- `Included(start)`, and `Excluded(end)` or `Unbounded`.
abbrev pub in_range : Bytes → Option Bytes → Bytes → Bool
in_range start none k = not (is_lt (cmp k start))
in_range start (some end) k = not (is_lt (cmp k start)) && is_lt (cmp k end)

abbrev pub keep : (Bytes → Bool) → Entries → Entries
keep test [] = []
keep test ((k, v) ∷ m) = if test k then (k, v) ∷ keep test m else keep test m

-- `range`
unfoldable pub range : Bytes → Option Bytes → Entries → Entries
range start end m = keep (in_range start end) m

-- A loop of `insert`.
abbrev pub insert_all : Entries → Entries → Entries
insert_all [] merged = merged
insert_all ((k, v) ∷ m) merged = insert_all m (insert k v merged)
