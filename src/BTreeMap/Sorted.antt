-- ===== src/BTreeMap/Sorted.antt =====
-- The keys stand in strictly ascending order, and `insert` keeps that.
use cdoc.Prelude.{[], ◌∷◌, Bytes, arith, ◌≺◌, ≺_trans, lt_of_gt}
use cdoc.BTreeMap.{Entries, insert}

-- Every key lies above `k`.
abbrev pub IsAbove : Bytes → Entries → Type 0
IsAbove k [] = Unit
IsAbove k ((j, w) ∷ m) = (k ≺ j) × IsAbove k m

abbrev pub IsSorted : Entries → Type 0
IsSorted [] = Unit
IsSorted ((k, v) ∷ m) = IsAbove k m × IsSorted m

pub IsAbove-trans : (j k : Bytes) (m : Entries) → j ≺ k → IsAbove k m → IsAbove j m
IsAbove-trans j k [] p h = tt
IsAbove-trans j k ((i, w) ∷ m) p h = (≺_trans j k i p h.0, IsAbove-trans j k m p h.1)

IsAbove-insert : (j k v : Bytes) (m : Entries) → j ≺ k → IsAbove j m → IsAbove j (insert k v m)
unfolding insert
IsAbove-insert j k v [] p h = (p, tt)
IsAbove-insert j k v ((i, w) ∷ m) p h = ground (arith, IsAbove-insert j k v m p)

pub insert-IsSorted : (k v : Bytes) (m : Entries) → IsSorted m → IsSorted (insert k v m)
unfolding insert
insert-IsSorted k v [] h = (tt, tt)
insert-IsSorted k v ((j, w) ∷ m) h =
    ground
      (arith, insert-IsSorted k v m h.1, IsAbove-trans k j m, IsAbove-insert j k v m, lt_of_gt k j)
