-- ===== src/BTreeMap/Joined.antt =====
-- A map that is the join of two lists of entries.
use cdoc.Prelude.{
  [], ◌∷◌, ◌++◌, Bytes, ◌≡◌, refl, ap, arith, ◌≺◌, ≺_trans, gt_of_lt, Bool, Bool-cases, inl, inr,
}
use cdoc.BTreeMap.{Entries, get, keep}
use cdoc.BTreeMap.Sorted.{IsSorted, IsAbove}
use cdoc.BTreeMap.Lookup.{get-IsAbove}

-- Every key lies below `k`.
abbrev pub AreBelow : Bytes → Entries → Type 0
AreBelow k [] = Unit
AreBelow k ((j, w) ∷ m) = (j ≺ k) × AreBelow k m

pub AreBelow-trans : (j k : Bytes) (m : Entries) → AreBelow j m → j ≺ k → AreBelow k m
AreBelow-trans j k [] h p = tt
AreBelow-trans j k ((i, w) ∷ m) h p = (≺_trans i j k h.0 p, AreBelow-trans j k m h.1 p)

pub IsAbove-back : (k : Bytes) (a b : Entries) → IsAbove k (a ++ b) → IsAbove k b
IsAbove-back k [] b h = h
IsAbove-back k ((j, w) ∷ a) b h = IsAbove-back k a b h.1

pub IsAbove-front : (k : Bytes) (a b : Entries) → IsAbove k (a ++ b) → IsAbove k a
IsAbove-front k [] b h = tt
IsAbove-front k ((j, w) ∷ a) b h = (h.0, IsAbove-front k a b h.1)

pub IsSorted-back : (a b : Entries) → IsSorted (a ++ b) → IsSorted b
IsSorted-back [] b h = h
IsSorted-back ((j, w) ∷ a) b h = IsSorted-back a b h.1

pub IsSorted-front : (a b : Entries) → IsSorted (a ++ b) → IsSorted a
IsSorted-front [] b h = tt
IsSorted-front ((j, w) ∷ a) b h = (IsAbove-front j a b h.0, IsSorted-front a b h.1)

pub front-AreBelow :
    (a : Entries) (k v : Bytes) (b : Entries) → IsSorted (a ++ (k, v) ∷ b) → AreBelow k a
front-AreBelow [] k v b h = tt
front-AreBelow ((j, w) ∷ a) k v b h =
    ((IsAbove-back j a ((k, v) ∷ b) h.0).0, front-AreBelow a k v b h.1)

pub get-append_below : (k : Bytes) (a b : Entries) → AreBelow k a → get k (a ++ b) ≡ get k b
unfolding get
get-append_below k [] b h = refl
get-append_below k ((j, w) ∷ a) b h = ground (arith, gt_of_lt j k h.0, get-append_below k a b h.1)

pub get-append_above : (k : Bytes) (a b : Entries) → IsAbove k b → get k (a ++ b) ≡ get k a
unfolding get
get-append_above k [] b h = get-IsAbove k b h
get-append_above k ((j, w) ∷ a) b h = ground (arith, get-append_above k a b h)

pub keep-append : (f : Bytes → Bool) (a b : Entries) → keep f (a ++ b) ≡ keep f a ++ keep f b
keep-append f [] b = refl
keep-append f ((k, v) ∷ a) b = elim (Bool-cases (f k)) [
  | inl e ↦ rw e (ap (λ m. (k, v) ∷ m) (keep-append f a b))
  | inr e ↦ rw e (keep-append f a b)
]
