-- ===== src/BTreeMap/Filtered.antt =====
-- `insert` and the entries that pass a test.
use cdoc.Prelude.{
  [], ◌∷◌, ◌++◌, Bytes, ◌≡◌, refl, ◌∙◌, arith, ◌≺◌, gt_of_lt, Bool, true, if◌then◌else◌, eq_of_cmp,
  cmp_refl,
}
use cdoc.BTreeMap.{Entries, insert, keep, insert_all}
use cdoc.BTreeMap.Sorted.{IsSorted, IsAbove, IsAbove-trans, insert-IsSorted}
use cdoc.BTreeMap.Lookup.{IsAbove-keep}

pub insert-IsAbove : (k v : Bytes) (m : Entries) → IsAbove k m → insert k v m ≡ (k, v) ∷ m
unfolding insert
insert-IsAbove k v [] h = refl
insert-IsAbove k v ((j, w) ∷ m) h = ground (arith, h.0)

pub keep-insert :
    (f : Bytes → Bool) (k v : Bytes) (m : Entries)
    → IsSorted m
    → keep f (insert k v m) ≡ (if f k then insert k v (keep f m) else keep f m)
unfolding insert
keep-insert f k v [] h = ground arith
keep-insert f k v ((j, w) ∷ m) h = ground (
  arith,
  keep-insert f k v m h.1,
  eq_of_cmp k j,
  h.0,
  insert-IsAbove k v (keep f m),
  IsAbove-keep f k m,
  IsAbove-trans k j m,
)

-- A test that is weaker than another one changes nothing before it.
pub keep-keep :
    (f g : Bytes → Bool) (m : Entries)
    → ((k : Bytes) → f k ≡ true → g k ≡ true)
    → keep f (keep g m) ≡ keep f m
keep-keep f g [] h = refl
keep-keep f g ((k, v) ∷ m) h = ground (arith, h k, keep-keep f g m h)

pub keep-insert_all :
    (f : Bytes → Bool) (es m : Entries)
    → IsSorted m
    → keep f (insert_all es m) ≡ insert_all (keep f es) (keep f m)
keep-insert_all f [] m h = refl
keep-insert_all f ((k, v) ∷ es) m h =
    keep-insert_all f es (insert k v m) (insert-IsSorted k v m h)
    ∙ rw (keep-insert f k v m h) (ground arith)

-- Every key lies below `k`.
abbrev pub IsBelow : Bytes → Entries → Type 0
IsBelow k [] = Unit
IsBelow k ((j, w) ∷ m) = (j ≺ k) × IsBelow k m

pub insert-IsBelow : (k v : Bytes) (m : Entries) → IsBelow k m → insert k v m ≡ m ++ (k, v) ∷ []
unfolding insert
insert-IsBelow k v [] h = refl
insert-IsBelow k v ((j, w) ∷ m) h = ground (arith, gt_of_lt j k h.0, insert-IsBelow k v m h.1)

pub IsBelow-append : (k : Bytes) (m n : Entries) → IsBelow k m → IsBelow k n → IsBelow k (m ++ n)
IsBelow-append k [] n hm hn = hn
IsBelow-append k ((j, w) ∷ m) n hm hn = (hm.0, IsBelow-append k m n hm.1 hn)

-- The last entry is replaced.
pub insert-append_same :
    (k v w : Bytes) (m : Entries) → IsBelow k m → insert k v (m ++ (k, w) ∷ []) ≡ m ++ (k, v) ∷ []
unfolding insert
insert-append_same k v w [] h = ground (arith, cmp_refl k)
insert-append_same k v w ((j, u) ∷ m) h =
    ground (arith, gt_of_lt j k h.0, insert-append_same k v w m h.1)
