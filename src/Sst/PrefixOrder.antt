-- ===== src/Sst/PrefixOrder.antt =====
-- The keys with a prefix lie together: none below the prefix, none from its successor on.
use cdoc.Prelude.{
  ℕ, [], ◌∷◌, Bytes, ◌≡◌, refl, arith, Option, none, some, true, false, cmp, ≺_trans, ◌≺◌,
}
use cdoc.BTreeMap.{Entries, keep}
use cdoc.BTreeMap.Sorted.{IsAbove}
use cdoc.BTreeMap.Joined.{AreBelow}
use cdoc.Sst.Prefix.{starts_with, prefix_successor, successor, bump_head, prefix_successor-eq}
use cdoc.Sst.Read.{is_past, beyond}

is_past-bump_head :
    (b c : ℕ) (k : Bytes) (o : Option Bytes)
    → c ≡ b
    → is_past o k ≡ false
    → is_past (bump_head b o) (c ∷ k) ≡ false
unfolding cmp
is_past-bump_head b c k none e h = ground arith
is_past-bump_head b c k (some s) e h = ground arith

is_past-successor : (k p : Bytes) → starts_with k p ≡ true → is_past (successor p) k ≡ false
unfolding starts_with successor
is_past-successor k [] h = refl
is_past-successor [] (b ∷ p) h = cc
is_past-successor (c ∷ k) (b ∷ p) h =
    is_past-bump_head b c k (successor p) (ground arith) (is_past-successor k p (ground arith))

-- A key with the prefix does not lie at the prefix's successor or above it.
is_past-prefix_successor :
    (k p : Bytes) → starts_with k p ≡ true → is_past (prefix_successor p) k ≡ false
is_past-prefix_successor k p h = rw (prefix_successor-eq p) (is_past-successor k p h)

is_past_trans : (o : Option Bytes) (j k : Bytes) → j ≺ k → is_past o j ≡ true → is_past o k ≡ true
is_past_trans none j k less h = h
is_past_trans (some s) j k less h = ground (arith, h, less, ≺_trans j k s)

-- Where the loop may stop, the keys above do not have the prefix.
starts_with-beyond : (p j k : Bytes) → j ≺ k → beyond p j ≡ true → starts_with k p ≡ false
unfolding beyond
starts_with-beyond p j k less h =
    ground (arith, h, is_past_trans (prefix_successor p) j k less, is_past-prefix_successor k p)

pub keep-IsAbove :
    (prefix j : Bytes) (m : Entries)
    → beyond prefix j ≡ true
    → IsAbove j m
    → keep (λ k. starts_with k prefix) m ≡ []
keep-IsAbove prefix j [] h above = refl
keep-IsAbove prefix j ((k, v) ∷ m) h above =
    rw (starts_with-beyond prefix j k above.0 h) (keep-IsAbove prefix j m h above.1)

-- No key below the prefix starts with it.
starts_with-ge : (k p : Bytes) → k ≺ p → starts_with k p ≡ false
unfolding starts_with cmp
starts_with-ge [] [] h = cc
starts_with-ge (c ∷ k) [] h = cc
starts_with-ge [] (b ∷ p) h = refl
starts_with-ge (c ∷ k) (b ∷ p) h = ground (arith, starts_with-ge k p)

pub keep-AreBelow :
    (prefix : Bytes) (m : Entries) → AreBelow prefix m → keep (λ k. starts_with k prefix) m ≡ []
keep-AreBelow prefix [] h = refl
keep-AreBelow prefix ((k, v) ∷ m) h = rw (starts_with-ge k prefix h.0) (keep-AreBelow prefix m h.1)
