-- ===== src/Prelude/Order.antt =====
-- The order of byte strings, Rust's `Ord` of `[u8]`: lexicographic, a prefix before what it starts.
use Prim.Native.Nat.{compare, Ordering}
use Prim.Native.Nat.Ordering.{lt, eq, gt}
use mathlib.Core.Path.{◌≡◌, refl}
use mathlib.Core.Logic.{◌⊎◌, inl, inr}
use mathlib.Core.Bool.{Bool, true, false}
use mathlib.Core.List.{[], ◌∷◌, ◌++◌}
use native.Mathlib.Omega.{arith}
use cdoc.Prelude.Lists.{Bytes, length}

-- `Ordering::then`
abbrev pub and_then : Ordering → Ordering → Ordering
and_then eq second = second
and_then lt _ = lt
and_then gt _ = gt

unfoldable pub cmp : Bytes → Bytes → Ordering
cmp [] [] = eq
cmp [] (y ∷ ys) = lt
cmp (x ∷ xs) [] = gt
cmp (x ∷ xs) (y ∷ ys) = and_then (compare x y) (cmp xs ys)

pub Ordering-cases : (o : Ordering) → (o ≡ lt) ⊎ ((o ≡ eq) ⊎ (o ≡ gt))
Ordering-cases lt = inl refl
Ordering-cases eq = inr (inl refl)
Ordering-cases gt = inr (inr refl)

infix 50 ◌≺◌
abbrev pub ◌≺◌ : Bytes → Bytes → Type 0
a ≺ b = cmp a b ≡ lt

pub cmp_refl : (a : Bytes) → cmp a a ≡ eq
unfolding cmp
cmp_refl [] = refl
cmp_refl (x ∷ xs) = ground (arith, cmp_refl xs)

pub eq_of_cmp : (a b : Bytes) → cmp a b ≡ eq → a ≡ b
unfolding cmp
eq_of_cmp [] [] h = refl
eq_of_cmp [] (y ∷ ys) h = cc
eq_of_cmp (x ∷ xs) [] h = cc
eq_of_cmp (x ∷ xs) (y ∷ ys) h = ground (arith, eq_of_cmp xs ys)

pub lt_of_gt : (a b : Bytes) → cmp a b ≡ gt → cmp b a ≡ lt
unfolding cmp
lt_of_gt [] [] h = cc
lt_of_gt [] (y ∷ ys) h = cc
lt_of_gt (x ∷ xs) [] h = refl
lt_of_gt (x ∷ xs) (y ∷ ys) h = ground (arith, lt_of_gt xs ys)

pub gt_of_lt : (a b : Bytes) → cmp a b ≡ lt → cmp b a ≡ gt
unfolding cmp
gt_of_lt [] [] h = cc
gt_of_lt [] (y ∷ ys) h = refl
gt_of_lt (x ∷ xs) [] h = cc
gt_of_lt (x ∷ xs) (y ∷ ys) h = ground (arith, gt_of_lt xs ys)

pub ≺_trans : (a b c : Bytes) → a ≺ b → b ≺ c → a ≺ c
unfolding cmp
≺_trans [] [] c p q = q
≺_trans [] (y ∷ ys) [] p q = cc
≺_trans [] (y ∷ ys) (z ∷ zs) p q = refl
≺_trans (x ∷ xs) [] c p q = cc
≺_trans (x ∷ xs) (y ∷ ys) [] p q = cc
≺_trans (x ∷ xs) (y ∷ ys) (z ∷ zs) p q = ground (arith, ≺_trans xs ys zs)

-- A common front is passed over.
pub cmp-append_left : (a b c : Bytes) → cmp (a ++ b) (a ++ c) ≡ cmp b c
unfolding cmp
cmp-append_left [] b c = refl
cmp-append_left (x ∷ xs) b c = ground (arith, cmp-append_left xs b c)

-- Fronts of one length are compared first.
pub cmp-append :
    (a b c d : Bytes) → length a ≡ length b → cmp (a ++ c) (b ++ d) ≡ and_then (cmp a b) (cmp c d)
unfolding cmp
cmp-append [] [] c d h = refl
cmp-append [] (y ∷ ys) c d h = absurd (omega arith)
cmp-append (x ∷ xs) [] c d h = absurd (omega arith)
cmp-append (x ∷ xs) (y ∷ ys) c d h = ground (arith, cmp-append xs ys c d (omega arith))

-- The Boolean tests `==` and `<` of byte strings.
abbrev pub is_eq : Ordering → Bool
is_eq eq = true
is_eq lt = false
is_eq gt = false

abbrev pub is_lt : Ordering → Bool
is_lt lt = true
is_lt eq = false
is_lt gt = false
