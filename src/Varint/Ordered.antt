-- ===== src/Varint/Ordered.antt =====
-- Encodings compare as the numbers, whatever follows them: they can be compared without decoding.
use cdoc.Prelude.{
  ℕ, ◌-◌, ◌^◌, ◌<◌, ◌≡◌, arith, ◌∷◌, ◌++◌, Bytes, ◌∙◌, inl, inr, ℕ-cases, compare, cmp, and_then,
  cmp-append,
}
use native.Mathlib.Nat.{pow-le-pow_right}
use cdoc.Varint.{write}
use cdoc.Varint.BigEndian.{be_bytes, length-be_bytes, cmp-be_bytes}
use cdoc.Varint.Shape.{HasSize, size_of_bounds, write-eq}

-- The number with more significant bytes is the larger one.
lt_of_size : (n m s t : ℕ) → HasSize n s → HasSize m t → s < t → n < m
lt_of_size n m s t hn hm h =
    let bound = pow-le-pow_right {n = 256} (omega arith) {i = s} {j = t - 1} (omega arith) in
    omega (arith, bound, hn.fits, hm.least (omega arith))

cmp_same_size :
    (n m s t : ℕ) (xs ys : Bytes)
    → s ≡ t
    → n < 256 ^ s
    → m < 256 ^ t
    → cmp (be_bytes s n ++ xs) (be_bytes t m ++ ys) ≡ and_then (compare n m) (cmp xs ys)
cmp_same_size n m s t xs ys e hn hm =
    cmp-append (be_bytes s n) (be_bytes t m) xs ys (rw (length-be_bytes, length-be_bytes) e)
    ∙ rw e (rw (cmp-be_bytes t n m (rw e at hn) hm))

cmp_sized :
    (n m s t : ℕ) (xs ys : Bytes)
    → HasSize n s
    → HasSize m t
    → cmp (s ∷ be_bytes s n ++ xs) (t ∷ be_bytes t m ++ ys) ≡ and_then (compare n m) (cmp xs ys)
unfolding cmp
cmp_sized n m s t xs ys hn hm = elim (ℕ-cases s t) [
  | inl less ↦ ground (arith, lt_of_size n m s t hn hm less)
  | inr ge ↦ elim (ℕ-cases t s) [
    | inl more ↦ ground (arith, lt_of_size m n t s hm hn more)
    | inr le ↦
        let same : s ≡ t = omega arith in
        ground (arith, cmp_same_size n m s t xs ys same hn.fits hm.fits)
  ]
]

-- Encodings compare as byte strings like the numbers, and like what follows them where the numbers
-- are equal; the numbers fit their widths, which may differ.
pub cmp-write :
    (w v n m : ℕ) (xs ys : Bytes)
    → n < 256 ^ w
    → m < 256 ^ v
    → cmp (write w n ++ xs) (write v m ++ ys) ≡ and_then (compare n m) (cmp xs ys)
cmp-write w v n m xs ys hn hm =
    rw (write-eq w n hn, write-eq v m hm)
      (cmp_sized n m _ _ xs ys (size_of_bounds w n hn).1 (size_of_bounds v m hm).1)
