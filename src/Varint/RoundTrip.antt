-- ===== src/Varint/RoundTrip.antt =====
-- `read_from` after `write`, also at another width, and `read_from` on any input.
use cdoc.Prelude.{
  ℕ, ◌+◌, ◌^◌, ◌≤◌, ◌<◌, ◌≡◌, refl, arith, [], ◌∷◌, ◌++◌, Bytes, length, ◌∙◌, inl, inr, zero, suc,
  take, length-take, ◌&&◌, ℕ-cases, ltb, if◌then◌else◌, lt→ltb, le→not-ltb, length-append,
}
use native.Mathlib.Numerals.{add-one}
use cdoc.Varint.{found, absent, panic, Returns, read_from, size_of, write}
use cdoc.Varint.BigEndian.{be_bytes, take-be_bytes, length-be_bytes, of_be-be_bytes, of_be-zeros}
use cdoc.Varint.Shape.{size_of_bounds, write-eq, size-le_iff}

-- `read_from` on a size byte with enough behind it.
read_from_sized :
    (v size n : ℕ) (rest : Bytes)
    → size ≤ v
    → n < 256 ^ size
    → read_from v (size ∷ be_bytes size n ++ rest) ≡ found (n, size + 1)
unfolding read_from
read_from_sized v size n rest le fits =
    let long : size ≤ length (be_bytes size n ++ rest) =
      rw (length-append, length-be_bytes) (omega arith) in
    rw (
      le→not-ltb v size le,
      le→not-ltb (length (be_bytes size n ++ rest)) size long,
      take-be_bytes,
      of_be-zeros,
      of_be-be_bytes size n fits,
    )

-- A size byte over the width is refused.
read_from_wider : (v size : ℕ) (rest : Bytes) → v < size → read_from v (size ∷ rest) ≡ absent
unfolding read_from
read_from_wider v size rest h = rw (lt→ltb v size h)

-- What `write` wrote at width `w`, for a number of that width, is read at width `v`, with any
-- bytes behind it: the number and the length of its encoding where the number fits `v` bytes, and
-- `None` where it does not.
pub read_from-write :
    (v w n : ℕ) (rest : Bytes)
    → n < 256 ^ w
    → read_from v (write w n ++ rest)
      ≡ (if ltb n (256 ^ v) then found (n, length (write w n)) else absent)
read_from-write v w n rest h =
    let (le, has) = size_of_bounds w n h in
    rw (write-eq w n h, length-be_bytes)
      (elim (ℕ-cases n (256 ^ v)) [
        | inl small ↦
            rw (lt→ltb n _ small, ← add-one)
              (read_from_sized v (size_of w n) n rest ((size-le_iff n _ v has).1 small) has.fits)
        | inr large ↦ rw (le→not-ltb n _ large) (
            read_from_wider v (size_of w n) _
              (ground (arith, (size-le_iff n (size_of w n) v has).0)))
      ])

-- The round trip at one width.
pub read_from-write_self :
    (w n : ℕ) (rest : Bytes)
    → n < 256 ^ w
    → read_from w (write w n ++ rest) ≡ found (n, length (write w n))
read_from-write_self w n rest h = read_from-write w w n rest h ∙ rw (lt→ltb n _ h)

-- The bytes that `read_from` counts are there, and there is at least one.
pub read_from_takes :
    (w : ℕ) (bytes : Bytes)
    → Returns (λ (r : ℕ × ℕ). (1 ≤ r.1) × (r.1 ≤ length bytes) × (r.1 ≤ w + 1)) (read_from w bytes)
unfolding read_from
read_from_takes w [] = tt
read_from_takes w (b ∷ rest) = ground arith

-- A size byte with fewer bytes behind it than it counts.
read_from_short :
    (v size : ℕ) (rest : Bytes)
    → length rest < size
    → read_from v (size ∷ rest) ≡ (if ltb v size then absent else panic)
unfolding read_from
read_from_short v size rest h = ground (arith, h)

length-write : (w n : ℕ) → n < 256 ^ w → length (write w n) ≡ size_of w n + 1
length-write w n h = rw (write-eq w n h, length-be_bytes) (omega arith)

-- The first `k` bytes of what `write` wrote at width `w`, for a number of that width, where that
-- is not all of it, read at width `v`: `read_from` panics where there is a byte and the number
-- fits `v` bytes, and gives `None` elsewhere.
pub read_from-take-write :
    (v w n k : ℕ)
    → n < 256 ^ w
    → k < length (write w n)
    → read_from v (take k (write w n)) ≡ (if ltb 0 k && ltb n (256 ^ v) then panic else absent)
read_from-take-write v w n zero h few = unfold read_from in refl
read_from-take-write v w n (suc k) h few =
    let (le, has) = size_of_bounds w n h in
    let cut : k < size_of w n = omega (arith, length-write w n h) in
    rw (write-eq w n h) (
      read_from_short v (size_of w n) (take k (be_bytes (size_of w n) n))
        (rw (length-take k (be_bytes (size_of w n) n) (rw (length-be_bytes) (omega arith))) cut)
      ∙ elim (ℕ-cases n (256 ^ v)) [
        | inl small ↦
            rw (le→not-ltb v _ ((size-le_iff n _ v has).1 small), lt→ltb n _ small) (ground arith)
        | inr large ↦
            let wide : v < size_of w n = ground (arith, (size-le_iff n (size_of w n) v has).0) in
            rw (lt→ltb v _ wide, le→not-ltb n _ large) (ground arith)
      ])
