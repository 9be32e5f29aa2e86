-- ===== src/Varint/Shape.antt =====
-- What `write` writes: the number of significant bytes, and those bytes.
use cdoc.Prelude.{
  ℕ, zero, suc, ◌+◌, ◌-◌, ◌^◌, ◌≤◌, ◌<◌, ◌≡◌, ◌↔◌, refl, arith, ◌∷◌, AreBytes, length, drop, inl,
  inr, ℕ-cases,
}
use native.Mathlib.Nat.{mod-eq_of_lt, div-eq_of_lt, pow-le-pow_right, le-div_iff_mul-le, le_trans}
use native.Mathlib.Numerals.{sub-one}
use cdoc.Varint.{size_of, write}
use cdoc.Varint.BigEndian.{be_bytes, pow_pos, be_bytes_small, length-be_bytes, be_bytes-AreBytes}

-- A first byte 0 is passed over.
size_of_small : (w n : ℕ) → n < 256 ^ w → size_of (suc w) n ≡ size_of w n
unfolding size_of be_bytes
size_of_small w n h = rw (div-eq_of_lt h, mod-eq_of_lt h, sub-one)

-- A first byte that is not 0 ends the loop.
size_of_large : (w n : ℕ) → 256 ^ w ≤ n → size_of (suc w) n ≡ suc w
unfolding size_of be_bytes
size_of_large w n h =
    ground (arith, (le-div_iff_mul-le {k = 256 ^ w} {x = 1} {y = n} (pow_pos w)).1)

pub record HasSize (n size : ℕ) : Type 0 where
  pub fits : n < 256 ^ size
  pub least : 0 < size → 256 ^ (size - 1) ≤ n

-- The loop stops at the least number of bytes that hold the value.
pub size_of_bounds : (w n : ℕ) → n < 256 ^ w → (size_of w n ≤ w) × HasSize n (size_of w n)
size_of_bounds zero n h =
    unfold size_of be_bytes in (omega arith, record { fits = h; least = λ p. absurd (omega arith) })
size_of_bounds (suc w) n h = elim (ℕ-cases n (256 ^ w)) [
  | inl small ↦
      let (le, has) = size_of_bounds w n small in rw (size_of_small w n small) (omega arith, has)
  | inr large ↦
      rw (size_of_large w n large) (omega arith, record { fits = h; least = λ _. rw sub-one large })
]

drop_size :
    (w n : ℕ) → n < 256 ^ w → drop (w - size_of w n) (be_bytes w n) ≡ be_bytes (size_of w n) n
drop_size zero n h = unfold size_of be_bytes in refl
drop_size (suc w) n h = elim (ℕ-cases n (256 ^ w)) [
  | inl small ↦
      let le = (size_of_bounds w n small).0 in
      let first : suc w - size_of w n ≡ suc (w - size_of w n) = omega arith in
      rw (size_of_small w n small, first, be_bytes_small w n small) (drop_size w n small)
  | inr large ↦
      let none_left : suc w - suc w ≡ 0 = omega arith in rw (size_of_large w n large, none_left)
]

-- `write` gives the size, and then the value in that many bytes.
pub write-eq : (w n : ℕ) → n < 256 ^ w → write w n ≡ size_of w n ∷ be_bytes (size_of w n) n
unfolding write
write-eq w n h = rw (drop_size w n h)

-- The size is at most `k` exactly when the value fits `k` bytes.
pub size-le_iff : (n size k : ℕ) → HasSize n size → (size ≤ k) ↔ (n < 256 ^ k)
size-le_iff n size k h = (
  λ le. le_trans h.fits (pow-le-pow_right {n = 256} (omega arith) le),
  λ lt. elim (ℕ-cases k size) [
    | inl more ↦
        let bound = pow-le-pow_right {n = 256} (omega arith) {i = k} {j = size - 1} (omega arith) in
        absurd (omega (arith, bound, h.least (omega arith)))
    | inr le ↦ le
  ],
)

-- The encoding of a number that fits the width, which is at most 16, is made of bytes, one at
-- least and at most one more than the width.
pub write_shape :
    (w n : ℕ)
    → w ≤ 16
    → n < 256 ^ w
    → AreBytes (write w n) × (1 ≤ length (write w n)) × (length (write w n) ≤ w + 1)
write_shape w n hw h =
    let (le, has) = size_of_bounds w n h in
    rw (write-eq w n h, length-be_bytes)
      ((omega arith, be_bytes-AreBytes (size_of w n) n has.fits), omega arith, omega arith)
