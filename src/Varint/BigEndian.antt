-- ===== src/Varint/BigEndian.antt =====
-- `to_be_bytes` and `from_be_bytes` of the unsigned integers of `w` bytes.
use cdoc.Prelude.{
  ℕ, zero, suc, ◌+◌, ◌*◌, ◌/◌, ◌%◌, ◌^◌, ◌<◌, ◌≡◌, refl, arith, [], ◌∷◌, ◌++◌, Bytes, take, drop,
  AreBytes, length, replicate, compare, cmp, and_then, ap, sym,
}
use native.Mathlib.Nat.{
  div-add-mod, mod-lt, one-le-pow, div-lt_iff_lt-mul, pow-suc, div-eq_of_lt, mod-eq_of_lt,
}

unfoldable pub be_bytes : ℕ → ℕ → Bytes
be_bytes zero n = []
be_bytes (suc w) n = (n / 256 ^ w) ∷ be_bytes w (n % 256 ^ w)

unfoldable pub of_be : Bytes → ℕ
of_be [] = 0
of_be (b ∷ bs) = b * 256 ^ length bs + of_be bs

pub pow_pos : (w : ℕ) → 0 < 256 ^ w
pow_pos w = one-le-pow w 256 (omega arith)

pub pow_suc : (w : ℕ) → 256 ^ suc w ≡ 256 * 256 ^ w
pow_suc w = omega (arith, pow-suc 256 w)

pub length-be_bytes : (w n : ℕ) → length (be_bytes w n) ≡ w
unfolding be_bytes
length-be_bytes zero n = refl
length-be_bytes (suc w) n = ap suc (length-be_bytes w (n % 256 ^ w))

pub take-be_bytes : (w n : ℕ) (rest : Bytes) → take w (be_bytes w n ++ rest) ≡ be_bytes w n
unfolding be_bytes
take-be_bytes zero n rest = refl
take-be_bytes (suc w) n rest = ap (λ l. (n / 256 ^ w) ∷ l) (take-be_bytes w (n % 256 ^ w) rest)

pub drop-be_bytes : (w n : ℕ) (rest : Bytes) → drop w (be_bytes w n ++ rest) ≡ rest
unfolding be_bytes
drop-be_bytes zero n rest = refl
drop-be_bytes (suc w) n rest = drop-be_bytes w (n % 256 ^ w) rest

pub be_bytes_small : (w n : ℕ) → n < 256 ^ w → be_bytes (suc w) n ≡ 0 ∷ be_bytes w n
unfolding be_bytes
be_bytes_small w n h = rw (div-eq_of_lt h, mod-eq_of_lt h)

pub of_be-be_bytes : (w n : ℕ) → n < 256 ^ w → of_be (be_bytes w n) ≡ n
unfolding be_bytes of_be
of_be-be_bytes zero n h = omega arith
of_be-be_bytes (suc w) n h =
    rw (length-be_bytes, of_be-be_bytes w (n % 256 ^ w) (mod-lt n (pow_pos w)))
      (omega (arith, div-add-mod n (256 ^ w)))

pub be_bytes-AreBytes : (w n : ℕ) → n < 256 ^ w → AreBytes (be_bytes w n)
unfolding be_bytes
be_bytes-AreBytes zero n h = tt
be_bytes-AreBytes (suc w) n h = (
  (div-lt_iff_lt-mul (pow_pos w)).1 (omega (arith, pow_suc w)),
  be_bytes-AreBytes w (n % 256 ^ w) (mod-lt n (pow_pos w)),
)

pub of_be-zeros : (k : ℕ) (bs : Bytes) → of_be (replicate k 0 ++ bs) ≡ of_be bs
unfolding of_be
of_be-zeros zero bs = refl
of_be-zeros (suc k) bs = omega (arith, of_be-zeros k bs)

pub of_be-lt : (bs : Bytes) → AreBytes bs → of_be bs < 256 ^ length bs
unfolding of_be
of_be-lt [] h = omega arith
of_be-lt (b ∷ bs) h = grind (arith, pow_suc (length bs), of_be-lt bs h.1, h.0)

less_div_mod : (p q r q' r' : ℕ) → q < q' → r < p → p * q + r < p * q' + r'
less_div_mod p q r q' r' h k = grind arith

-- Two numbers compare as their quotients, and then as their remainders.
compare-div_mod :
    (p n m : ℕ) → 0 < p → compare n m ≡ and_then (compare (n / p) (m / p)) (compare (n % p) (m % p))
compare-div_mod p n m h = ground (
  arith,
  div-add-mod n p,
  div-add-mod m p,
  mod-lt n h,
  mod-lt m h,
  less_div_mod p (n / p) (n % p) (m / p) (m % p),
  less_div_mod p (m / p) (m % p) (n / p) (n % p),
)

-- Big-endian strings of one width stand in the order of their numbers.
pub cmp-be_bytes :
    (w n m : ℕ) → n < 256 ^ w → m < 256 ^ w → cmp (be_bytes w n) (be_bytes w m) ≡ compare n m
unfolding be_bytes cmp
cmp-be_bytes zero n m hn hm = ground arith
cmp-be_bytes (suc w) n m hn hm =
    rw (cmp-be_bytes w (n % 256 ^ w) (m % 256 ^ w) (mod-lt n (pow_pos w)) (mod-lt m (pow_pos w)))
      (sym (compare-div_mod (256 ^ w) n m (pow_pos w)))
