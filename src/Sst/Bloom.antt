-- ===== src/Sst/Bloom.antt =====
-- The bloom filter: what `finish` sets, and what `bloom_may_contain` tests.
use cdoc.Prelude.{
  ℕ, zero, suc, ◌*◌, ◌/◌, ◌%◌, ◌^◌, ◌<◌, ◌≡◌, ◌≢◌, refl, ap, ◌∙◌, arith, List, [], ◌∷◌, Bytes,
  AreBytes, All, All-imp, length, replicate, length-replicate, Bool, true, not, ◌&&◌, ◌||◌, ◌==◌,
  ltb, Bool-cases, inl, inr, each, each_lem, ==→eq, eq→==, subst,
}
use Prim.Native.Nat.{bit_and, bit_or}
use native.Mathlib.Nat.{mod-lt}
use cdoc.Crc32.{Crc32}
use cdoc.Sst.{hash_numbers, bloom_hash}
use cdoc.Sst.Write.{modify, set_bit, set_bits, add_keys, filter_size, bloom_filter}
use cdoc.Sst.Read.{byte_at, test_bit, test_bits, bloom_may_contain}

-- A bit of a byte that is set, and the bits that were there.
abbrev sets : ℕ → ℕ → Bool
sets b j = not (bit_and (bit_or b (2 ^ j)) (2 ^ j) == 0) && ltb (bit_or b (2 ^ j)) 256

abbrev keeps : ℕ → ℕ → ℕ → Bool
keeps b j k = bit_and b (2 ^ k) == 0 || not (bit_and (bit_or b (2 ^ j)) (2 ^ k) == 0)

sets_table : each (λ b. each (sets b) 8) 256 ≡ true
unfolding each
sets_table = refl

keeps_table : each (λ b. each (λ j. each (keeps b j) 8) 8) 256 ≡ true
unfolding each
keeps_table = refl

sets_lem : (b j : ℕ) → b < 256 → j < 8 → sets b j ≡ true
sets_lem b j hb hj = each_lem (sets b) j 8 hj (each_lem (λ c. each (sets c) 8) b 256 hb sets_table)

keeps_lem : (b j k : ℕ) → b < 256 → j < 8 → k < 8 → keeps b j k ≡ true
keeps_lem b j k hb hj hk = each_lem (keeps b j) k 8 hk (
    each_lem (λ i. each (keeps b i) 8) j 8 hj
      (each_lem (λ c. each (λ i. each (keeps c i) 8) 8) b 256 hb keeps_table))

length-modify : (i : ℕ) (f : ℕ → ℕ) (bs : Bytes) → length (modify i f bs) ≡ length bs
length-modify i f [] = refl
length-modify zero f (b ∷ bs) = refl
length-modify (suc i) f (b ∷ bs) = ap suc (length-modify i f bs)

byte_at-modify :
    (i : ℕ) (f : ℕ → ℕ) (bs : Bytes) → i < length bs → byte_at i (modify i f bs) ≡ f (byte_at i bs)
byte_at-modify i f [] h = absurd (omega (arith, h))
byte_at-modify zero f (b ∷ bs) h = refl
byte_at-modify (suc i) f (b ∷ bs) h = byte_at-modify i f bs (omega (arith, h))

byte_at-modify_other :
    (i j : ℕ) (f : ℕ → ℕ) (bs : Bytes) → i ≢ j → byte_at i (modify j f bs) ≡ byte_at i bs
byte_at-modify_other i j f [] h = refl
byte_at-modify_other zero zero f (b ∷ bs) h = absurd (h refl)
byte_at-modify_other zero (suc j) f (b ∷ bs) h = refl
byte_at-modify_other (suc i) zero f (b ∷ bs) h = refl
byte_at-modify_other (suc i) (suc j) f (b ∷ bs) h =
    byte_at-modify_other i j f bs (λ e. h (ap suc e))

modify-AreBytes :
    (i : ℕ) (f : ℕ → ℕ) (bs : Bytes)
    → ((b : ℕ) → b < 256 → f b < 256)
    → AreBytes bs
    → AreBytes (modify i f bs)
modify-AreBytes i f [] hf h = h
modify-AreBytes zero f (b ∷ bs) hf h = (hf b h.0, h.1)
modify-AreBytes (suc i) f (b ∷ bs) hf h = (h.0, modify-AreBytes i f bs hf h.1)

byte_at-IsByte : (i : ℕ) (bs : Bytes) → AreBytes bs → byte_at i bs < 256
byte_at-IsByte i [] h = omega arith
byte_at-IsByte zero (b ∷ bs) h = h.0
byte_at-IsByte (suc i) (b ∷ bs) h = byte_at-IsByte i bs h.1

bit_below : (p : ℕ) → p % 8 < 8
bit_below p = omega arith

set_bit-AreBytes : (p : ℕ) (bs : Bytes) → AreBytes bs → AreBytes (set_bit p bs)
unfolding set_bit
set_bit-AreBytes p bs h =
    modify-AreBytes (p / 8) (λ b. bit_or b (2 ^ (p % 8))) bs
      (λ b hb. ground (arith, sets_lem b (p % 8) hb (bit_below p))) h

length-set_bit : (p : ℕ) (bs : Bytes) → length (set_bit p bs) ≡ length bs
unfolding set_bit
length-set_bit p bs = length-modify (p / 8) _ bs

-- The bit is set.
test_bit-set_bit :
    (p : ℕ) (bs : Bytes) → AreBytes bs → p / 8 < length bs → test_bit p (set_bit p bs) ≡ true
unfolding test_bit set_bit
test_bit-set_bit p bs h less = rw (byte_at-modify (p / 8) (λ b. bit_or b (2 ^ (p % 8))) bs less) (
    ground
      (arith, sets_lem (byte_at (p / 8) bs) (p % 8) (byte_at-IsByte (p / 8) bs h) (bit_below p)))

-- A bit that was set remains so.
test_bit-set_bit_kept :
    (p q : ℕ) (bs : Bytes)
    → AreBytes bs
    → p / 8 < length bs
    → test_bit q bs ≡ true
    → test_bit q (set_bit p bs) ≡ true
unfolding test_bit set_bit
test_bit-set_bit_kept p q bs h less was = elim (Bool-cases (q / 8 == p / 8)) [
  | inl e ↦
      let same = ==→eq (q / 8) (p / 8) e in
      let was_here : not (bit_and (byte_at (p / 8) bs) (2 ^ (q % 8)) == 0) ≡ true =
        subst (λ i. not (bit_and (byte_at i bs) (2 ^ (q % 8)) == 0) ≡ true) same was in
      let kept =
        keeps_lem (byte_at (p / 8) bs) (p % 8) (q % 8) (byte_at-IsByte (p / 8) bs h) (bit_below p)
          (bit_below q) in
      rw same (
        rw (byte_at-modify (p / 8) (λ b. bit_or b (2 ^ (p % 8))) bs less)
          (ground (arith, was_here, kept)))
  | inr e ↦
      let other : q / 8 ≢ p / 8 = λ same. ground (arith, eq→== (q / 8) (p / 8) same) in
      rw (byte_at-modify_other (q / 8) (p / 8) (λ b. bit_or b (2 ^ (p % 8))) bs other) was
]

-- A filter of `n` bytes, and a position in it.
abbrev IsFilter : ℕ → Bytes → Type 0
IsFilter n bloom = AreBytes bloom × (length bloom ≡ n)

position : (n h : ℕ) (bloom : Bytes) → 0 < n → IsFilter n bloom → h % (n * 8) / 8 < length bloom
position n h bloom positive f =
    rw f.1 (omega (arith, mod-lt h {m = n * 8} (omega (arith, positive))))

module _ (crc : Crc32) (n : ℕ) (positive : 0 < n) where
  set_bits-IsFilter :
      (key : Bytes) (is : List ℕ) (bloom : Bytes)
      → IsFilter n bloom
      → IsFilter n (set_bits crc n key is bloom)
  unfolding set_bits
  set_bits-IsFilter key [] bloom f = f
  set_bits-IsFilter key (i ∷ is) bloom f =
      let p = bloom_hash crc key i % (n * 8) in
      set_bits-IsFilter key is (set_bit p bloom)
        (set_bit-AreBytes p bloom f.0, length-set_bit p bloom ∙ f.1)

  test_bit-set_bits :
      (q : ℕ) (key : Bytes) (is : List ℕ) (bloom : Bytes)
      → IsFilter n bloom
      → test_bit q bloom ≡ true
      → test_bit q (set_bits crc n key is bloom) ≡ true
  unfolding set_bits
  test_bit-set_bits q key [] bloom f was = was
  test_bit-set_bits q key (i ∷ is) bloom f was =
      let h = bloom_hash crc key i in
      let p = h % (n * 8) in
      test_bit-set_bits q key is (set_bit p bloom)
        (set_bit-AreBytes p bloom f.0, length-set_bit p bloom ∙ f.1)
        (test_bit-set_bit_kept p q bloom f.0 (position n h bloom positive f) was)

  -- All bits of a key are set behind its loop.
  test_bits-set_bits :
      (key : Bytes) (is : List ℕ) (bloom : Bytes)
      → IsFilter n bloom
      → test_bits crc (n * 8) key is (set_bits crc n key is bloom) ≡ true
  unfolding set_bits test_bits
  test_bits-set_bits key [] bloom f = refl
  test_bits-set_bits key (i ∷ is) bloom f =
      let h = bloom_hash crc key i in
      let p = h % (n * 8) in
      let f' : IsFilter n (set_bit p bloom) =
        (set_bit-AreBytes p bloom f.0, length-set_bit p bloom ∙ f.1) in
      rw
        (test_bit-set_bits p key is (set_bit p bloom) f'
          (test_bit-set_bit p bloom f.0 (position n h bloom positive f)))
        (test_bits-set_bits key is (set_bit p bloom) f')

  test_bits_kept :
      (k key : Bytes) (is js : List ℕ) (bloom : Bytes)
      → IsFilter n bloom
      → test_bits crc (n * 8) k is bloom ≡ true
      → test_bits crc (n * 8) k is (set_bits crc n key js bloom) ≡ true
  unfolding test_bits
  test_bits_kept k key [] js bloom f was = refl
  test_bits_kept k key (i ∷ is) js bloom f was = ground (
    arith,
    was,
    test_bit-set_bits (bloom_hash crc k i % (n * 8)) key js bloom f,
    test_bits_kept k key is js bloom f,
  )

  test_bits-add_keys :
      (k : Bytes) (ks : List Bytes) (bloom : Bytes)
      → IsFilter n bloom
      → test_bits crc (n * 8) k hash_numbers bloom ≡ true
      → test_bits crc (n * 8) k hash_numbers (add_keys crc n ks bloom) ≡ true
  unfolding add_keys
  test_bits-add_keys k [] bloom f was = was
  test_bits-add_keys k (key ∷ ks) bloom f was =
      test_bits-add_keys k ks (set_bits crc n key hash_numbers bloom)
        (set_bits-IsFilter key hash_numbers bloom f)
        (test_bits_kept k key hash_numbers hash_numbers bloom f was)

  add_keys-IsFilter :
      (ks : List Bytes) (bloom : Bytes) → IsFilter n bloom → IsFilter n (add_keys crc n ks bloom)
  unfolding add_keys
  add_keys-IsFilter [] bloom f = f
  add_keys-IsFilter (key ∷ ks) bloom f =
      add_keys-IsFilter ks (set_bits crc n key hash_numbers bloom)
        (set_bits-IsFilter key hash_numbers bloom f)

  add_keys-All :
      (ks : List Bytes) (bloom : Bytes)
      → IsFilter n bloom
      → All (λ k. test_bits crc (n * 8) k hash_numbers (add_keys crc n ks bloom) ≡ true) ks
  unfolding add_keys
  add_keys-All [] bloom f = tt
  add_keys-All (key ∷ ks) bloom f =
      let f' = set_bits-IsFilter key hash_numbers bloom f in
      let bloom' = set_bits crc n key hash_numbers bloom in
      (
        test_bits-add_keys key ks bloom' f' (test_bits-set_bits key hash_numbers bloom f),
        add_keys-All ks bloom' f',
      )

zeros-AreBytes : (n : ℕ) → AreBytes (replicate n 0)
zeros-AreBytes zero = tt
zeros-AreBytes (suc n) = (omega arith, zeros-AreBytes n)

bloom_may_contain-test_bits :
    (crc : Crc32) (n : ℕ) (k bloom : Bytes)
    → length bloom ≡ n
    → test_bits crc (n * 8) k hash_numbers bloom ≡ true
    → bloom_may_contain crc bloom k ≡ true
unfolding bloom_may_contain
bloom_may_contain-test_bits crc n k [] e t = refl
bloom_may_contain-test_bits crc n k (b ∷ bs) e t = rw e t

-- The bloom filter of a table has no false negatives: for every key that the table was written
-- with, `bloom_may_contain` answers that it may be there.
pub bloom_may_contain-bloom_filter :
    (crc : Crc32) (ks : List Bytes)
    → All (λ k. bloom_may_contain crc (bloom_filter crc ks) k ≡ true) ks
unfolding bloom_filter
bloom_may_contain-bloom_filter crc ks =
    let n = filter_size crc (length ks) in
    let positive : 0 < n = unfold filter_size in ground arith in
    let f : IsFilter n (replicate n 0) = (zeros-AreBytes n, length-replicate n 0) in
    All-imp
      (λ k t.
        bloom_may_contain-test_bits crc n k _
          (add_keys-IsFilter crc n positive ks (replicate n 0) f).1 t)
      ks (add_keys-All crc n positive ks (replicate n 0) f)
