-- ===== src/Sst/Block.antt =====
-- The entries of a block: what `SSTableWriter::add` appends, and what `decode_block` reads.
use cdoc.Prelude.{
  ℕ, zero, suc, ◌+◌, ◌%◌, ◌^◌, ◌≤◌, ◌<◌, ◌≡◌, refl, ap, ◌∙◌, arith, [], ◌∷◌, ◌++◌, Bytes, length,
  take, drop, append_assoc, length-append, take-append, drop-append, take-append-drop, length-drop,
  min, if◌then◌else◌, ◌==◌, ltb, leb, true, false, Bool-cases, inl, inr, le→not-ltb,
}
use cdoc.Varint.LittleEndian.{le_bytes, of_le, length-le_bytes, of_le-le_bytes}
use cdoc.BTreeMap.{Entries}
use cdoc.Sst.{prefix_reset_interval}
use cdoc.Sst.Tables.{AreSmall}
use cdoc.Sst.Write.{common_prefix_len, entry_bytes}
use cdoc.Sst.Read.{decode_entries, reset_key}

pub take-exact : (n : ℕ) (a rest : Bytes) → length a ≡ n → take n (a ++ rest) ≡ a
take-exact n a rest h = rw (← h) (take-append a rest)

pub drop-exact : (n : ℕ) (a rest : Bytes) → length a ≡ n → drop n (a ++ rest) ≡ rest
drop-exact n a rest h = rw (← h) (drop-append a rest)

pub take-le_bytes : (w n : ℕ) (rest : Bytes) → take w (le_bytes w n ++ rest) ≡ le_bytes w n
take-le_bytes w n rest = take-exact w (le_bytes w n) rest (length-le_bytes w n)

pub drop-le_bytes : (w n : ℕ) (rest : Bytes) → drop w (le_bytes w n ++ rest) ≡ rest
drop-le_bytes w n rest = drop-exact w (le_bytes w n) rest (length-le_bytes w n)

take-nil : (n : ℕ) → take {A = ℕ} n [] ≡ []
take-nil zero = refl
take-nil (suc n) = refl

-- The bytes that an entry shares with the key before it.
abbrev pub shared_of : ℕ → Bytes → Bytes → ℕ
shared_of count prev key =
    if count % prefix_reset_interval == 0 then 0 else common_prefix_len prev key % 2 ^ 16

unfoldable pub encode_entries : ℕ → Bytes → Entries → Bytes
encode_entries count prev [] = []
encode_entries count prev ((k, v) ∷ es) =
    entry_bytes (shared_of count prev k) k v ++ encode_entries (count + 1) k es

common_prefix_len_bounds :
    (a b : Bytes)
    → (common_prefix_len a b ≤ length a)
      × (common_prefix_len a b ≤ length b)
      × (take (common_prefix_len a b) a ≡ take (common_prefix_len a b) b)
unfolding common_prefix_len
common_prefix_len_bounds [] b = (omega arith, omega arith, refl)
common_prefix_len_bounds (x ∷ a) [] = (omega arith, omega arith, refl)
common_prefix_len_bounds (x ∷ a) (y ∷ b) = ground (arith, common_prefix_len_bounds a b)

-- The front of a key that the reader takes from the key before it.
shared_front :
    (count : ℕ) (prev key : Bytes)
    → length key < 2 ^ 16
    → (shared_of count prev key ≤ length key)
      × (take
            (min (shared_of count prev key) (length (reset_key count prev)))
            (reset_key count prev)
          ≡ take (shared_of count prev key) key)
shared_front count prev key h =
    let b = common_prefix_len_bounds prev key in
    elim (Bool-cases (count % prefix_reset_interval == 0)) [
      | inl e ↦ rw e (omega arith, take-nil (min 0 0))
      | inr e ↦
          let small : common_prefix_len prev key % 2 ^ 16 ≡ common_prefix_len prev key =
            omega (arith, b.1) in
          let least : min (common_prefix_len prev key) (length prev) ≡ common_prefix_len prev key =
            omega (arith, b.0) in
          rw e (rw small (rw least (b.1, b.2)))
    ]

pub length-entry_bytes : (shared : ℕ) (k v : Bytes) → 6 ≤ length (entry_bytes shared k v)
unfolding entry_bytes le_bytes
length-entry_bytes shared k v = omega arith

pub decode_entries-nil : (fuel count : ℕ) (prev : Bytes) → decode_entries fuel count prev [] ≡ []
unfolding decode_entries
decode_entries-nil zero count prev = refl
decode_entries-nil (suc fuel) count prev = refl

-- A key is what it shares with the key before it, and the rest.
whole_key :
    (count : ℕ) (prev key : Bytes)
    → length key < 2 ^ 16
    → take (min (shared_of count prev key) (length (reset_key count prev))) (reset_key count prev)
        ++ drop (shared_of count prev key) key
      ≡ key
whole_key count prev key h =
    ap (λ x. x ++ drop (shared_of count prev key) key) (shared_front count prev key h).1
    ∙ take-append-drop (shared_of count prev key) key

-- The fields of an entry, as the reader cuts them out of what is left of the block.
record HasFields (block suffix value rest : Bytes) (shared : ℕ) : Type 0 where
  shared_is : of_le (take 2 block) ≡ shared
  suffix_len_is : of_le (take 2 (drop 2 block)) ≡ length suffix
  value_len_is : of_le (take 2 (drop 2 (drop 2 block))) ≡ length value
  rest_is : drop 2 (drop 2 (drop 2 block)) ≡ suffix ++ (value ++ rest)
  long : leb 6 (length block) ≡ true

entry_bytes-HasFields :
    (shared : ℕ) (k v rest : Bytes)
    → shared ≤ length k
    → length k < 2 ^ 16
    → length v < 2 ^ 16
    → HasFields (entry_bytes shared k v ++ rest) (drop shared k) v rest shared
entry_bytes-HasFields shared k v rest hs hk hv =
    let suffix = drop shared k in
    let small_suffix : length suffix % 2 ^ 16 ≡ length suffix =
      omega (arith, length-drop shared k) in
    let small_value : length v % 2 ^ 16 ≡ length v = omega arith in
    let last = suffix ++ (v ++ rest) in
    let third = le_bytes 2 (length v) ++ last in
    let second = le_bytes 2 (length suffix) ++ third in
    let fields : entry_bytes shared k v ++ rest ≡ le_bytes 2 shared ++ second =
      unfold entry_bytes in rw small_suffix (rw small_value (simp append_assoc)) in
    record {
      shared_is =
          rw fields (rw (take-le_bytes 2 shared second) (of_le-le_bytes 2 shared (omega arith)));
      suffix_len_is = rw fields (
          rw (drop-le_bytes 2 shared second) (
            rw (take-le_bytes 2 (length suffix) third)
              (of_le-le_bytes 2 (length suffix) (omega (arith, length-drop shared k)))));
      value_len_is = rw fields (
          rw (drop-le_bytes 2 shared second) (
            rw (drop-le_bytes 2 (length suffix) third)
              (rw (take-le_bytes 2 (length v) last) (of_le-le_bytes 2 (length v) (omega arith)))));
      rest_is = rw fields (
          rw (drop-le_bytes 2 shared second)
            (rw (drop-le_bytes 2 (length suffix) third) (drop-le_bytes 2 (length v) last)));
      long =
          ground
            (arith, length-entry_bytes shared k v, length-append (entry_bytes shared k v) rest);
    }

-- One round of the loop, on an entry and what follows it.
decode_entries-HasFields :
    (fuel count : ℕ) (prev block suffix v rest : Bytes) (shared : ℕ)
    → HasFields block suffix v rest shared
    → decode_entries (suc fuel) count prev block ≡ (
        let key =
          take (min shared (length (reset_key count prev))) (reset_key count prev) ++ suffix in
        (key, v) ∷ decode_entries fuel (count + 1) key rest)
unfolding decode_entries
decode_entries-HasFields fuel count prev block suffix v rest shared f =
    let room : ltb (length (suffix ++ (v ++ rest))) (length suffix + length v) ≡ false =
      le→not-ltb _ _ (omega (arith, length-append suffix (v ++ rest), length-append v rest)) in
    rw f.long (
      rw f.shared_is (
        rw f.suffix_len_is (
          rw f.value_len_is (
            rw f.rest_is (
              rw room (
                rw (take-append suffix (v ++ rest)) (
                  rw (drop-append suffix (v ++ rest))
                    (rw (take-append v rest) (rw (drop-append v rest) refl)))))))))

decode_entries-entry_bytes :
    (fuel count : ℕ) (prev k v rest : Bytes)
    → length k < 2 ^ 16
    → length v < 2 ^ 16
    → decode_entries (suc fuel) count prev (entry_bytes (shared_of count prev k) k v ++ rest)
      ≡ (k, v) ∷ decode_entries fuel (count + 1) k rest
decode_entries-entry_bytes fuel count prev k v rest hk hv =
    let shared = shared_of count prev k in
    decode_entries-HasFields fuel count prev _ (drop shared k) v rest shared
      (entry_bytes-HasFields shared k v rest (shared_front count prev k hk).0 hk hv)
    ∙ ap (λ key. (key, v) ∷ decode_entries fuel (count + 1) key rest) (whole_key count prev k hk)

-- The loop of `decode_block` reads the entries of a block back, whatever keys share with the keys
-- before them. Keys and values are shorter than 2 ^ 16 bytes, and the fuel is the length of the
-- block at least.
pub decode_entries-encode_entries :
    (fuel count : ℕ) (prev : Bytes) (es : Entries)
    → AreSmall es
    → length (encode_entries count prev es) ≤ fuel
    → decode_entries fuel count prev (encode_entries count prev es) ≡ es
unfolding encode_entries
decode_entries-encode_entries fuel count prev [] h l = decode_entries-nil fuel count prev
decode_entries-encode_entries zero count prev ((k, v) ∷ es) h l =
    let shared = shared_of count prev k in
    absurd (
      omega (
        arith,
        length-append (entry_bytes shared k v) (encode_entries (count + 1) k es),
        length-entry_bytes shared k v,
      ))
decode_entries-encode_entries (suc fuel) count prev ((k, v) ∷ es) h l =
    let shared = shared_of count prev k in
    decode_entries-entry_bytes fuel count prev k v (encode_entries (count + 1) k es) h.0 h.1
    ∙ ap (λ es'. (k, v) ∷ es')
        (decode_entries-encode_entries fuel (count + 1) k es h.2 (
          omega (
            arith,
            length-append (entry_bytes shared k v) (encode_entries (count + 1) k es),
            length-entry_bytes shared k v,
          )))
