-- ===== src/Sst/Open.antt =====
-- `SSTableReader::open` on a file that the writer has left.
use cdoc.Prelude.{
  ℕ, zero, suc, ◌+◌, ◌%◌, ◌^◌, ◌≤◌, ◌<◌, ◌≡◌, refl, sym, ap, ◌∙◌, arith, List, [], ◌∷◌, ◌++◌, Bytes,
  length, take, drop, append_assoc, take-append, drop-append, length-append, All, subst, le→not-ltb,
  lt→ltb, le→leb,
}
use cdoc.Varint.{found, ◌>>=◌}
use cdoc.Varint.LittleEndian.{le_bytes, of_le, length-le_bytes, of_le-le_bytes}
use cdoc.Varint.BigEndian.{length-be_bytes}
use cdoc.Zerocopy.{Zerocopy}
use cdoc.Crc32.{Crc32}
use cdoc.Sst.Write.{BlockIndexEntry, index_bytes}
use cdoc.Sst.Read.{parse_index}
use cdoc.Sst.Block.{drop-exact, take-le_bytes}

-- An entry of the index in memory.
abbrev pub kept : List BlockIndexEntry → List (Bytes × ℕ)
kept [] = []
kept (e ∷ es) = (e.first_key, e.offset) ∷ kept es

abbrev pub IsShort : BlockIndexEntry → Type 0
IsShort e = (length e.first_key < 2 ^ 16) × (e.offset < 2 ^ 64)

-- One round of the loop, on an entry that is whole.
parse_index-round :
    (fuel pos idx_end offset : ℕ) (k mmap : Bytes)
    → of_le (take 2 (drop pos mmap)) ≡ length k
    → take (length k) (drop (pos + 2) mmap) ≡ k
    → of_le (take 8 (drop (pos + 2 + length k + 16) mmap)) ≡ offset
    → pos + 26 + length k ≤ idx_end
    → idx_end ≤ length mmap
    → length mmap < 2 ^ 64
    → parse_index (suc fuel) mmap idx_end pos
      ≡ parse_index fuel mmap idx_end (pos + 26 + length k) >>= λ index. found ((k, offset) ∷ index)
unfolding parse_index
parse_index-round fuel pos idx_end offset k mmap len_is key_is offset_is inside fits small =
    let wraps : (pos + 2) % 2 ^ 64 ≡ pos + 2 = omega arith in
    let next : pos + 2 + length k + 24 ≡ pos + 26 + length k = omega arith in
    rw len_is (
      rw key_is (
        rw offset_is (
          rw wraps (
            rw next (
              rw (lt→ltb pos idx_end (omega arith)) (
                rw (le→leb (pos + 2) idx_end (omega arith)) (
                  rw (le→leb (pos + 2) (length mmap) (omega arith)) (
                    rw (le→not-ltb (length mmap) (pos + 2 + length k + 16 + 8) (omega arith))
                      refl))))))))

length_three : (a b c : Bytes) → length (a ++ (b ++ c)) ≡ length a + (length b + length c)
length_three a b c = omega (arith, length-append a (b ++ c), length-append b c)

module _ (crc : Crc32) (z : Zerocopy) where
  length-as_bytes : (n : ℕ) → length (z.as_bytes 8 n) ≡ 8
  length-as_bytes n = rw (z.as_bytes_lem 8 n) (length-be_bytes 8 n)

  -- An entry of the index in the file, and its parts.
  abbrev lead : Bytes → Bytes
  lead k = le_bytes 2 (length k) ++ k

  abbrev times : BlockIndexEntry → Bytes
  times e = z.as_bytes 8 e.min_ts ++ z.as_bytes 8 e.max_ts

  abbrev entry_part : BlockIndexEntry → Bytes
  entry_part e = (lead e.first_key ++ times e) ++ le_bytes 8 e.offset

  length-times : (e : BlockIndexEntry) → length (times e) ≡ 16
  length-times e = omega (
    arith,
    length-append (z.as_bytes 8 e.min_ts) (z.as_bytes 8 e.max_ts),
    length-as_bytes e.min_ts,
    length-as_bytes e.max_ts,
  )

  length-lead : (k : Bytes) → length (lead k) ≡ 2 + length k
  length-lead k =
      length-append (le_bytes 2 (length k)) k
      ∙ ap (λ n. n + length k) (length-le_bytes 2 (length k))

  length-entry_part : (e : BlockIndexEntry) → length (entry_part e) ≡ 26 + length e.first_key
  length-entry_part e = omega (
    arith,
    length-append (lead e.first_key ++ times e) (le_bytes 8 e.offset),
    length-append (lead e.first_key) (times e),
    length-lead e.first_key,
    length-times e,
    length-le_bytes 8 e.offset,
  )

  index_bytes-entry_part :
      (e : BlockIndexEntry) (es : List BlockIndexEntry)
      → IsShort e
      → index_bytes crc z (e ∷ es) ≡ entry_part e ++ index_bytes crc z es
  unfolding index_bytes
  index_bytes-entry_part e es h =
      let same : length e.first_key % 2 ^ 16 ≡ length e.first_key = omega (arith, h.0) in
      rw same (simp append_assoc)

  -- The round on an entry and what follows it.
  parse_index-entry_part :
      (fuel idx_end : ℕ) (front back : Bytes) (e : BlockIndexEntry)
      → IsShort e
      → length front + length (entry_part e) ≤ idx_end
      → idx_end ≤ length (front ++ (entry_part e ++ back))
      → length (front ++ (entry_part e ++ back)) < 2 ^ 64
      → parse_index (suc fuel) (front ++ (entry_part e ++ back)) idx_end (length front)
        ≡ parse_index fuel
            (front ++ (entry_part e ++ back))
            idx_end
            (length front + length (entry_part e))
          >>= λ index. found ((e.first_key, e.offset) ∷ index)
  parse_index-entry_part fuel idx_end front back e h inside fits small =
      let k = e.first_key in
      let len = le_bytes 2 (length k) in
      let last = times e ++ (le_bytes 8 e.offset ++ back) in
      let mmap = front ++ (entry_part e ++ back) in
      let at_len : mmap ≡ front ++ (len ++ (k ++ last)) = simp append_assoc in
      let at_key : mmap ≡ (front ++ len) ++ (k ++ last) = simp append_assoc in
      let at_offset : mmap ≡ (front ++ (lead k ++ times e)) ++ (le_bytes 8 e.offset ++ back) =
        simp append_assoc in
      let key_pos : length (front ++ len) ≡ length front + 2 =
        length-append front len ∙ ap (λ n. length front + n) (length-le_bytes 2 (length k)) in
      let offset_pos : length (front ++ (lead k ++ times e)) ≡ length front + 2 + length k + 16 =
        omega (
          arith,
          length-append front (lead k ++ times e),
          length-append (lead k) (times e),
          length-lead k,
          length-times e,
        ) in
      let round =
        parse_index-round fuel (length front) idx_end e.offset k mmap
          (ap (λ m. of_le (take 2 (drop (length front) m))) at_len
            ∙ ap (λ m. of_le (take 2 m)) (drop-append front (len ++ (k ++ last)))
            ∙ ap of_le (take-le_bytes 2 (length k) (k ++ last))
            ∙ of_le-le_bytes 2 (length k) h.0)
          (ap (λ m. take (length k) (drop (length front + 2) m)) at_key
            ∙ ap (take (length k))
                (drop-exact (length front + 2) (front ++ len) (k ++ last) key_pos)
            ∙ take-append k last)
          (ap (λ m. of_le (take 8 (drop (length front + 2 + length k + 16) m))) at_offset
            ∙ ap (λ m. of_le (take 8 m))
                (drop-exact _ (front ++ (lead k ++ times e)) (le_bytes 8 e.offset ++ back)
                  offset_pos)
            ∙ ap of_le (take-le_bytes 8 e.offset back)
            ∙ of_le-le_bytes 8 e.offset h.1)
          (omega (arith, inside, length-entry_part e)) fits small in
      round
      ∙ ap (λ n. parse_index fuel mmap idx_end n >>= λ index. found ((k, e.offset) ∷ index))
          (omega (arith, length-entry_part e))

  pub parse_index-index_bytes :
      (fuel : ℕ) (front back : Bytes) (es : List BlockIndexEntry)
      → All IsShort es
      → length (index_bytes crc z es) < fuel
      → length (front ++ (index_bytes crc z es ++ back)) < 2 ^ 64
      → parse_index fuel
          (front ++ (index_bytes crc z es ++ back))
          (length front + length (index_bytes crc z es))
          (length front)
        ≡ found (kept es)
  parse_index-index_bytes zero front back es h enough small = absurd (omega (arith, enough))
  parse_index-index_bytes (suc fuel) front back [] h enough small =
      unfold parse_index index_bytes in
      rw (le→not-ltb (length front) (length front + 0) (omega arith)) refl
  parse_index-index_bytes (suc fuel) front back (e ∷ es) h enough small =
      let part = entry_part e in
      let rest = index_bytes crc z es in
      let whole = index_bytes-entry_part e es h.0 in
      let end = length front + (length part + length rest) in
      let split = append_assoc front part (rest ++ back) in
      let total = length_three front part (rest ++ back) in
      let bounded : length (front ++ (part ++ (rest ++ back))) < 2 ^ 64 =
        subst (λ n. n < 2 ^ 64)
          (ap (λ l. length (front ++ l)) (ap (λ l. l ++ back) whole ∙ append_assoc part rest back))
          small in
      let more =
        parse_index-index_bytes fuel (front ++ part) back es h.1
          (omega (arith, enough, ap length whole, length-append part rest, length-entry_part e))
          (omega (arith, bounded, ap length split)) in
      let next : parse_index fuel (front ++ (part ++ (rest ++ back))) end
            (length front + length part)
          ≡ found (kept es) =
        ap (λ m. parse_index fuel m end (length front + length part)) (sym split)
        ∙ ap
            (λ n.
              parse_index fuel ((front ++ part) ++ (rest ++ back)) n (length front + length part))
            (omega (arith, length-append front part))
        ∙ ap
            (parse_index fuel ((front ++ part) ++ (rest ++ back))
              (length (front ++ part) + length rest))
            (sym (length-append front part))
        ∙ more in
      rw whole (
        rw (append_assoc part rest back) (
          rw (length-append part rest) (
            parse_index-entry_part fuel end front (rest ++ back) e h.0 (omega arith)
              (omega (arith, total, length-append rest back)) bounded
            ∙ ap (λ r. r >>= λ index. found ((e.first_key, e.offset) ∷ index)) next)))
