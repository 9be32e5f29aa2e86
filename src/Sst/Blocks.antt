-- ===== src/Sst/Blocks.antt =====
-- The blocks of a file, as `decode_block` reads them.
use cdoc.Prelude.{
  ℕ, ◌+◌, ◌-◌, ◌%◌, ◌^◌, ◌<◌, ◌≡◌, refl, ap, ◌∙◌, arith, List, [], ◌∷◌, ◌++◌, Bytes, length,
  append_assoc, take-append, drop-append, length-append, All, leb, ltb, false, le→not-ltb, subst,
}
use cdoc.Varint.LittleEndian.{le_bytes, length-le_bytes}
use cdoc.Crc32.{Crc32, hash}
use cdoc.Hlc.{Timestamp}
use cdoc.BTreeMap.{Entries}
use cdoc.Sst.Tables.{AreSmall}
use cdoc.Sst.Write.{entry_bytes}
use cdoc.Sst.Read.{SsTableReader, slice, block_end, decode_at}
use cdoc.Sst.Block.{encode_entries, decode_entries-encode_entries}
use cdoc.Sst.Layout.{first_key, IsFilled, seal, sealed, index_of}
use cdoc.Sst.Open.{kept}

-- The index entry of a block has its first key.
abbrev pub Begins : Bytes → Entries → Type 0
Begins k [] = ⊥
Begins k ((j, v) ∷ es) = k ≡ j

-- The index and the blocks that stand behind it.
abbrev pub Blocks : SsTableReader → List (Bytes × ℕ) → List Entries → Type 0
Blocks r [] [] = Unit
Blocks r [] (b ∷ bs) = ⊥
Blocks r ((k, offset) ∷ index) [] = ⊥
Blocks r ((k, offset) ∷ index) (b ∷ bs) =
    Begins k b × (decode_at r offset index ≡ b) × Blocks r index bs

first_key-Begins : (b : Entries) → IsFilled b → Begins (first_key b) b
first_key-Begins [] h = h
first_key-Begins ((k, v) ∷ es) h = refl

encode_entries-positive : (b : Entries) → IsFilled b → 0 < length (encode_entries 0 [] b)
unfolding encode_entries entry_bytes le_bytes
encode_entries-positive [] h = absurd h
encode_entries-positive ((k, v) ∷ es) h = omega arith

-- A block that stands in the file, where the index says that it ends with its checksum.
decode_at-block :
    (r : SsTableReader) (index : List (Bytes × ℕ)) (b : Entries) (pre check back : Bytes)
    → r.mmap ≡ pre ++ (encode_entries 0 [] b ++ (check ++ back))
    → length check ≡ 4
    → block_end r.footer index ≡ length pre + (length (encode_entries 0 [] b) + 4)
    → length r.mmap < 2 ^ 64
    → IsFilled b
    → AreSmall b
    → decode_at r (length pre) index ≡ b
unfolding decode_at
decode_at-block r index b pre check back mmap_is four end_is small filled fit =
    let block = encode_entries 0 [] b in
    let total : length r.mmap ≡ length pre + (length block + (4 + length back)) = omega (
      arith,
      ap length mmap_is,
      length-append pre (block ++ (check ++ back)),
      length-append block (check ++ back),
      length-append check back,
      four,
    ) in
    let size : length pre + (length block + 4) - 4 - length pre ≡ length block = omega arith in
    let starts : (length pre + 4) % 2 ^ 64 ≡ length pre + 4 = omega (arith, total, small) in
    let holds_some : leb (length pre + (length block + 4)) (length pre + 4) ≡ false =
      ground (arith, encode_entries-positive b filled) in
    let inside : ltb (length r.mmap) (length pre + (length block + 4)) ≡ false =
      le→not-ltb _ _ (omega (arith, total)) in
    let cut : slice (length pre) (length pre + (length block + 4) - 4) r.mmap ≡ block =
      ap (slice (length pre) (length pre + (length block + 4) - 4)) mmap_is
      ∙ rw size
          (rw (drop-append pre (block ++ (check ++ back))) (take-append block (check ++ back))) in
    rw end_is (
      rw starts (
        rw holds_some (
          rw inside
            (rw cut (decode_entries-encode_entries (length block) 0 [] b fit (omega arith))))))

module _ (crc : Crc32) (min_ts max_ts : Timestamp) (r : SsTableReader) where
  index_of-block_end :
      (bs : List Entries) (offset : ℕ)
      → r.footer.index_offset ≡ offset + length (sealed crc bs)
      → block_end r.footer (kept (index_of crc min_ts max_ts offset bs)) ≡ offset
  unfolding index_of sealed
  index_of-block_end [] offset h = omega (arith, h)
  index_of-block_end (b ∷ bs) offset h = refl

  pub sealed-Blocks :
      (bs : List Entries) (pre back : Bytes)
      → r.mmap ≡ pre ++ (sealed crc bs ++ back)
      → r.footer.index_offset ≡ length pre + length (sealed crc bs)
      → length r.mmap < 2 ^ 64
      → All IsFilled bs
      → All AreSmall bs
      → Blocks r (kept (index_of crc min_ts max_ts (length pre) bs)) bs
  unfolding index_of sealed seal
  sealed-Blocks [] pre back mmap_is index_is small filled fit = tt
  sealed-Blocks (b ∷ bs) pre back mmap_is index_is small filled fit =
      let block = encode_entries 0 [] b in
      let check = le_bytes 4 (hash crc block) in
      let four = length-le_bytes 4 (hash crc block) in
      let sealed_size : length (seal crc b) ≡ length block + 4 =
        omega (arith, length-append block check, four) in
      let here : r.mmap ≡ pre ++ (block ++ (check ++ (sealed crc bs ++ back))) =
        mmap_is ∙ simp append_assoc in
      let there : r.mmap ≡ (pre ++ seal crc b) ++ (sealed crc bs ++ back) =
        mmap_is ∙ simp append_assoc in
      let next : length (pre ++ seal crc b) ≡ length pre + length (seal crc b) =
        length-append pre (seal crc b) in
      let index_end : r.footer.index_offset
          ≡ (length pre + length (seal crc b)) + length (sealed crc bs) =
        omega (arith, index_is, length-append (seal crc b) (sealed crc bs)) in
      let more =
        sealed-Blocks bs (pre ++ seal crc b) back there (omega (arith, index_end, next)) small
          filled.1 fit.1 in
      (
        first_key-Begins b filled.0,
        decode_at-block r _ b pre check (sealed crc bs ++ back) here four
            (index_of-block_end bs (length pre + length (seal crc b)) index_end
              ∙ omega (arith, sealed_size))
            small filled.0 fit.0,
        subst (λ o. Blocks r (kept (index_of crc min_ts max_ts o bs)) bs) next more,
      )
