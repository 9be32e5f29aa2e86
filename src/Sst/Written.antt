-- ===== src/Sst/Written.antt =====
-- A memory table that is flushed to a file, and the file that is opened.
use cdoc.Prelude.{
  ℕ, suc, ◌+◌, ◌^◌, ◌≤◌, ◌<◌, ◌≡◌, refl, sym, ap, ◌∙◌, arith, List, [], ◌∷◌, ◌++◌, Bytes, length,
  length-append, All, some, true, Bool-cases, Option-cases, inl, inr, subst, eq_of_cmp,
}
use cdoc.Varint.{found, ◌>>=◌}
use cdoc.Varint.LittleEndian.{le_bytes}
use cdoc.Zerocopy.{Zerocopy}
use cdoc.Crc32.{Crc32, hash}
use cdoc.Hlc.{Timestamp}
use cdoc.BTreeMap
use cdoc.BTreeMap.{Entries}
use cdoc.BTreeMap.Sorted.{IsSorted}
use cdoc.Sst.{Footer, footer_bytes, bloom_hash_count}
use cdoc.Sst.Tables.{AreSmall}
use cdoc.Sst.Write.{new, add_all, finish, bloom_filter, entry_bytes}
use cdoc.Sst.Read.{SsTableReader, open_table, get, scan_prefix, bloom_may_contain}
use cdoc.Sst.Block.{encode_entries, shared_of, length-entry_bytes}
use cdoc.Sst.Layout.{keys, concat, first_key, seal, sealed, index_of}
use cdoc.Sst.File.{file_of, footer_of, index_part, finish-IsFile}
use cdoc.Sst.Open.{IsShort}
use cdoc.Sst.FooterBytes.{IsFooter}
use cdoc.Sst.Table.{reader_of, open_table-file_of}
use cdoc.Sst.Blocks.{Blocks, sealed-Blocks}
use cdoc.Sst.Search.{get_in-binary_search}
use cdoc.Sst.Bloom.{bloom_may_contain-bloom_filter}
use cdoc.Sst.Scan.{with_prefix, scan_prefix-with_prefix}

append-AreSmall : (a b : Entries) → AreSmall (a ++ b) → AreSmall a × AreSmall b
append-AreSmall [] b h = (tt, h)
append-AreSmall ((k, v) ∷ a) b h =
    let rest = append-AreSmall a b h.2 in ((h.0, h.1, rest.0), rest.1)

concat-AreSmall : (bs : List Entries) → AreSmall (concat bs) → All AreSmall bs
concat-AreSmall [] h = tt
concat-AreSmall (b ∷ bs) h =
    let parts = append-AreSmall b (concat bs) h in (parts.0, concat-AreSmall bs parts.1)

length-encode_entries :
    (count : ℕ) (p : Bytes) (es : Entries) → length es ≤ length (encode_entries count p es)
unfolding encode_entries
length-encode_entries count p [] = omega arith
length-encode_entries count p ((k, v) ∷ es) = omega (
  arith,
  length-encode_entries (count + 1) k es,
  length-append (entry_bytes (shared_of count p k) k v) (encode_entries (count + 1) k es),
  length-entry_bytes (shared_of count p k) k v,
)

length-keys : (m : Entries) → length (keys m) ≡ length m
length-keys [] = refl
length-keys ((k, v) ∷ m) = ap suc (length-keys m)

length-first_key : (b : Entries) → AreSmall b → length (first_key b) < 2 ^ 16
length-first_key [] h = omega arith
length-first_key ((k, v) ∷ es) h = h.0

-- What the footer says of the entries.
abbrev pub totals : Footer → ℕ × Timestamp × Timestamp
totals f = (f.entry_count, f.min_timestamp, f.max_timestamp)

module _ (crc : Crc32) (min_ts max_ts : Timestamp) where
  length-sealed : (bs : List Entries) → length (concat bs) ≤ length (sealed crc bs)
  unfolding sealed seal
  length-sealed [] = omega arith
  length-sealed (b ∷ bs) =
      let block = encode_entries 0 [] b in
      let check = le_bytes 4 (hash crc block) in
      omega (
        arith,
        length-sealed bs,
        length-append b (concat bs),
        length-append (block ++ check) (sealed crc bs),
        length-append block check,
        length-encode_entries 0 [] b,
      )

  index_of-IsShort :
      (offset : ℕ) (bs : List Entries)
      → All AreSmall bs
      → offset + length (sealed crc bs) < 2 ^ 64
      → All IsShort (index_of crc min_ts max_ts offset bs)
  unfolding index_of sealed
  index_of-IsShort offset [] h small = tt
  index_of-IsShort offset (b ∷ bs) h small =
      let size = length-append (seal crc b) (sealed crc bs) in
      (
        (length-first_key b h.0, omega (arith, small)),
        index_of-IsShort (offset + length (seal crc b)) bs h.1 (omega (arith, small, size)),
      )

  module _ (z : Zerocopy) where
    -- The file of a memory table, with its blocks.
    pub record IsTable (r : SsTableReader) (m : Entries) : Type 0 where
      pub blocks : List Entries
      pub blocks_are : Blocks r r.block_index blocks
      pub entries_are : concat blocks ≡ m
      pub bloom_is : r.bloom ≡ bloom_filter crc (keys (concat blocks))

    file_of-IsFooter :
        (bs : List Entries) (checksum : ℕ)
        → length (file_of crc min_ts max_ts z bs checksum) < 2 ^ 64
        → min_ts < 2 ^ 64
        → max_ts < 2 ^ 64
        → checksum < 2 ^ 32
        → IsFooter (footer_of crc min_ts max_ts z bs checksum)
    unfolding file_of footer_of
    file_of-IsFooter bs checksum small hmin hmax hsum =
        let ib = index_part crc min_ts max_ts z bs in
        let back =
          le_bytes 4 bloom_hash_count
          ++ (bloom_filter crc (keys (concat bs))
              ++ footer_bytes z (footer_of crc min_ts max_ts z bs checksum)) in
        let whole = length-append (sealed crc bs) (ib ++ back) in
        let rest = length-append ib back in
        record {
          index_offset_u64 = omega (arith, small, whole);
          bloom_offset_u64 = omega (arith, small, whole, rest);
          min_timestamp_u64 = hmin;
          max_timestamp_u64 = hmax;
          entry_count_u64 = omega (arith, small, whole, length-keys (concat bs), length-sealed bs);
          version_u32 = omega arith;
          checksum_u32 = hsum;
        }

    -- The bytes that `flush_memtable` leaves.
    abbrev pub written : Entries → Bytes
    written m = finish crc z (add_all crc m (new crc min_ts max_ts))

    -- What `flush_memtable` and `open` give.
    pub record Reopened (m : Entries) : Type 0 where
      pub reader : SsTableReader
      pub opens : open_table (written m) ≡ found reader
      pub is_table : IsTable reader m
      pub has_footer :
          (reader.footer.entry_count ≡ length m)
          × (reader.footer.min_timestamp ≡ min_ts)
          × (reader.footer.max_timestamp ≡ max_ts)

    pub reopen :
        (m : Entries)
        → AreSmall m
        → length (written m) < 2 ^ 64
        → min_ts < 2 ^ 64
        → max_ts < 2 ^ 64
        → Reopened m
    unfolding reader_of footer_of file_of
    reopen m fit small hmin hmax =
        let f = finish-IsFile crc min_ts max_ts z m in
        let bs = f.file_blocks in
        let small' : length (file_of crc min_ts max_ts z bs f.checksum) < 2 ^ 64 =
          subst (λ l. length l < 2 ^ 64) f.file_is small in
        let fits = concat-AreSmall bs (subst AreSmall (sym f.file_entries) fit) in
        let r = reader_of crc z min_ts max_ts bs f.checksum in
        let tail =
          index_part crc min_ts max_ts z bs
          ++ (le_bytes 4 bloom_hash_count
              ++ (bloom_filter crc (keys (concat bs))
                  ++ footer_bytes z (footer_of crc min_ts max_ts z bs f.checksum))) in
        let whole = length-append (sealed crc bs) tail in
        record {
          reader = r;
          opens =
              ap open_table f.file_is
              ∙ open_table-file_of crc z min_ts max_ts bs f.checksum
                  (index_of-IsShort 0 bs fits (omega (arith, small', whole))) small'
                  (file_of-IsFooter bs f.checksum small' hmin hmax f.checksum_u32);
          is_table = record {
            blocks = bs;
            blocks_are =
                sealed-Blocks crc min_ts max_ts r bs [] tail refl (omega arith) small' f.all_filled
                  fits;
            entries_are = f.file_entries;
            bloom_is = refl;
          };
          has_footer = (length-keys (concat bs) ∙ ap length f.file_entries, refl, refl);
        }

    bloom_may_contain-key :
        (key v : Bytes) (m : Entries) (bloom : Bytes)
        → All (λ k. bloom_may_contain crc bloom k ≡ true) (keys m)
        → BTreeMap.get key m ≡ some v
        → bloom_may_contain crc bloom key ≡ true
    unfolding BTreeMap.get
    bloom_may_contain-key key v [] bloom h e = cc
    bloom_may_contain-key key v ((k, w) ∷ m) bloom h e =
        ground (arith, e, h.0, eq_of_cmp key k, bloom_may_contain-key key v m bloom h.1)

    -- The filter, the index and the block together find what the memory table has.
    pub get-IsTable :
        (r : SsTableReader) (m : Entries) (key : Bytes)
        → IsTable r m
        → IsSorted m
        → get crc key r ≡ BTreeMap.get key m
    unfolding get
    get-IsTable r m key t sorted =
        let bs = t.blocks in
        let searched =
          get_in-binary_search r key bs t.blocks_are (subst IsSorted (sym t.entries_are) sorted)
          ∙ ap (BTreeMap.get key) t.entries_are in
        let all =
          subst
            (λ l. All (λ k. bloom_may_contain crc (bloom_filter crc (keys l)) k ≡ true) (keys l))
            t.entries_are (bloom_may_contain-bloom_filter crc (keys (concat bs))) in
        let filter_is : r.bloom ≡ bloom_filter crc (keys m) =
          t.bloom_is ∙ ap (λ l. bloom_filter crc (keys l)) t.entries_are in
        elim (Bool-cases (bloom_may_contain crc r.bloom key)) [
          | inl e ↦ rw e searched
          | inr e ↦ elim (Option-cases (BTreeMap.get key m)) [
            | inl missing ↦ rw e (sym missing)
            | inr there ↦
                let may =
                  bloom_may_contain-key key there.0 m (bloom_filter crc (keys m)) all there.1 in
                absurd (ground (arith, e, may, ap (λ l. bloom_may_contain crc l key) filter_is))
          ]
        ]

    -- A table that is written from the entries of a memory table and opened again: `open`
    -- succeeds, and `get` gives for every key what the memory table has, through the bloom filter,
    -- the binary search in the index and the decoding of the block. The entries are in the strict
    -- order of their keys, keys and values are shorter than 2 ^ 16 bytes, and the length of the
    -- file and the timestamps are below 2 ^ 64.
    pub get-written :
        (m : Entries) (key : Bytes)
        → IsSorted m
        → AreSmall m
        → length (written m) < 2 ^ 64
        → min_ts < 2 ^ 64
        → max_ts < 2 ^ 64
        → open_table (written m) >>= (λ r. found (get crc key r)) ≡ found (BTreeMap.get key m)
    get-written m key sorted fit small hmin hmax =
        let t = reopen m fit small hmin hmax in
        rw t.opens (ap found (get-IsTable t.reader m key t.is_table sorted))

    pub scan_prefix-IsTable :
        (r : SsTableReader) (m : Entries) (prefix : Bytes)
        → IsTable r m
        → IsSorted m
        → scan_prefix prefix r ≡ with_prefix prefix m
    scan_prefix-IsTable r m prefix t sorted =
        scan_prefix-with_prefix r prefix t.blocks t.blocks_are
          (subst IsSorted (sym t.entries_are) sorted)
        ∙ ap (with_prefix prefix) t.entries_are

    -- A table that is written from the entries of a memory table and opened again: `open`
    -- succeeds, and `scan_prefix` gives the entries whose keys start with the prefix, all of them
    -- and in their order. The entries are in the strict order of their keys, keys and values are
    -- shorter than 2 ^ 16 bytes, and the length of the file and the timestamps are below 2 ^ 64.
    pub scan_prefix-written :
        (m : Entries) (prefix : Bytes)
        → IsSorted m
        → AreSmall m
        → length (written m) < 2 ^ 64
        → min_ts < 2 ^ 64
        → max_ts < 2 ^ 64
        → open_table (written m) >>= (λ r. found (scan_prefix prefix r))
          ≡ found (with_prefix prefix m)
    scan_prefix-written m prefix sorted fit small hmin hmax =
        let t = reopen m fit small hmin hmax in
        rw t.opens (ap found (scan_prefix-IsTable t.reader m prefix t.is_table sorted))

    -- The footer of a table that is written and opened again has the number of its entries and the
    -- writer's two timestamps. Keys and values are shorter than 2 ^ 16 bytes, and the length of
    -- the file and the timestamps are below 2 ^ 64.
    pub footer-written :
        (m : Entries)
        → AreSmall m
        → length (written m) < 2 ^ 64
        → min_ts < 2 ^ 64
        → max_ts < 2 ^ 64
        → open_table (written m) >>= (λ r. found (totals r.footer))
          ≡ found (length m, min_ts, max_ts)
    footer-written m fit small hmin hmax =
        let t = reopen m fit small hmin hmax in
        rw t.opens (rw t.has_footer.0 (rw t.has_footer.1 (rw t.has_footer.2 refl)))
