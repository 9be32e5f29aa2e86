-- ===== src/Sst/Table.antt =====
-- A table that was written and is opened again.
use cdoc.Prelude.{
  ℕ, ◌+◌, ◌-◌, ◌%◌, ◌^◌, ◌<◌, ◌≡◌, refl, ap, ◌∙◌, arith, List, [], ◌∷◌, ◌++◌, Bytes, length, drop,
  append_assoc, take-append, drop-append, length-append, All, if◌then◌else◌, ltb, le→not-ltb,
  lt→ltb,
}
use cdoc.Varint.{found}
use cdoc.Varint.LittleEndian.{le_bytes, length-le_bytes}
use cdoc.Zerocopy.{Zerocopy}
use cdoc.Crc32.{Crc32}
use cdoc.Hlc.{Timestamp}
use cdoc.BTreeMap.{Entries}
use cdoc.Sst.{footer_size, bloom_hash_count, Footer, footer_bytes, read_footer}
use cdoc.Sst.Write.{bloom_filter, index_bytes}
use cdoc.Sst.Read.{SsTableReader, parse_index, open_table, slice}
use cdoc.Sst.Block.{drop-exact}
use cdoc.Sst.Layout.{keys, concat, sealed, index_of}
use cdoc.Sst.File.{file_of, footer_of, index_part}
use cdoc.Sst.Open.{kept, IsShort, parse_index-index_bytes}
use cdoc.Sst.FooterBytes.{IsFooter, read_footer-footer_bytes, length-footer_bytes}

-- What `open` takes for the filter, where it starts at `a` and the footer at `b`.
abbrev filter_at : ℕ → ℕ → Bytes → Bytes
filter_at a b mmap = if ltb a b then slice a b mmap else []

filter_at_lem :
    (front bloom foot : Bytes)
    → filter_at (length front) (length front + length bloom) (front ++ (bloom ++ foot)) ≡ bloom
filter_at_lem front [] foot = rw (le→not-ltb (length front) (length front + 0) (omega arith)) refl
filter_at_lem front (b ∷ bs) foot =
    let bloom = b ∷ bs in
    let size : (length front + length bloom) - length front ≡ length bloom = omega arith in
    rw (lt→ltb (length front) (length front + length bloom) (omega arith))
      (rw size (rw (drop-append front (bloom ++ foot)) (take-append bloom foot)))

module _ (z : Zerocopy) where
  -- A file of four parts and a footer.
  open_table-parts :
      (front index_part count bloom mmap : Bytes) (f : Footer) (index : List (Bytes × ℕ))
      → mmap ≡ front ++ (index_part ++ (count ++ (bloom ++ footer_bytes z f)))
      → f.bloom_offset ≡ length front + length index_part
      → length count ≡ 4
      → length mmap < 2 ^ 64
      → IsFooter f
      → parse_index (length mmap + 2) mmap f.bloom_offset f.index_offset ≡ found index
      → open_table mmap
        ≡ found (record { mmap = mmap; footer = f; block_index = index; bloom = bloom })
  unfolding open_table
  open_table-parts front ib count bloom mmap f index mmap_is bloom_at four small widths index_is =
      let foot = footer_bytes z f in
      let before = front ++ (ib ++ count) in
      let at_bloom : mmap ≡ before ++ (bloom ++ foot) = mmap_is ∙ simp append_assoc in
      let at_footer : mmap ≡ (before ++ bloom) ++ foot = mmap_is ∙ simp append_assoc in
      let total : length mmap ≡ (length before + length bloom) + 48 =
        ap length at_footer
        ∙ length-append (before ++ bloom) foot
        ∙ ap (λ n. n + length foot) (length-append before bloom)
        ∙ ap (λ n. (length before + length bloom) + n) (length-footer_bytes z f) in
      let start : length mmap - footer_size ≡ length before + length bloom = omega (arith, total) in
      let footer_is : read_footer (drop (length before + length bloom) mmap) ≡ f =
        ap (λ m. read_footer (drop (length before + length bloom) m)) at_footer
        ∙ ap read_footer (drop-exact _ (before ++ bloom) foot (length-append before bloom))
        ∙ read_footer-footer_bytes z f widths in
      let section : (f.bloom_offset + 4) % 2 ^ 64 ≡ length before = omega (
        arith,
        total,
        small,
        bloom_at,
        four,
        length-append front (ib ++ count),
        length-append ib count,
      ) in
      let bloom_is : filter_at (length before) (length before + length bloom) mmap ≡ bloom =
        ap (filter_at (length before) (length before + length bloom)) at_bloom
        ∙ filter_at_lem before bloom foot in
      rw start (
        rw footer_is (
          rw section (
            rw bloom_is (
              rw index_is
                (rw (le→not-ltb (length mmap) footer_size (omega (arith, total))) refl)))))

module _ (crc : Crc32) (z : Zerocopy) (min_ts max_ts : Timestamp) where
  -- The reader of the file of the blocks `bs`.
  unfoldable pub reader_of : List Entries → ℕ → SsTableReader
  unfolding file_of footer_of
  reader_of bs checksum = record {
    mmap = file_of crc min_ts max_ts z bs checksum;
    footer = footer_of crc min_ts max_ts z bs checksum;
    block_index = kept (index_of crc min_ts max_ts 0 bs);
    bloom = bloom_filter crc (keys (concat bs));
  }

  pub open_table-file_of :
      (bs : List Entries) (checksum : ℕ)
      → All IsShort (index_of crc min_ts max_ts 0 bs)
      → length (file_of crc min_ts max_ts z bs checksum) < 2 ^ 64
      → IsFooter (footer_of crc min_ts max_ts z bs checksum)
      → open_table (file_of crc min_ts max_ts z bs checksum) ≡ found (reader_of bs checksum)
  unfolding open_table file_of footer_of reader_of index_part
  open_table-file_of bs checksum short small widths =
      let index = index_of crc min_ts max_ts 0 bs in
      let bloom = bloom_filter crc (keys (concat bs)) in
      let f = footer_of crc min_ts max_ts z bs checksum in
      let back = le_bytes 4 bloom_hash_count ++ (bloom ++ footer_bytes z f) in
      open_table-parts z (sealed crc bs) (index_bytes crc z index) (le_bytes 4 bloom_hash_count)
        bloom _ f (kept index) refl refl (length-le_bytes 4 bloom_hash_count) small widths
        (parse_index-index_bytes crc z _ (sealed crc bs) back index short
          (omega (
            arith,
            length-append (sealed crc bs) (index_bytes crc z index ++ back),
            length-append (index_bytes crc z index) back,
          ))
          small)
