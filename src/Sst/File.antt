-- ===== src/Sst/File.antt =====
-- The file that `SSTableWriter` leaves: the blocks, the index, the filter and the footer.
use cdoc.Prelude.{
  ℕ, ◌+◌, ◌^◌, ◌<◌, ◌≡◌, refl, sym, ap, ◌∙◌, List, [], ◌∷◌, ◌++◌, Bytes, length, append_assoc,
  append-nil, All, ◌==◌, ◌&&◌, leb, not, Bool-cases, inl, inr, subst,
}
use cdoc.Varint.LittleEndian.{le_bytes}
use cdoc.Zerocopy.{Zerocopy}
use cdoc.Crc32.{Crc32}
use cdoc.Hlc.{Timestamp}
use cdoc.BTreeMap.{Entries}
use cdoc.Sst.{block_size, bloom_hash_count, Footer, footer_bytes}
use cdoc.Sst.Write.{
  is_empty, bloom_filter, SsTableWriter, new, emit, finish_block, start_block, push_entry, add,
  add_all, index_bytes, finish,
}
use cdoc.Sst.Layout.{
  keys, concat, IsFilled, ends, concat-append, concat-ends, sealed, index_of, IsWriter,
  new-IsWriter, finish_block-IsWriter, push_entry-IsWriter,
}

module _ (crc : Crc32) (min_ts max_ts : Timestamp) where
  -- The writer has been given the entries `m`.
  record Holds (w : SsTableWriter crc) (m : Entries) : Type 0 where
    blocks : List Entries
    current : Entries
    is_writer : IsWriter crc w blocks current
    entries_are : concat blocks ++ current ≡ m
    min_is : w.min_ts ≡ min_ts
    max_is : w.max_ts ≡ max_ts

  new-Holds : Holds (new crc min_ts max_ts) []
  unfolding new
  new-Holds = record {
    blocks = [];
    current = [];
    is_writer = new-IsWriter crc min_ts max_ts;
    entries_are = refl;
    min_is = refl;
    max_is = refl;
  }

  finish_block-Holds :
      (w : SsTableWriter crc) (m : Entries) → Holds w m → Holds (finish_block crc w) m
  unfolding finish_block emit
  finish_block-Holds w m h = record {
    blocks = h.blocks ++ ends h.current;
    current = [];
    is_writer = finish_block-IsWriter crc w h.blocks h.current h.is_writer;
    entries_are =
        append-nil (concat (h.blocks ++ ends h.current))
        ∙ concat-append h.blocks (ends h.current)
        ∙ ap (λ l. concat h.blocks ++ l) (concat-ends h.current)
        ∙ h.entries_are;
    min_is = elim (Bool-cases (is_empty w.block_buf)) [
      | inl e ↦ rw e h.min_is
      | inr e ↦ rw e h.min_is
    ];
    max_is = elim (Bool-cases (is_empty w.block_buf)) [
      | inl e ↦ rw e h.max_is
      | inr e ↦ rw e h.max_is
    ];
  }

  push_entry-Holds :
      (w : SsTableWriter crc) (m : Entries) (k v : Bytes)
      → Holds w m
      → Holds (push_entry crc k v (start_block crc k w)) (m ++ (k, v) ∷ [])
  unfolding push_entry start_block
  push_entry-Holds w m k v h = record {
    blocks = h.blocks;
    current = h.current ++ (k, v) ∷ [];
    is_writer = push_entry-IsWriter crc w h.blocks h.current k v h.is_writer;
    entries_are =
        sym (append_assoc (concat h.blocks) h.current ((k, v) ∷ []))
        ∙ ap (λ l. l ++ (k, v) ∷ []) h.entries_are;
    min_is = elim (Bool-cases (w.entries_in_block == 0)) [
      | inl e ↦ rw e h.min_is
      | inr e ↦ rw e h.min_is
    ];
    max_is = elim (Bool-cases (w.entries_in_block == 0)) [
      | inl e ↦ rw e h.max_is
      | inr e ↦ rw e h.max_is
    ];
  }

  add-Holds :
      (w : SsTableWriter crc) (m : Entries) (k v : Bytes)
      → Holds w m
      → Holds (add crc k v w) (m ++ (k, v) ∷ [])
  unfolding add
  add-Holds w m k v h =
      elim (Bool-cases (not (is_empty w.block_buf) && leb block_size (length w.block_buf))) [
        | inl e ↦ rw e (push_entry-Holds (finish_block crc w) m k v (finish_block-Holds w m h))
        | inr e ↦ rw e (push_entry-Holds w m k v h)
      ]

  add_all-Holds :
      (w : SsTableWriter crc) (m es : Entries) → Holds w m → Holds (add_all crc es w) (m ++ es)
  unfolding add_all
  add_all-Holds w m [] h = rw (append-nil m) h
  add_all-Holds w m ((k, v) ∷ es) h =
      subst (Holds (add_all crc es (add crc k v w))) (append_assoc m ((k, v) ∷ []) es)
        (add_all-Holds (add crc k v w) (m ++ (k, v) ∷ []) es (add-Holds w m k v h))

  module _ (z : Zerocopy) where
    unfoldable pub index_part : List Entries → Bytes
    index_part bs = index_bytes crc z (index_of crc min_ts max_ts 0 bs)

    unfoldable pub footer_of : List Entries → ℕ → Footer
    unfolding index_part
    footer_of bs checksum = record {
      index_offset = length (sealed crc bs);
      bloom_offset = length (sealed crc bs) + length (index_part bs);
      min_timestamp = min_ts;
      max_timestamp = max_ts;
      entry_count = length (keys (concat bs));
      version = 1;
      checksum = checksum;
    }

    -- The file of the blocks `bs`.
    unfoldable pub file_of : List Entries → ℕ → Bytes
    unfolding index_part footer_of
    file_of bs checksum =
        sealed crc bs
        ++ (index_part bs
            ++ (le_bytes 4 bloom_hash_count
                ++ (bloom_filter crc (keys (concat bs)) ++ footer_bytes z (footer_of bs checksum))))

    pub record IsFile (file : Bytes) (m : Entries) : Type 0 where
      pub file_blocks : List Entries
      pub checksum : ℕ
      pub file_is : file ≡ file_of file_blocks checksum
      pub file_entries : concat file_blocks ≡ m
      pub all_filled : All IsFilled file_blocks
      pub checksum_u32 : checksum < 2 ^ 32

    -- The checksum, for the state behind the last block.
    abbrev checksum_of : SsTableWriter crc → ℕ
    checksum_of w = crc.finalize (
        crc.update
          (crc.update (crc.update w.file_hasher (index_bytes crc z w.index))
            (le_bytes 4 bloom_hash_count))
          (bloom_filter crc w.all_keys))

    finish-file_of :
        (w : SsTableWriter crc) (bs : List Entries)
        → IsWriter crc w bs []
        → w.min_ts ≡ min_ts
        → w.max_ts ≡ max_ts
        → ((w.writer ++ index_bytes crc z w.index) ++ le_bytes 4 bloom_hash_count)
            ++ bloom_filter crc w.all_keys
            ++ footer_bytes z (record {
              index_offset = w.bytes_written;
              bloom_offset = w.bytes_written + length (index_bytes crc z w.index);
              min_timestamp = w.min_ts;
              max_timestamp = w.max_ts;
              entry_count = length w.all_keys;
              version = 1;
              checksum = checksum_of w;
            })
          ≡ file_of bs (checksum_of w)
    unfolding file_of
    finish-file_of w bs h hmin hmax =
        let index_is : w.index ≡ index_of crc min_ts max_ts 0 bs =
          h.index_is
          ∙ ap (index_of crc w.min_ts w.max_ts 0) (append-nil bs)
          ∙ ap (λ a. index_of crc a w.max_ts 0 bs) hmin
          ∙ ap (λ b. index_of crc min_ts b 0 bs) hmax in
        let keys_are : w.all_keys ≡ keys (concat bs) =
          h.keys_is ∙ ap keys (append-nil (concat bs)) in
        rw index_is
          (rw keys_are (rw h.writer_is (rw h.bytes_is (rw hmin (rw hmax (simp append_assoc))))))

    pub finish-IsFile :
        (m : Entries) → IsFile (finish crc z (add_all crc m (new crc min_ts max_ts))) m
    unfolding finish emit
    finish-IsFile m =
        let w = add_all crc m (new crc min_ts max_ts) in
        let h = add_all-Holds (new crc min_ts max_ts) [] m new-Holds in
        let done = finish_block-Holds w m h in
        let bs = h.blocks ++ ends h.current in
        let is = finish_block-IsWriter crc w h.blocks h.current h.is_writer in
        record {
          file_blocks = bs;
          checksum = checksum_of (finish_block crc w);
          file_is = finish-file_of (finish_block crc w) bs is done.min_is done.max_is;
          file_entries =
              concat-append h.blocks (ends h.current)
              ∙ ap (λ l. concat h.blocks ++ l) (concat-ends h.current)
              ∙ h.entries_are;
          all_filled = is.filled;
          checksum_u32 = crc.finalize_u32 _;
        }
