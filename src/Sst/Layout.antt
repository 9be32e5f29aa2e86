-- ===== src/Sst/Layout.antt =====
-- What `SSTableWriter` writes, as a list of blocks.
use cdoc.Prelude.{
  ℕ, suc, ◌+◌, ◌≡◌, refl, sym, ap, ◌∙◌, arith, List, [], ◌∷◌, ◌++◌, Bytes, length, append_assoc,
  append-nil, length-append, All, All-append, ◌==◌, false,
}
use cdoc.Varint.LittleEndian.{le_bytes}
use cdoc.Crc32.{Crc32, hash}
use cdoc.Hlc.{Timestamp}
use cdoc.BTreeMap.{Entries}
use cdoc.Sst.Write.{
  BlockIndexEntry, entry_bytes, is_empty, SsTableWriter, new, emit, finish_block, start_block,
  shared_len, push_entry,
}
use cdoc.Sst.Block.{shared_of, encode_entries}

abbrev pub keys : Entries → List Bytes
keys [] = []
keys ((k, v) ∷ m) = k ∷ keys m

abbrev pub concat : List Entries → Entries
concat [] = []
concat (b ∷ bs) = b ++ concat bs

abbrev pub first_key : Entries → Bytes
first_key [] = []
first_key ((k, v) ∷ es) = k

abbrev last_key : Bytes → Entries → Bytes
last_key p [] = p
last_key p ((k, v) ∷ es) = last_key k es

abbrev pub IsFilled : Entries → Type 0
IsFilled [] = ⊥
IsFilled ((k, v) ∷ es) = Unit

-- The block that has been begun, if there is one.
abbrev pub ends : Entries → List Entries
ends [] = []
ends ((k, v) ∷ es) = ((k, v) ∷ es) ∷ []

keys-append : (xs ys : Entries) → keys (xs ++ ys) ≡ keys xs ++ keys ys
keys-append [] ys = refl
keys-append ((k, v) ∷ xs) ys = ap (λ l. k ∷ l) (keys-append xs ys)

pub concat-append : (xs ys : List Entries) → concat (xs ++ ys) ≡ concat xs ++ concat ys
concat-append [] ys = refl
concat-append (x ∷ xs) ys =
    ap (λ l. x ++ l) (concat-append xs ys) ∙ sym (append_assoc x (concat xs) (concat ys))

pub concat-ends : (es : Entries) → concat (ends es) ≡ es
concat-ends [] = refl
concat-ends ((k, v) ∷ es) = append-nil ((k, v) ∷ es)

ends-All : (es : Entries) → All IsFilled (ends es)
ends-All [] = tt
ends-All ((k, v) ∷ es) = (tt, tt)

last_key-concat : (p : Bytes) (es : Entries) (k v : Bytes) → last_key p (es ++ (k, v) ∷ []) ≡ k
last_key-concat p [] k v = refl
last_key-concat p ((j, w) ∷ es) k v = last_key-concat j es k v

encode_entries-concat :
    (count : ℕ) (p : Bytes) (es : Entries) (k v : Bytes)
    → encode_entries count p (es ++ (k, v) ∷ [])
      ≡ encode_entries count p es
        ++ entry_bytes (shared_of (count + length es) (last_key p es) k) k v
unfolding encode_entries
encode_entries-concat count p [] k v =
    rw (append-nil (entry_bytes (shared_of count p k) k v))
      (ap (λ c. entry_bytes (shared_of c p k) k v) (omega arith))
encode_entries-concat count p ((j, w) ∷ es) k v =
    let front = entry_bytes (shared_of count p j) j w in
    let last : ℕ → Bytes = λ c. entry_bytes (shared_of c (last_key j es) k) k v in
    ap (λ l. front ++ l) (encode_entries-concat (count + 1) j es k v)
    ∙ sym (append_assoc front (encode_entries (count + 1) j es) (last (count + 1 + length es)))
    ∙ ap (λ c. (front ++ encode_entries (count + 1) j es) ++ last c) (omega arith)

encode_entries_snoc :
    (es : Entries) (k v : Bytes)
    → encode_entries 0 [] es ++ entry_bytes (shared_of (length es) (last_key [] es) k) k v
      ≡ encode_entries 0 [] (es ++ (k, v) ∷ [])
encode_entries_snoc es k v =
    ap (λ c. encode_entries 0 [] es ++ entry_bytes (shared_of c (last_key [] es) k) k v)
      (omega arith)
    ∙ sym (encode_entries-concat 0 [] es k v)

keys_snoc :
    (ks : List Bytes) (m es : Entries) (k v : Bytes)
    → ks ≡ keys (m ++ es)
    → ks ++ k ∷ [] ≡ keys (m ++ (es ++ (k, v) ∷ []))
keys_snoc ks m es k v h =
    ap (λ l. l ++ k ∷ []) h
    ∙ sym (keys-append (m ++ es) ((k, v) ∷ []))
    ∙ ap keys (append_assoc m es ((k, v) ∷ []))

encode_entries-is_empty :
    (count : ℕ) (p k v : Bytes) (es : Entries)
    → is_empty (encode_entries count p ((k, v) ∷ es)) ≡ false
unfolding encode_entries entry_bytes le_bytes
encode_entries-is_empty count p k v es = refl

positive : (n : ℕ) → (suc n == 0) ≡ false
positive n = ground arith

abbrev pub index_entry : Timestamp → Timestamp → ℕ → Bytes → BlockIndexEntry
index_entry min_ts max_ts offset k = record {
  first_key = k;
  offset = offset;
  min_ts = min_ts;
  max_ts = max_ts;
}

module _ (crc : Crc32) where
  -- A block in the file: its entries and their checksum.
  unfoldable pub seal : Entries → Bytes
  seal es = encode_entries 0 [] es ++ le_bytes 4 (hash crc (encode_entries 0 [] es))

  unfoldable pub sealed : List Entries → Bytes
  unfolding seal
  sealed [] = []
  sealed (b ∷ bs) = seal b ++ sealed bs

  unfoldable pub index_of : Timestamp → Timestamp → ℕ → List Entries → List BlockIndexEntry
  unfolding seal
  index_of min_ts max_ts offset [] = []
  index_of min_ts max_ts offset (b ∷ bs) =
      index_entry min_ts max_ts offset (first_key b)
      ∷ index_of min_ts max_ts (offset + length (seal b)) bs

  sealed-append : (xs ys : List Entries) → sealed (xs ++ ys) ≡ sealed xs ++ sealed ys
  unfolding sealed
  sealed-append [] ys = refl
  sealed-append (x ∷ xs) ys =
      ap (λ l. seal x ++ l) (sealed-append xs ys)
      ∙ sym (append_assoc (seal x) (sealed xs) (sealed ys))

  index_of-append :
      (min_ts max_ts offset : ℕ) (xs ys : List Entries)
      → index_of min_ts max_ts offset (xs ++ ys)
        ≡ index_of min_ts max_ts offset xs
          ++ index_of min_ts max_ts (offset + length (sealed xs)) ys
  unfolding index_of sealed
  index_of-append min_ts max_ts offset [] ys = ap (λ o. index_of min_ts max_ts o ys) (omega arith)
  index_of-append min_ts max_ts offset (x ∷ xs) ys =
      ap (λ l. index_entry min_ts max_ts offset (first_key x) ∷ l)
        (index_of-append min_ts max_ts (offset + length (seal x)) xs ys
          ∙ ap
              (λ o.
                index_of min_ts max_ts (offset + length (seal x)) xs ++ index_of min_ts max_ts o ys)
              (omega (arith, length-append (seal x) (sealed xs))))

  index_of_snoc :
      (min_ts max_ts : ℕ) (bs : List Entries) (b : Entries)
      → index_of min_ts max_ts 0 (bs ++ b ∷ [])
        ≡ index_of min_ts max_ts 0 bs
          ++ index_entry min_ts max_ts (length (sealed bs)) (first_key b) ∷ []
  unfolding index_of
  index_of_snoc min_ts max_ts bs b =
      index_of-append min_ts max_ts 0 bs (b ∷ [])
      ∙ ap (λ o. index_of min_ts max_ts 0 bs ++ index_entry min_ts max_ts o (first_key b) ∷ [])
          (omega arith)

  sealed-snoc : (bs : List Entries) (b : Entries) → sealed (bs ++ b ∷ []) ≡ sealed bs ++ seal b
  unfolding sealed
  sealed-snoc bs b = sealed-append bs (b ∷ []) ∙ ap (λ l. sealed bs ++ l) (append-nil (seal b))

  -- The writer holds the finished blocks `bs` and the entries `es` of the block that has begun.
  pub record IsWriter (w : SsTableWriter crc) (bs : List Entries) (es : Entries) : Type 0 where
    pub filled : All IsFilled bs
    pub writer_is : w.writer ≡ sealed bs
    pub buf_is : w.block_buf ≡ encode_entries 0 [] es
    pub prev_is : w.prev_key ≡ last_key [] es
    pub count_is : w.entries_in_block ≡ length es
    pub bytes_is : w.bytes_written ≡ length (sealed bs)
    pub index_is : w.index ≡ index_of w.min_ts w.max_ts 0 (bs ++ ends es)
    pub keys_is : w.all_keys ≡ keys (concat bs ++ es)

  pub new-IsWriter : (min_ts max_ts : Timestamp) → IsWriter (new crc min_ts max_ts) [] []
  unfolding new sealed index_of encode_entries
  new-IsWriter min_ts max_ts = record {
    filled = tt;
    writer_is = refl;
    buf_is = refl;
    prev_is = refl;
    count_is = refl;
    bytes_is = refl;
    index_is = refl;
    keys_is = refl;
  }

  pub finish_block-IsWriter :
      (w : SsTableWriter crc) (bs : List Entries) (es : Entries)
      → IsWriter w bs es
      → IsWriter (finish_block crc w) (bs ++ ends es) []
  unfolding finish_block emit encode_entries entry_bytes le_bytes seal
  finish_block-IsWriter w bs [] h = rw (ap is_empty h.buf_is) (rw (append-nil bs) h)
  finish_block-IsWriter w bs ((k, v) ∷ es) h =
      let b : Entries = (k, v) ∷ es in
      let sealed_is : w.block_buf ++ le_bytes 4 (hash crc w.block_buf) ≡ seal b =
        ap (λ buf. buf ++ le_bytes 4 (hash crc buf)) h.buf_is in
      rw (ap is_empty h.buf_is) (record {
        filled = All-append IsFilled bs (b ∷ []) h.filled (tt, tt);
        writer_is = cc (h.writer_is, sealed_is, sealed-snoc bs b);
        buf_is = refl;
        prev_is = refl;
        count_is = refl;
        bytes_is = rw h.bytes_is (
            rw sealed_is (sym (ap length (sealed-snoc bs b) ∙ length-append (sealed bs) (seal b))));
        index_is = h.index_is ∙ ap (index_of w.min_ts w.max_ts 0) (sym (append-nil (bs ++ b ∷ [])));
        keys_is =
            h.keys_is
            ∙ ap keys (
                sym (
                  append-nil (concat (bs ++ b ∷ []))
                  ∙ concat-append bs (b ∷ [])
                  ∙ ap (λ l. concat bs ++ l) (append-nil b)));
      })

  pub push_entry-IsWriter :
      (w : SsTableWriter crc) (bs : List Entries) (es : Entries) (k v : Bytes)
      → IsWriter w bs es
      → IsWriter (push_entry crc k v (start_block crc k w)) bs (es ++ (k, v) ∷ [])
  unfolding push_entry start_block shared_len entry_bytes encode_entries
  push_entry-IsWriter w bs [] k v h = rw (ap (λ n. n == 0) h.count_is) (record {
    filled = h.filled;
    writer_is = h.writer_is;
    buf_is = rw h.buf_is (rw h.count_is (encode_entries_snoc [] k v));
    prev_is = refl;
    count_is = rw h.count_is refl;
    bytes_is = h.bytes_is;
    index_is =
        ap (λ l. l ++ index_entry w.min_ts w.max_ts w.bytes_written k ∷ [])
          (h.index_is ∙ ap (index_of w.min_ts w.max_ts 0) (append-nil bs))
        ∙ ap (λ o. index_of w.min_ts w.max_ts 0 bs ++ index_entry w.min_ts w.max_ts o k ∷ [])
            h.bytes_is
        ∙ sym (index_of_snoc w.min_ts w.max_ts bs ((k, v) ∷ []));
    keys_is = keys_snoc w.all_keys (concat bs) [] k v h.keys_is;
  })
  push_entry-IsWriter w bs ((j, u) ∷ es) k v h =
      let b : Entries = (j, u) ∷ es in
      rw (ap (λ n. n == 0) h.count_is ∙ positive (length es)) (record {
        filled = h.filled;
        writer_is = h.writer_is;
        buf_is = rw h.buf_is (rw h.count_is (rw h.prev_is (encode_entries_snoc b k v)));
        prev_is = sym (last_key-concat [] b k v);
        count_is = omega (arith, h.count_is, length-append b ((k, v) ∷ []));
        bytes_is = h.bytes_is;
        index_is =
            h.index_is
            ∙ index_of_snoc w.min_ts w.max_ts bs b
            ∙ sym (index_of_snoc w.min_ts w.max_ts bs (b ++ (k, v) ∷ []));
        keys_is = keys_snoc w.all_keys (concat bs) b k v h.keys_is;
      })
