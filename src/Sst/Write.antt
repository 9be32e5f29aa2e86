-- ===== src/Sst/Write.antt =====
-- src/sst/write.rs: the writer of a table, over a `Vec<u8>`, whose `write_all` cannot fail.
use cdoc.Prelude.{
  ℕ, zero, suc, ◌+◌, ◌*◌, ◌/◌, ◌%◌, ◌^◌, List, [], ◌∷◌, ◌++◌, Bytes, length, drop, replicate, leb,
  ◌==◌, if◌then◌else◌, not, ◌&&◌, Bool, true, false,
}
use Prim.Native.Nat.{bit_or}
use cdoc.Varint.LittleEndian.{le_bytes}
use cdoc.Zerocopy.{Zerocopy}
use cdoc.Crc32.{Crc32, hash}
use cdoc.Hlc.{Timestamp}
use cdoc.BTreeMap.{Entries}
use cdoc.Sst.{
  block_size, prefix_reset_interval, bloom_hash_count, hash_numbers, footer_bytes, bloom_hash,
}

pub record BlockIndexEntry : Type 0 where
  pub first_key : Bytes
  pub offset : ℕ
  pub min_ts : Timestamp
  pub max_ts : Timestamp

-- `common_prefix_len`
unfoldable pub common_prefix_len : Bytes → Bytes → ℕ
common_prefix_len [] b = 0
common_prefix_len (x ∷ a) [] = 0
common_prefix_len (x ∷ a) (y ∷ b) = if x == y then suc (common_prefix_len a b) else 0

-- `bloom[i] = f(bloom[i])`
abbrev pub modify : ℕ → (ℕ → ℕ) → Bytes → Bytes
modify i f [] = []
modify zero f (b ∷ bs) = f b ∷ bs
modify (suc i) f (b ∷ bs) = b ∷ modify i f bs

-- `bloom[bit_pos / 8] |= 1 << (bit_pos % 8)`
unfoldable pub set_bit : ℕ → Bytes → Bytes
set_bit bit_pos bloom = modify (bit_pos / 8) (λ b. bit_or b (2 ^ (bit_pos % 8))) bloom

-- `is_empty`
abbrev pub is_empty {ℓ} : {A : Type ℓ} → List A → Bool
is_empty [] = true
is_empty (x ∷ xs) = false

-- What `add` appends for an entry.
unfoldable pub entry_bytes : ℕ → Bytes → Bytes → Bytes
entry_bytes shared key value =
    let suffix = drop shared key in
    le_bytes 2 shared
    ++ (le_bytes 2 (length suffix % 2 ^ 16)
        ++ (le_bytes 2 (length value % 2 ^ 16) ++ (suffix ++ value)))

module _ (crc : Crc32) where
  -- The loops over the hash functions and over the keys.
  unfoldable pub set_bits : ℕ → Bytes → List ℕ → Bytes → Bytes
  unfolding set_bit
  set_bits filter_bytes key [] bloom = bloom
  set_bits filter_bytes key (i ∷ is) bloom =
      set_bits filter_bytes key is (set_bit (bloom_hash crc key i % (filter_bytes * 8)) bloom)

  unfoldable pub add_keys : ℕ → List Bytes → Bytes → Bytes
  unfolding set_bits
  add_keys filter_bytes [] bloom = bloom
  add_keys filter_bytes (key ∷ keys) bloom =
      add_keys filter_bytes keys (set_bits filter_bytes key hash_numbers bloom)

  -- `filter_bits.div_ceil(8)`
  unfoldable pub filter_size : ℕ → ℕ
  filter_size num_keys = ((if num_keys == 0 then 8 else num_keys * 10) + 7) / 8

  unfoldable pub bloom_filter : List Bytes → Bytes
  unfolding add_keys filter_size
  bloom_filter all_keys =
      let filter_bytes = filter_size (length all_keys) in
      add_keys filter_bytes all_keys (replicate filter_bytes 0)

  -- `bytes_written` is a `u64`, which the size of a file does not exceed.
  pub record SsTableWriter : Type 0 where
    pub writer : Bytes
    pub block_buf : Bytes
    pub prev_key : Bytes
    pub entries_in_block : ℕ
    pub bytes_written : ℕ
    pub index : List BlockIndexEntry
    pub all_keys : List Bytes
    pub file_hasher : crc.Hasher
    pub min_ts : Timestamp
    pub max_ts : Timestamp

  unfoldable pub new : Timestamp → Timestamp → SsTableWriter
  new min_ts max_ts = record {
    writer = [];
    block_buf = [];
    prev_key = [];
    entries_in_block = 0;
    bytes_written = 0;
    index = [];
    all_keys = [];
    file_hasher = crc.new;
    min_ts = min_ts;
    max_ts = max_ts;
  }

  unfoldable pub emit : Bytes → SsTableWriter → SsTableWriter
  emit bytes w = record w {
    writer = w.writer ++ bytes;
    file_hasher = crc.update w.file_hasher bytes;
    bytes_written = w.bytes_written + length bytes;
  }

  unfoldable pub finish_block : SsTableWriter → SsTableWriter
  unfolding emit
  finish_block w =
      if is_empty w.block_buf
      then w
      else record (emit (w.block_buf ++ le_bytes 4 (hash crc w.block_buf)) w) {
        block_buf = [];
        prev_key = [];
        entries_in_block = 0;
      }

  -- The parts of `add`: the index of a new block, and the entry itself.
  unfoldable pub start_block : Bytes → SsTableWriter → SsTableWriter
  start_block key w =
      if w.entries_in_block == 0
      then record w {
        index =
            w.index
            ++ record {
              first_key = key;
              offset = w.bytes_written;
              min_ts = w.min_ts;
              max_ts = w.max_ts;
            }
              ∷ [];
        prev_key = [];
      }
      else w

  -- The variable `shared`.
  unfoldable pub shared_len : SsTableWriter → Bytes → ℕ
  shared_len w key =
      if w.entries_in_block % prefix_reset_interval == 0
      then 0
      else common_prefix_len w.prev_key key % 2 ^ 16

  unfoldable pub push_entry : Bytes → Bytes → SsTableWriter → SsTableWriter
  unfolding entry_bytes shared_len
  push_entry key value w = record w {
    block_buf = w.block_buf ++ entry_bytes (shared_len w key) key value;
    prev_key = key;
    entries_in_block = w.entries_in_block + 1;
    all_keys = w.all_keys ++ key ∷ [];
  }

  unfoldable pub add : Bytes → Bytes → SsTableWriter → SsTableWriter
  unfolding finish_block start_block push_entry
  add key value w =
      let full = not (is_empty w.block_buf) && leb block_size (length w.block_buf) in
      push_entry key value (start_block key (if full then finish_block w else w))

  -- The loop of `flush_memtable`.
  unfoldable pub add_all : Entries → SsTableWriter → SsTableWriter
  unfolding add
  add_all [] w = w
  add_all ((key, value) ∷ m) w = add_all m (add key value w)

  module _ (z : Zerocopy) where
    -- `index_buf`
    unfoldable pub index_bytes : List BlockIndexEntry → Bytes
    index_bytes [] = []
    index_bytes (entry ∷ index) =
        le_bytes 2 (length entry.first_key % 2 ^ 16)
        ++ (entry.first_key
            ++ (z.as_bytes 8 entry.min_ts
                ++ (z.as_bytes 8 entry.max_ts ++ (le_bytes 8 entry.offset ++ index_bytes index))))

    unfoldable pub finish : SsTableWriter → Bytes
    unfolding finish_block emit index_bytes
    finish w =
        let w₁ = finish_block w in
        let w₂ = emit (index_bytes w₁.index) w₁ in
        let w₃ = emit (le_bytes 4 bloom_hash_count) w₂ in
        let w₄ = emit (bloom_filter w₃.all_keys) w₃ in
        w₄.writer
        ++ footer_bytes z (record {
          index_offset = w₁.bytes_written;
          bloom_offset = w₂.bytes_written;
          min_timestamp = w₄.min_ts;
          max_timestamp = w₄.max_ts;
          entry_count = length w₄.all_keys;
          version = 1;
          checksum = crc.finalize w₄.file_hasher;
        })
