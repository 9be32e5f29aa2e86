-- ===== src/Sst.antt =====
-- src/sst/: the memory table and the sorted string tables. This file has the constants, the footer
-- and the hashes of src/sst/mod.rs. `usize` has 64 bits.
pub mod Prefix
pub mod Memtable
pub mod Tables
pub mod Write
pub mod Read
pub mod Block
pub mod Layout
pub mod File
pub mod Open
pub mod FooterBytes
pub mod Table
pub mod Blocks
pub mod Search
pub mod Bloom
pub mod PrefixOrder
pub mod Scan
pub mod Written
pub mod Files
pub mod Directory
use cdoc.Prelude.{ℕ, ◌+◌, ◌*◌, ◌%◌, ◌^◌, List, [], ◌∷◌, ◌++◌, Bytes, length, take, drop}
use cdoc.Varint.BigEndian.{of_be}
use cdoc.Varint.LittleEndian.{le_bytes, of_le}
use cdoc.Zerocopy.{Zerocopy}
use cdoc.Crc32.{Crc32, hash}
use cdoc.Hlc.{Timestamp}

-- `BLOCK_SIZE`
abbrev pub block_size : ℕ
block_size = 64 * 1024

-- `PREFIX_RESET_INTERVAL`
abbrev pub prefix_reset_interval : ℕ
prefix_reset_interval = 16

-- `BLOOM_HASH_COUNT`, and the range `0..BLOOM_HASH_COUNT`
abbrev pub bloom_hash_count : ℕ
bloom_hash_count = 7

abbrev pub hash_numbers : List ℕ
hash_numbers = 0 ∷ 1 ∷ 2 ∷ 3 ∷ 4 ∷ 5 ∷ 6 ∷ []

pub record Footer : Type 0 where
  pub index_offset : ℕ
  pub bloom_offset : ℕ
  pub min_timestamp : Timestamp
  pub max_timestamp : Timestamp
  pub entry_count : ℕ
  pub version : ℕ
  pub checksum : ℕ

-- `size_of::<SSTableFooter>()`: the fields have alignment 1, so nothing stands between them.
abbrev pub footer_size : ℕ
footer_size = 48

-- `as_bytes` and `read_from_bytes` of the footer, which zerocopy derives from its fields.
unfoldable pub footer_bytes : Zerocopy → Footer → Bytes
footer_bytes z f =
    le_bytes 8 f.index_offset
    ++ (le_bytes 8 f.bloom_offset
        ++ (z.as_bytes 8 f.min_timestamp
            ++ (z.as_bytes 8 f.max_timestamp
                ++ (le_bytes 8 f.entry_count ++ (le_bytes 4 f.version ++ le_bytes 4 f.checksum)))))

unfoldable pub read_footer : Bytes → Footer
read_footer bytes = record {
  index_offset = of_le (take 8 bytes);
  bloom_offset = of_le (take 8 (drop 8 bytes));
  min_timestamp = of_be (take 8 (drop 8 (drop 8 bytes)));
  max_timestamp = of_be (take 8 (drop 8 (drop 8 (drop 8 bytes))));
  entry_count = of_le (take 8 (drop 8 (drop 8 (drop 8 (drop 8 bytes)))));
  version = of_le (take 4 (drop 8 (drop 8 (drop 8 (drop 8 (drop 8 bytes))))));
  checksum = of_le (take 4 (drop 4 (drop 8 (drop 8 (drop 8 (drop 8 (drop 8 bytes)))))));
}

-- `bloom_hash`: `h1.wrapping_add((i as u64).wrapping_mul(h2))`
unfoldable pub bloom_hash : Crc32 → Bytes → ℕ → ℕ
bloom_hash crc key i =
    let h1 = hash crc key in
    let h2 = crc.finalize (crc.update (crc.new_with_initial 0x9e3779b9) key) in
    (h1 + i * h2 % 2 ^ 64) % 2 ^ 64
