-- ===== src/Sst/Read.antt =====
-- src/sst/read.rs: the reader of a table, on the bytes of the mapped file.
use cdoc.Prelude.{
  ℕ, zero, suc, ◌+◌, ◌-◌, ◌*◌, ◌/◌, ◌%◌, ◌^◌, List, [], ◌∷◌, ◌++◌, Bytes, length, take, drop, ltb,
  leb, ◌==◌, if◌then◌else◌, not, ◌&&◌, ◌||◌, Bool, true, false, Option, none, some, min, cmp, lt,
  eq, gt, is_lt, is_eq,
}
use Prim.Native.Nat.{bit_and}
use cdoc.Varint.{Parsed, found, absent, panic, stuck, ◌>>=◌}
use cdoc.Varint.LittleEndian.{of_le}
use cdoc.Crc32.{Crc32}
use cdoc.BTreeMap.{Entries}
use cdoc.Sst.{prefix_reset_interval, hash_numbers, Footer, footer_size, read_footer, bloom_hash}
use cdoc.Sst.Prefix.{starts_with, prefix_successor}

pub record SsTableReader : Type 0 where
  pub mmap : Bytes
  pub footer : Footer
  pub block_index : List (Bytes × ℕ)
  pub bloom : Bytes

-- `&bytes[start..end]`
abbrev pub slice : ℕ → ℕ → Bytes → Bytes
slice start end bytes = take (end - start) (drop start bytes)

-- The loop over the block index: the first keys, and the offsets of the blocks. A round takes 26
-- bytes at least and ends behind the file's last byte at the latest.
unfoldable pub parse_index : ℕ → Bytes → ℕ → ℕ → Parsed (List (Bytes × ℕ))
parse_index zero mmap idx_end pos = stuck
parse_index (suc fuel) mmap idx_end pos =
    let key_len = of_le (take 2 (drop pos mmap)) in
    let key_pos = pos + 2 in
    let first_key = take key_len (drop key_pos mmap) in
    let offset = of_le (take 8 (drop (key_pos + key_len + 16) mmap)) in
    let more = parse_index fuel mmap idx_end (key_pos + key_len + 24) in
    if ltb pos idx_end && leb ((pos + 2) % 2 ^ 64) idx_end
    then (if leb (pos + 2) (length mmap)
        then (if ltb (length mmap) (key_pos + key_len + 16 + 8)
            then found []
            else more >>= λ index. found ((first_key, offset) ∷ index))
        else panic)
    else found []

-- `SSTableReader::open`; `absent` stands for `Err(Corruption)`.
unfoldable pub open_table : Bytes → Parsed SsTableReader
unfolding parse_index
open_table mmap =
    let footer_start = length mmap - footer_size in
    let footer = read_footer (drop footer_start mmap) in
    let bloom_section_start = (footer.bloom_offset + 4) % 2 ^ 64 in
    let bloom =
      if ltb bloom_section_start footer_start
      then slice bloom_section_start footer_start mmap
      else [] in
    let index = parse_index (length mmap + 2) mmap footer.bloom_offset footer.index_offset in
    if ltb (length mmap) footer_size
    then absent
    else index >>= λ block_index.
        found (record { mmap = mmap; footer = footer; block_index = block_index; bloom = bloom })

-- `bytes[i]`, for an index that is in range
abbrev pub byte_at : ℕ → Bytes → ℕ
byte_at i [] = 0
byte_at zero (b ∷ bs) = b
byte_at (suc i) (b ∷ bs) = byte_at i bs

-- `self.bloom[bit_pos / 8] & (1 << (bit_pos % 8)) != 0`
unfoldable pub test_bit : ℕ → Bytes → Bool
test_bit bit_pos bloom = not (bit_and (byte_at (bit_pos / 8) bloom) (2 ^ (bit_pos % 8)) == 0)

module _ (crc : Crc32) where
  unfoldable pub test_bits : ℕ → Bytes → List ℕ → Bytes → Bool
  unfolding test_bit
  test_bits total_bits key [] bloom = true
  test_bits total_bits key (i ∷ is) bloom =
      test_bit (bloom_hash crc key i % total_bits) bloom && test_bits total_bits key is bloom

  unfoldable pub bloom_may_contain : Bytes → Bytes → Bool
  unfolding test_bits
  bloom_may_contain [] key = true
  bloom_may_contain (b ∷ bs) key = test_bits (length (b ∷ bs) * 8) key hash_numbers (b ∷ bs)

-- `entry_count % PREFIX_RESET_INTERVAL == 0` clears `prev_key`.
abbrev pub reset_key : ℕ → Bytes → Bytes
reset_key entry_count prev_key = if entry_count % prefix_reset_interval == 0 then [] else prev_key

-- The loop of `decode_block`; `block` is what is left of the block from `pos` on. A round takes six
-- bytes at least, so that fuel of the length of `block` is not used up before `block`.
unfoldable pub decode_entries : ℕ → ℕ → Bytes → Bytes → Entries
decode_entries zero entry_count prev_key block = []
decode_entries (suc fuel) entry_count prev_key block =
    let shared = of_le (take 2 block) in
    let suffix_len = of_le (take 2 (drop 2 block)) in
    let value_len = of_le (take 2 (drop 2 (drop 2 block))) in
    let rest = drop 2 (drop 2 (drop 2 block)) in
    let prev = reset_key entry_count prev_key in
    let key = take (min shared (length prev)) prev ++ take suffix_len rest in
    let value = take value_len (drop suffix_len rest) in
    let more = decode_entries fuel (entry_count + 1) key (drop value_len (drop suffix_len rest)) in
    if leb 6 (length block)
    then (if ltb (length rest) (suffix_len + value_len) then [] else (key, value) ∷ more)
    else []

-- The end of a block: where the next one starts, or the index.
abbrev pub block_end : Footer → List (Bytes × ℕ) → ℕ
block_end footer [] = footer.index_offset
block_end footer ((k, offset) ∷ blocks) = offset

-- `decode_block`, on where the block starts and on the index behind its entry. A start within four
-- of 2 ^ 64, which no writer leaves in an index, wraps in `block_start + 4`: where the first test
-- then lets it through, the program slices from the start to a smaller end and panics, and here
-- the block is empty.
unfoldable pub decode_at : SsTableReader → ℕ → List (Bytes × ℕ) → Entries
unfolding decode_entries
decode_at r block_start blocks =
    let end = block_end r.footer blocks in
    let block = slice block_start (end - 4) r.mmap in
    if leb end ((block_start + 4) % 2 ^ 64) || ltb (length r.mmap) end
    then []
    else decode_entries (length block) 0 [] block

-- `binary_search_by` on the index: where the key stands, or where it would. The scan from the front
-- finds what the search finds in an index in the order of its keys, as the writer leaves it; what
-- the standard library does with another index is not said.
pub data Position : Type 0 where
  at : ℕ → Position
  before : ℕ → Position

unfoldable pub binary_search : ℕ → Bytes → List (Bytes × ℕ) → Position
binary_search i key [] = before i
binary_search i key ((k, offset) ∷ blocks) = elim (cmp k key) [
  | eq ↦ at i
  | gt ↦ before i
  | lt ↦ binary_search (i + 1) key blocks
]

-- `decode_block` by number; `binary_search` gives one that is in range.
unfoldable pub decode_blocks : SsTableReader → List (Bytes × ℕ) → Entries
unfolding decode_at
decode_blocks r [] = []
decode_blocks r ((k, offset) ∷ blocks) = decode_at r offset blocks

unfoldable pub decode_block : SsTableReader → ℕ → Entries
unfolding decode_blocks
decode_block r block_idx = decode_blocks r (drop block_idx r.block_index)

-- `for (k, v) in entries { if k == key { return Some(v) } }`
unfoldable pub find_key : Bytes → Entries → Option Bytes
find_key key [] = none
find_key key ((k, v) ∷ entries) = if is_eq (cmp k key) then some v else find_key key entries

unfoldable pub get_in : SsTableReader → Bytes → Position → Option Bytes
unfolding find_key decode_block
get_in r key (at i) = find_key key (decode_block r i)
get_in r key (before zero) = none
get_in r key (before (suc i)) = find_key key (decode_block r i)

unfoldable pub get : Crc32 → Bytes → SsTableReader → Option Bytes
unfolding get_in bloom_may_contain binary_search
get crc key r =
    if bloom_may_contain crc r.bloom key
    then get_in r key (binary_search 0 key r.block_index)
    else none

-- `k >= prefix_successor(prefix)`, where there is a successor
abbrev pub is_past : Option Bytes → Bytes → Bool
is_past none k = false
is_past (some succ) k = not (is_lt (cmp k succ))

-- The test on the first key of a block behind the first block, and on a key that lies above the
-- prefix and does not start with it.
unfoldable pub beyond : Bytes → Bytes → Bool
beyond prefix k =
    not (is_lt (cmp k prefix))
    && not (is_eq (cmp k prefix))
    && not (starts_with k prefix)
    && is_past (prefix_successor prefix) k

-- The loop over the entries of a block: what is pushed, and whether it returns.
unfoldable pub scan_entries : Bytes → Entries → Entries × Bool
unfolding beyond
scan_entries prefix [] = ([], false)
scan_entries prefix ((k, v) ∷ entries) =
    let (results, done) = scan_entries prefix entries in
    if starts_with k prefix
    then ((k, v) ∷ results, done)
    else if beyond prefix k
    then ([], true)
    else (results, done)

-- The loop over the blocks behind the first one.
unfoldable pub scan_blocks : SsTableReader → Bytes → List (Bytes × ℕ) → Entries
unfolding scan_entries decode_at beyond
scan_blocks r prefix [] = []
scan_blocks r prefix ((k, offset) ∷ blocks) =
    let more = scan_blocks r prefix blocks in
    let (results, done) = scan_entries prefix (decode_at r offset blocks) in
    if not (starts_with k prefix) && beyond prefix k
    then []
    else if done
    then results
    else results ++ more

-- The same from the first block on, which is decoded in any case.
unfoldable pub scan_from : SsTableReader → Bytes → List (Bytes × ℕ) → Entries
unfolding scan_blocks scan_entries decode_at
scan_from r prefix [] = []
scan_from r prefix ((k, offset) ∷ blocks) =
    let (results, done) = scan_entries prefix (decode_at r offset blocks) in
    if done then results else results ++ scan_blocks r prefix blocks

-- `start_block`
unfoldable pub start_block : Position → ℕ
start_block (at i) = i
start_block (before zero) = 0
start_block (before (suc i)) = i

unfoldable pub scan_prefix : Bytes → SsTableReader → Entries
unfolding scan_from start_block binary_search
scan_prefix prefix r =
    scan_from r prefix (drop (start_block (binary_search 0 prefix r.block_index)) r.block_index)
