-- ===== src/Examples/SstFiles.antt =====
-- A table of three entries, in a file.
use cdoc.Prelude.{[], ◌∷◌, ◌^◌, ◌<◌, ◌≡◌, refl, arith, cmp, All, true, length, Bytes, List}
use cdoc.Varint.{found, ◌>>=◌}
use cdoc.BTreeMap
use cdoc.BTreeMap.{Entries}
use cdoc.BTreeMap.Sorted.{IsSorted}
use cdoc.Zerocopy.{plain}
use cdoc.Crc32.{sum32}
use cdoc.Sst.{footer_bytes, bloom_hash}
use cdoc.Sst.Tables.{AreSmall}
use cdoc.Sst.Write.{new, add_all, finish, common_prefix_len, bloom_filter, entry_bytes}
use cdoc.Varint.LittleEndian.{le_bytes}
use cdoc.Varint.BigEndian.{be_bytes}
use cdoc.Sst.Read.{open_table, get, scan_prefix, bloom_may_contain}
use cdoc.Sst.Bloom.{bloom_may_contain-bloom_filter}
use cdoc.Sst.Scan.{with_prefix}
use cdoc.Sst.Written.{written, get-written, scan_prefix-written}

abbrev three : Entries
three = (97 ∷ [], 1 ∷ []) ∷ (97 ∷ 98 ∷ [], 2 ∷ []) ∷ (99 ∷ [], 3 ∷ []) ∷ []

three-IsSorted : IsSorted three
unfolding cmp
three-IsSorted = ((refl, (refl, tt)), ((refl, tt), (tt, tt)))

three-AreSmall : AreSmall three
three-AreSmall = ground arith

length-written : length (written sum32 5 9 plain three) ≡ 111
unfolding finish add_all new footer_bytes entry_bytes le_bytes be_bytes common_prefix_len
    bloom_filter bloom_hash
length-written = refl

written_short : length (written sum32 5 9 plain three) < 2 ^ 64
written_short = omega (arith, length-written)

two_keys : List Bytes
two_keys = (97 ∷ []) ∷ (98 ∷ []) ∷ []

get-written_example :
    open_table (written sum32 5 9 plain three) >>= (λ r. found (get sum32 (97 ∷ 98 ∷ []) r))
    ≡ found (BTreeMap.get (97 ∷ 98 ∷ []) three)
get-written_example =
    get-written sum32 5 9 plain three (97 ∷ 98 ∷ []) three-IsSorted three-AreSmall written_short
      (omega arith) (omega arith)

scan_prefix-written_example :
    open_table (written sum32 5 9 plain three) >>= (λ r. found (scan_prefix (97 ∷ []) r))
    ≡ found (with_prefix (97 ∷ []) three)
scan_prefix-written_example =
    scan_prefix-written sum32 5 9 plain three (97 ∷ []) three-IsSorted three-AreSmall written_short
      (omega arith) (omega arith)

bloom_may_contain-bloom_filter_example :
    All (λ k. bloom_may_contain sum32 (bloom_filter sum32 two_keys) k ≡ true) two_keys
bloom_may_contain-bloom_filter_example = bloom_may_contain-bloom_filter sum32 two_keys
