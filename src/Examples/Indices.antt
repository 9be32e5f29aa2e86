-- ===== src/Examples/Indices.antt =====
-- Fractional indices.
use cdoc.Prelude.{
  ℕ, List, [], ◌∷◌, ◌++◌, ◌≡◌, refl, arith, Bytes, length, All, inl, some, ◌≺◌, ◌≤◌, take,
}
use cdoc.Varint.{found, Returns}
use cdoc.Path.Lseq.{Segment, between, new, from_bytes, write_fractional_index}
use cdoc.Path.Lseq.Codec.{encode, AreSegments}
use cdoc.Path.Lseq.Between.{place, write_fractional_index-encode}
use cdoc.Path.Lseq.FromBytes.{from_bytes-encode, from_bytes_takes}
use cdoc.Path.Lseq.Order.{HasNext, between_lem, between_below, between_overshoots}

abbrev pub seg : ℕ → ℕ → Segment
seg p n = record { pid = p; seq = n }

abbrev lower : List Segment
lower = seg 3 5 ∷ []

abbrev upper : List Segment
upper = seg 9 1 ∷ []

abbrev longer : List Segment
longer = seg 3 5 ∷ seg 2 8 ∷ []

lower-AreSegments : AreSegments lower
lower-AreSegments = ground arith

upper-AreSegments : AreSegments upper
upper-AreSegments = ground arith

longer-AreSegments : AreSegments longer
longer-AreSegments = ground arith

lower-HasNext : All HasNext lower
lower-HasNext = ground arith

between_lem_example :
    (r : Bytes) × (between (some (encode lower)) (some (encode upper)) 7 ≡ found r)
    × (new r ≡ found r)
    × (encode lower ≺ r)
between_lem_example =
    between_lem 7 (omega arith) lower upper lower-AreSegments upper-AreSegments lower-HasNext

between_below_example :
    (r : Bytes) × (between (some (encode lower)) (some (encode upper)) 7 ≡ found r)
    × (encode lower ≺ r)
    × (r ≺ encode upper)
between_below_example =
    between_below 7 (omega arith) lower upper lower-AreSegments upper-AreSegments lower-HasNext
      (inl refl)

between_overshoots_example :
    (r : Bytes) × (between (some (encode lower)) (some (encode longer)) 7 ≡ found r)
    × (encode lower ≺ encode longer)
    × (encode longer ≺ r)
between_overshoots_example =
    between_overshoots 7 (omega arith) lower (seg 2 8) [] lower-AreSegments longer-AreSegments
      lower-HasNext (omega arith)

write_fractional_index-encode_example :
    write_fractional_index (encode lower) (encode upper) 7 ≡ found (encode (place 7 lower upper))
write_fractional_index-encode_example =
    write_fractional_index-encode 7 lower upper (omega arith) lower-AreSegments upper-AreSegments

from_bytes-encode_example :
    from_bytes (encode longer ++ 0 ∷ 30 ∷ []) ≡ found (encode longer, length (encode longer))
from_bytes-encode_example =
    from_bytes-encode (seg 3 5) (seg 2 8 ∷ []) (0 ∷ 30 ∷ []) longer-AreSegments refl

from_bytes_takes_example :
    Returns
      (λ (r : Bytes × ℕ). (r.0 ≡ take r.1 (1 ∷ 3 ∷ 1 ∷ 5 ∷ 0 ∷ [])) × (1 ≤ r.1) × (r.1 ≤ 5))
      (from_bytes (1 ∷ 3 ∷ 1 ∷ 5 ∷ 0 ∷ []))
from_bytes_takes_example = from_bytes_takes (1 ∷ 3 ∷ 1 ∷ 5 ∷ 0 ∷ [])
