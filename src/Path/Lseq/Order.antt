-- ===== src/Path/Lseq/Order.antt =====
-- Where the generated index stands: above `prev`, and below `next` where there is room.
use cdoc.Prelude.{
  ◌+◌, ◌^◌, ◌<◌, ◌≡◌, refl, sym, ap, ◌∙◌, arith, List, [], ◌∷◌, ◌++◌, none, some, Bytes, All,
  append_assoc, ◌⊎◌, Ordering, lt, eq, gt, and_then, compare, cmp, ◌≺◌, lt_of_gt,
}
use cdoc.Varint.{found, write}
use cdoc.Varint.Ordered.{cmp-write}
use cdoc.Pid.{Pid, IsPid}
use cdoc.Path.Lseq.{
  Segment, IsSegment, min_segment, cmp_segment, successor, write_segment, between, new,
}
use cdoc.Path.Lseq.Codec.{encode, AreSegments, new-encode}
use cdoc.Path.Lseq.Between.{finish, place, write_fractional_index-encode}

-- Lists of segments in lexicographic order.
abbrev pub cmp_segments : List Segment → List Segment → Ordering
cmp_segments [] [] = eq
cmp_segments [] (b ∷ bs) = lt
cmp_segments (a ∷ as') [] = gt
cmp_segments (a ∷ as') (b ∷ bs) = and_then (cmp_segment a b) (cmp_segments as' bs)

and_then_assoc : (a b c : Ordering) → and_then (and_then a b) c ≡ and_then a (and_then b c)
and_then_assoc lt b c = refl
and_then_assoc eq b c = refl
and_then_assoc gt b c = refl

cmp-write_segment :
    (a b : Segment) (xs ys : Bytes)
    → IsSegment a
    → IsSegment b
    → cmp (write_segment a ++ xs) (write_segment b ++ ys) ≡ and_then (cmp_segment a b) (cmp xs ys)
unfolding write_segment
cmp-write_segment a b xs ys ha hb =
    rw
      (
        append_assoc (write 4 a.pid) (write 4 a.seq) xs,
        append_assoc (write 4 b.pid) (write 4 b.seq) ys,
      )
      (cmp-write 4 4 a.pid b.pid _ _ (omega arith) (omega arith)
        ∙ rw (cmp-write 4 4 a.seq b.seq xs ys (omega arith) (omega arith))
            (sym (and_then_assoc (compare a.pid b.pid) (compare a.seq b.seq) (cmp xs ys))))

cmp-write_segment_nil :
    (a : Segment) (xs : Bytes)
    → (cmp [] (write_segment a ++ xs) ≡ lt) × (cmp (write_segment a ++ xs) [] ≡ gt)
unfolding cmp write_segment write
cmp-write_segment_nil a xs = (refl, refl)

-- The order of the byte strings is the order of the segments.
pub cmp-encode :
    (as' bs : List Segment)
    → AreSegments as'
    → AreSegments bs
    → cmp (encode as') (encode bs) ≡ cmp_segments as' bs
unfolding encode
cmp-encode [] [] ha hb = unfold cmp in refl
cmp-encode [] (b ∷ bs) ha hb = (cmp-write_segment_nil b (encode bs)).0
cmp-encode (a ∷ as') [] ha hb = (cmp-write_segment_nil a (encode as')).1
cmp-encode (a ∷ as') (b ∷ bs) ha hb =
    cmp-write_segment a b (encode as') (encode bs) ha.0 hb.0
    ∙ ap (and_then (cmp_segment a b)) (cmp-encode as' bs ha.1 hb.1)

-- A sequence number that can still grow.
abbrev pub HasNext : Segment → Type 0
HasNext s = s.seq + 1 < 2 ^ 32

module _ (pid : Pid) where
  finish_above : (ls hs : List Segment) → All HasNext ls → cmp_segments ls (finish pid ls hs) ≡ lt
  unfolding finish
  finish_above [] [] h = refl
  finish_above [] (x ∷ hs) h = ground arith
  finish_above (l ∷ ls) [] h = ground (arith, finish_above ls [] h.1)
  finish_above (l ∷ ls) (x ∷ hs) h = ground (arith, finish_above ls hs h.1)

  -- What is placed lies above the lower neighbour, whatever the upper one is.
  pub place_above : (ls hs : List Segment) → All HasNext ls → cmp_segments ls (place pid ls hs) ≡ lt
  unfolding place
  place_above [] hs h = finish_above [] hs h
  place_above (l ∷ ls) [] h = finish_above (l ∷ ls) [] h
  place_above (l ∷ ls) (x ∷ hs) h = ground (arith, place_above ls hs h.1)

  -- The upper neighbour leaves room for an index of `pid`: it differs from the lower one at some
  -- segment and is larger there; or it goes on where the lower one ends, at a place where it is
  -- larger than the segments `(pid, 1)`.
  abbrev pub HasRoom : List Segment → List Segment → Type 0
  HasRoom ls [] = ⊥
  HasRoom [] (x ∷ hs) =
      (cmp_segment (min_segment pid) x ≡ lt) ⊎ ((min_segment pid ≡ x) × HasRoom [] hs)
  HasRoom (l ∷ ls) (x ∷ hs) = (cmp_segment l x ≡ lt) ⊎ ((l ≡ x) × HasRoom ls hs)

  finish_below : (hs : List Segment) → HasRoom [] hs → cmp_segments (finish pid [] hs) hs ≡ lt
  unfolding finish
  finish_below [] r = absurd r
  finish_below (x ∷ hs) r = ground (arith, finish_below hs)

  -- Where there is room, what is placed lies below the upper neighbour.
  pub place_below :
      (ls hs : List Segment)
      → All HasNext ls
      → HasRoom ls hs
      → cmp_segments (place pid ls hs) hs ≡ lt
  unfolding place
  place_below ls [] h r = absurd r
  place_below [] (x ∷ hs) h r = finish_below (x ∷ hs) r
  place_below (l ∷ ls) (x ∷ hs) h r = ground (arith, place_below ls hs h.1)

  -- Where the upper neighbour goes on behind the lower one with a segment below `(pid, 1)`, what is
  -- placed lies above it.
  finish_overshoots :
      (x : Segment) (hs : List Segment)
      → cmp_segment x (min_segment pid) ≡ lt
      → cmp_segments (finish pid [] (x ∷ hs)) (x ∷ hs) ≡ gt
  unfolding finish
  finish_overshoots x hs h = ground arith

  place_overshoots :
      (ls : List Segment) (x : Segment) (hs : List Segment)
      → All HasNext ls
      → cmp_segment x (min_segment pid) ≡ lt
      → cmp_segments (place pid ls (ls ++ x ∷ hs)) (ls ++ x ∷ hs) ≡ gt
  unfolding place
  place_overshoots [] x hs n h = finish_overshoots x hs h
  place_overshoots (l ∷ ls) x hs n h = ground (arith, place_overshoots ls x hs n.1 h)

cmp_segments_prefix :
    (ls : List Segment) (x : Segment) (hs : List Segment) → cmp_segments ls (ls ++ x ∷ hs) ≡ lt
cmp_segments_prefix [] x hs = refl
cmp_segments_prefix (l ∷ ls) x hs = ground (arith, cmp_segments_prefix ls x hs)

successor-IsSegment : (s : Segment) → IsSegment s → IsSegment (successor s)
successor-IsSegment s h = omega arith

finish-AreSegments :
    (pid : Pid) (ls hs : List Segment) → IsPid pid → AreSegments ls → AreSegments (finish pid ls hs)
unfolding finish
finish-AreSegments pid [] [] hp hl = ground arith
finish-AreSegments pid [] (x ∷ hs) hp hl = ground (arith, finish-AreSegments pid [] hs hp tt)
finish-AreSegments pid (l ∷ ls) [] hp hl =
    ground (arith, finish-AreSegments pid ls [] hp hl.1, successor-IsSegment l hl.0)
finish-AreSegments pid (l ∷ ls) (x ∷ hs) hp hl =
    ground (arith, finish-AreSegments pid ls hs hp hl.1, successor-IsSegment l hl.0)

place-AreSegments :
    (pid : Pid) (ls hs : List Segment) → IsPid pid → AreSegments ls → AreSegments (place pid ls hs)
unfolding place
place-AreSegments pid [] hs hp hl = finish-AreSegments pid [] hs hp hl
place-AreSegments pid (l ∷ ls) [] hp hl = finish-AreSegments pid (l ∷ ls) [] hp hl
place-AreSegments pid (l ∷ ls) (x ∷ hs) hp hl =
    ground (arith, place-AreSegments pid ls hs hp hl.1, successor-IsSegment l hl.0)

module _ (pid : Pid) (hp : IsPid pid) where
  -- For any two indices, given by their segments, `between` ends, and its result is a valid index
  -- and a byte string above `prev`, where `pid` is an identifier and no sequence number of `prev`
  -- is the largest `u32`.
  pub between_lem :
      (ls hs : List Segment)
      → AreSegments ls
      → AreSegments hs
      → All HasNext ls
      → (r : Bytes) × (between (some (encode ls)) (some (encode hs)) pid ≡ found r)
        × (new r ≡ found r)
        × (encode ls ≺ r)
  unfolding between
  between_lem ls hs hl hh n =
      let valid = place-AreSegments pid ls hs hp hl in
      (
        encode (place pid ls hs),
        write_fractional_index-encode pid ls hs hp hl hh,
        new-encode (place pid ls hs) valid,
        cmp-encode ls (place pid ls hs) hl valid ∙ place_above pid ls hs n,
      )

  -- Between two indices, given by their segments, `between` ends with a byte string above `prev`
  -- and below `next`, where `pid` is an identifier, no sequence number of `prev` is the largest
  -- `u32`, and `next` leaves room: it is larger at the first segment where the two differ, or it
  -- goes on behind `prev` and is larger there than the segments `(pid, 1)`.
  pub between_below :
      (ls hs : List Segment)
      → AreSegments ls
      → AreSegments hs
      → All HasNext ls
      → HasRoom pid ls hs
      → (r : Bytes) × (between (some (encode ls)) (some (encode hs)) pid ≡ found r)
        × (encode ls ≺ r)
        × (r ≺ encode hs)
  unfolding between
  between_below ls hs hl hh n room =
      let valid = place-AreSegments pid ls hs hp hl in
      (
        encode (place pid ls hs),
        write_fractional_index-encode pid ls hs hp hl hh,
        cmp-encode ls (place pid ls hs) hl valid ∙ place_above pid ls hs n,
        cmp-encode (place pid ls hs) hs valid hh ∙ place_below pid ls hs n room,
      )

  -- With no upper neighbour `between` ends with a valid index that is a byte string above `prev`,
  -- where `pid` is an identifier and no sequence number of `prev` is the largest `u32`.
  pub between_last :
      (ls : List Segment)
      → AreSegments ls
      → All HasNext ls
      → (r : Bytes) × (between (some (encode ls)) none pid ≡ found r)
        × (new r ≡ found r)
        × (encode ls ≺ r)
  unfolding between
  between_last ls hl n =
      let valid = place-AreSegments pid ls [] hp hl in
      (
        encode (place pid ls []),
        unfold encode in write_fractional_index-encode pid ls [] hp hl tt,
        new-encode (place pid ls []) valid,
        cmp-encode ls (place pid ls []) hl valid ∙ place_above pid ls [] n,
      )

  -- Where `next` goes on behind `prev` with a segment of an identifier below `pid`, `between`
  -- returns a byte string above `next`, though `prev` is below `next`; `pid` is an identifier and
  -- no sequence number of `prev` is the largest `u32`.
  pub between_overshoots :
      (ls : List Segment) (x : Segment) (hs : List Segment)
      → AreSegments ls
      → AreSegments (ls ++ x ∷ hs)
      → All HasNext ls
      → x.pid < pid
      → (r : Bytes) × (between (some (encode ls)) (some (encode (ls ++ x ∷ hs))) pid ≡ found r)
        × (encode ls ≺ encode (ls ++ x ∷ hs))
        × (encode (ls ++ x ∷ hs) ≺ r)
  unfolding between
  between_overshoots ls x hs hl hh n less =
      let valid = place-AreSegments pid ls (ls ++ x ∷ hs) hp hl in
      let above = place_overshoots pid ls x hs n (ground arith) in
      (
        encode (place pid ls (ls ++ x ∷ hs)),
        write_fractional_index-encode pid ls (ls ++ x ∷ hs) hp hl hh,
        cmp-encode ls (ls ++ x ∷ hs) hl hh ∙ cmp_segments_prefix ls x hs,
        lt_of_gt (encode (place pid ls (ls ++ x ∷ hs))) (encode (ls ++ x ∷ hs))
            (cmp-encode (place pid ls (ls ++ x ∷ hs)) (ls ++ x ∷ hs) valid hh ∙ above),
      )
