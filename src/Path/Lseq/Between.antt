-- ===== src/Path/Lseq/Between.antt =====
-- `write_fractional_index` on encoded neighbours, as a function on lists of segments.
use cdoc.Prelude.{
  ℕ, zero, suc, ◌+◌, ◌<◌, ◌≡◌, refl, ◌∙◌, arith, List, [], ◌∷◌, ◌++◌, Option, none, some, Bool,
  true, false, Bytes, length, append_assoc, append-nil, is_lt, ◌==◌, if◌then◌else◌, Bool-cases, inl,
  inr,
}
use cdoc.Varint.{found, ◌>>=◌}
use cdoc.Pid.{Pid, IsPid}
use cdoc.Path.Lseq.{
  Segment, max_segment, min_segment, cmp_segment, successor, write_segment, next, Cursor, advance,
  emit, first_loop, unwrap_or, second_round, second_loop, write_fractional_index,
}
use cdoc.Path.Lseq.Codec.{encode, AreSegments, next-encode, next-nil, length-encode}

abbrev pub head? : List Segment → Option Segment
head? [] = none
head? (s ∷ ss) = some s

abbrev pub tail : List Segment → List Segment
tail [] = []
tail (s ∷ ss) = ss

-- The second loop, on the segments that are left. At most one list has any.
unfoldable pub finish : Pid → List Segment → List Segment → List Segment
finish pid [] [] = successor (min_segment pid) ∷ []
finish pid (l ∷ ls) hs =
    if is_lt (cmp_segment (successor l) (unwrap_or (head? hs) max_segment))
    then successor l ∷ []
    else l ∷ finish pid ls (tail hs)
finish pid [] (h ∷ hs) =
    if is_lt (cmp_segment (successor (min_segment pid)) h)
    then successor (min_segment pid) ∷ []
    else min_segment pid ∷ finish pid [] hs

-- The first loop, and then the second.
unfoldable pub place : Pid → List Segment → List Segment → List Segment
unfolding finish
place pid [] hs = finish pid [] hs
place pid (l ∷ ls) [] = finish pid (l ∷ ls) []
place pid (l ∷ ls) (h ∷ hs) =
    if is_lt (cmp_segment (successor l) h)
    then (if l.pid == pid then successor l ∷ [] else l ∷ place pid ls hs)
    else l ∷ place pid ls hs

-- One round of the second loop, whichever list has segments left.
finish_lem :
    (pid : Pid) (ls hs : List Segment)
    → IsPid pid
    → let l = unwrap_or (head? ls) (min_segment pid) in
      let h = unwrap_or (head? hs) max_segment in
      finish pid ls hs ≡ (
        if is_lt (cmp_segment (successor l) h)
        then successor l ∷ []
        else l ∷ finish pid (tail ls) (tail hs))
unfolding finish
finish_lem pid [] [] h = ground arith
finish_lem pid (l ∷ ls) hs h = refl
finish_lem pid [] (x ∷ hs) h = refl

-- Both iterators read, with these segments ahead.
abbrev cursor : List Segment → List Segment → Bool → Bytes → Cursor
cursor ls hs diffed written = record {
  lower = head? ls;
  lo = encode (tail ls);
  higher = head? hs;
  hi = encode (tail hs);
  diffed = diffed;
  written = written;
}

next-segments :
    (ss : List Segment) → AreSegments ss → next (encode ss) ≡ found (head? ss, encode (tail ss))
next-segments [] h = unfold encode in next-nil
next-segments (s ∷ ss) h = next-encode s ss h.0

advance-cursor :
    (ls hs : List Segment) (c : Cursor)
    → AreSegments ls
    → AreSegments hs
    → c.lo ≡ encode ls
    → c.hi ≡ encode hs
    → advance c ≡ found (cursor ls hs c.diffed c.written)
unfolding advance
advance-cursor ls hs c hl hh el eh = rw (el, eh, next-segments ls hl, next-segments hs hh)

tail-AreSegments : (ss : List Segment) → AreSegments ss → AreSegments (tail ss)
tail-AreSegments [] h = tt
tail-AreSegments (s ∷ ss) h = h.1

-- A round in which the test fails takes a segment.
rounds_fall :
    (pid : Pid) (ls hs : List Segment)
    → IsPid pid
    → is_lt (
        cmp_segment
          (successor (unwrap_or (head? ls) (min_segment pid)))
          (unwrap_or (head? hs) max_segment))
      ≡ false
    → length (tail ls) + length (tail hs) < length ls + length hs
rounds_fall pid [] [] h e = ground arith
rounds_fall pid (l ∷ ls) [] h e = omega arith
rounds_fall pid [] (x ∷ hs) h e = omega arith
rounds_fall pid (l ∷ ls) (x ∷ hs) h e = omega arith

abbrev lower_test : Pid → List Segment → List Segment → Bool
lower_test pid ls hs = is_lt (
    cmp_segment (successor (unwrap_or (head? ls) (min_segment pid)))
      (unwrap_or (head? hs) max_segment))

second_loop_done :
    (fuel : ℕ) (pid : Pid) (ls hs : List Segment) (written : Bytes)
    → 0 < fuel
    → second_loop fuel pid (cursor ls hs true written) ≡ found written
unfolding second_loop
second_loop_done zero pid ls hs written h = absurd (omega arith)
second_loop_done (suc fuel) pid ls hs written h = refl

module _ (fuel : ℕ) (pid : Pid) (ls hs : List Segment) (written : Bytes) (hl : AreSegments ls)
    (hh : AreSegments hs) where
  round_stop :
      lower_test pid ls hs ≡ true
      → second_round pid (cursor ls hs false written)
        ≡ cursor ls hs true
            (written ++ write_segment (successor (unwrap_or (head? ls) (min_segment pid))))
  unfolding second_round emit
  round_stop e = rw e

  round_go :
      lower_test pid ls hs ≡ false
      → second_round pid (cursor ls hs false written)
        ≡ cursor ls hs false (written ++ write_segment (unwrap_or (head? ls) (min_segment pid)))
  unfolding second_round emit
  round_go e = rw e

  advance-tails :
      (diffed : Bool) (out : Bytes)
      → advance (cursor ls hs diffed out) ≡ found (cursor (tail ls) (tail hs) diffed out)
  advance-tails diffed out =
      advance-cursor (tail ls) (tail hs) (cursor ls hs diffed out) (tail-AreSegments ls hl)
        (tail-AreSegments hs hh) refl refl

  second_loop_stop :
      lower_test pid ls hs ≡ true
      → 0 < fuel
      → second_loop (suc fuel) pid (cursor ls hs false written)
        ≡ found (written ++ write_segment (successor (unwrap_or (head? ls) (min_segment pid))))
  unfolding second_loop
  second_loop_stop e h =
      rw (round_stop e)
        (rw (advance-tails true _) (second_loop_done fuel pid (tail ls) (tail hs) _ h))

  second_loop_go :
      lower_test pid ls hs ≡ false
      → second_loop (suc fuel) pid (cursor ls hs false written)
        ≡ second_loop fuel pid (
            cursor
              (tail ls)
              (tail hs)
              false
              (written ++ write_segment (unwrap_or (head? ls) (min_segment pid))))
  unfolding second_loop
  second_loop_go e = rw (round_go e) (rw (advance-tails false _))

second_loop-finish :
    (fuel : ℕ) (pid : Pid) (ls hs : List Segment) (written : Bytes)
    → IsPid pid
    → AreSegments ls
    → AreSegments hs
    → length ls + length hs + 1 < fuel
    → second_loop fuel pid (cursor ls hs false written)
      ≡ found (written ++ encode (finish pid ls hs))
second_loop-finish zero pid ls hs written hp hl hh lt = absurd (omega arith)
second_loop-finish (suc fuel) pid ls hs written hp hl hh lt =
    elim (Bool-cases (lower_test pid ls hs)) [
      | inl stops ↦
          second_loop_stop fuel pid ls hs written hl hh stops (omega arith)
          ∙ rw (finish_lem pid ls hs hp, stops) (unfold encode in rw append-nil)
      | inr goes ↦
          let l = unwrap_or (head? ls) (min_segment pid) in
          second_loop_go fuel pid ls hs written hl hh goes
          ∙ second_loop-finish fuel pid (tail ls) (tail hs) (written ++ write_segment l) hp
              (tail-AreSegments ls hl) (tail-AreSegments hs hh)
              (omega (arith, rounds_fall pid ls hs hp goes))
          ∙ rw (finish_lem pid ls hs hp, goes)
              (unfold encode in rw (append_assoc written (write_segment l) _))
    ]

advance-emit :
    (pid : Pid) (l h : Segment) (ls hs : List Segment) (written : Bytes)
    → AreSegments ls
    → AreSegments hs
    → advance (emit l (cursor (l ∷ ls) (h ∷ hs) false written))
      ≡ found (cursor ls hs false (written ++ write_segment l))
unfolding emit
advance-emit pid l h ls hs written hl hh =
    advance-cursor ls hs
      (record (cursor (l ∷ ls) (h ∷ hs) false written) { written = written ++ write_segment l }) hl
      hh refl refl

-- One round of the first loop.
first_loop_lem :
    (fuel : ℕ) (pid : Pid) (l h : Segment) (ls hs : List Segment) (written : Bytes)
    → AreSegments ls
    → AreSegments hs
    → first_loop (suc fuel) pid (cursor (l ∷ ls) (h ∷ hs) false written) ≡ (
        if is_lt (cmp_segment (successor l) h)
        then (if l.pid == pid
            then found (cursor (l ∷ ls) (h ∷ hs) true (written ++ write_segment (successor l)))
            else first_loop fuel pid (cursor ls hs false (written ++ write_segment l)))
        else first_loop fuel pid (cursor ls hs false (written ++ write_segment l)))
unfolding first_loop
first_loop_lem fuel pid l h ls hs written hl hh =
    rw (advance-emit pid l h ls hs written hl hh) (unfold emit in refl)

encode_one : (s : Segment) → encode (s ∷ []) ≡ write_segment s
unfolding encode
encode_one s = rw append-nil

encode_cons :
    (written : Bytes) (s : Segment) (ss : List Segment)
    → (written ++ write_segment s) ++ encode ss ≡ written ++ encode (s ∷ ss)
unfolding encode
encode_cons written s ss = append_assoc written (write_segment s) (encode ss)

module _ (pid : Pid) (hp : IsPid pid) (rounds : ℕ) where
  both_loops :
      (fuel : ℕ) (ls hs : List Segment) (written : Bytes)
      → AreSegments ls
      → AreSegments hs
      → length ls < fuel
      → length ls + length hs + 1 < rounds
      → (first_loop fuel pid (cursor ls hs false written) >>= second_loop rounds pid)
        ≡ found (written ++ encode (place pid ls hs))
  unfolding place
  both_loops zero ls hs written hl hh lt more = absurd (omega arith)
  both_loops (suc fuel) [] hs written hl hh lt more =
      unfold first_loop in second_loop-finish rounds pid [] hs written hp hl hh more
  both_loops (suc fuel) (l ∷ ls) [] written hl hh lt more =
      unfold first_loop in second_loop-finish rounds pid (l ∷ ls) [] written hp hl hh more
  both_loops (suc fuel) (l ∷ ls) (h ∷ hs) written hl hh lt more =
      rw (first_loop_lem fuel pid l h ls hs written hl.1 hh.1) (
        ground (
          arith,
          second_loop_done rounds pid (l ∷ ls) (h ∷ hs) (written ++ write_segment (successor l)),
          both_loops fuel ls hs (written ++ write_segment l) hl.1 hh.1,
          encode_one (successor l),
          encode_cons written l (place pid ls hs),
        ))

-- On the encodings of two lists of segments, the loops of `write_fractional_index` end, and write
-- the encoding of what the recursive function `place` gives for the two lists.
pub write_fractional_index-encode :
    (pid : Pid) (ls hs : List Segment)
    → IsPid pid
    → AreSegments ls
    → AreSegments hs
    → write_fractional_index (encode ls) (encode hs) pid ≡ found (encode (place pid ls hs))
unfolding write_fractional_index
write_fractional_index-encode pid ls hs hp hl hh =
    let start =
      advance-cursor ls hs
        (record {
          lower = none;
          lo = encode ls;
          higher = none;
          hi = encode hs;
          diffed = false;
          written = [];
        })
        hl hh refl refl in
    let fuel = length (encode ls) + length (encode hs) + 2 in
    rw start (
      both_loops pid hp fuel fuel ls hs [] hl hh (omega (arith, length-encode ls hl))
        (omega (arith, length-encode ls hl, length-encode hs hh)))
