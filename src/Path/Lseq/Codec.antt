-- ===== src/Path/Lseq/Codec.antt =====
-- Reading segments back: `Segment::parse`, `is_valid` and `from_bytes` on encoded segments and on
-- any input.
use cdoc.Prelude.{
  ℕ, zero, suc, ◌+◌, ◌≤◌, ◌<◌, ◌≡◌, refl, arith, List, [], ◌∷◌, ◌++◌, Bool, true, false, Option,
  none, some, Bytes, length, drop, All, append_assoc, length-append, length-drop, drop-append,
  if◌then◌else◌,
}
use cdoc.Varint.{Parsed, found, absent, panic, stuck, read_from, write, Returns, Returns-bind}
use cdoc.Varint.Shape.{write_shape}
use cdoc.Varint.RoundTrip.{read_from-write_self, read_from_takes}
use cdoc.Pid
use cdoc.Pid.{IsPid, IsU32}
use cdoc.Path.Lseq.{
  Segment, IsSegment, parse, write_segment, next, try_some, step_segments, drain, is_valid, new,
}

-- The index of a list of segments.
unfoldable pub encode : List Segment → Bytes
encode [] = []
encode (s ∷ ss) = write_segment s ++ encode ss

abbrev pub AreSegments : List Segment → Type 0
AreSegments ss = All IsSegment ss

pub new_pid : (p : ℕ) → IsPid p → Pid.new p ≡ some p
new_pid p h = (Pid.new_iff p p).1 (h.0, refl)

-- `parse` reads back the segment, and leaves what stands behind it.
pub parse-write_segment :
    (s : Segment) (rest : Bytes) → IsSegment s → parse (write_segment s ++ rest) ≡ found (s, rest)
unfolding parse write_segment
parse-write_segment s rest h = rw (
  append_assoc (write 4 s.pid) (write 4 s.seq) rest,
  read_from-write_self 4 s.pid (write 4 s.seq ++ rest) (omega arith),
  new_pid s.pid h.0,
  drop-append (write 4 s.pid) (write 4 s.seq ++ rest),
  read_from-write_self 4 s.seq rest (omega arith),
  drop-append (write 4 s.seq) rest,
)

pub next-encode :
    (s : Segment) (ss : List Segment)
    → IsSegment s
    → next (encode (s ∷ ss)) ≡ found (some s, encode ss)
unfolding next encode
next-encode s ss h = rw (next, parse-write_segment s (encode ss) h)

pub next-nil : next [] ≡ found (none, [])
unfolding next parse read_from
next-nil = refl

length-write_segment : (s : Segment) → IsSegment s → 2 ≤ length (write_segment s)
unfolding write_segment
length-write_segment s h = rw length-append (
    omega (
      arith,
      write_shape 4 s.pid (omega arith) (omega arith),
      write_shape 4 s.seq (omega arith) (omega arith),
    ))

pub length-encode :
    (ss : List Segment) → AreSegments ss → length ss + length ss ≤ length (encode ss)
unfolding encode
length-encode [] h = omega arith
length-encode (s ∷ ss) h = omega (
  arith,
  length-append (write_segment s) (encode ss),
  length-write_segment s h.0,
  length-encode ss h.1,
)

drain-encode :
    (fuel : ℕ) (ss : List Segment)
    → AreSegments ss
    → length ss < fuel
    → drain fuel (encode ss) ≡ found []
unfolding drain
drain-encode zero ss h lt = absurd (omega arith)
drain-encode (suc fuel) [] h lt = unfold encode in rw next-nil
drain-encode (suc fuel) (s ∷ ss) h lt =
    rw (next-encode s ss h.0) (drain-encode fuel ss h.1 (omega arith))

-- `new` accepts the encoding of every list of segments, the empty list included.
pub new-encode : (ss : List Segment) → AreSegments ss → new (encode ss) ≡ found (encode ss)
unfolding new
new-encode ss h =
    rw (drain-encode (length (encode ss) + 1) ss h (omega (arith, length-encode ss h)))

-- A segment takes two bytes at least.
abbrev TakesSegment : Bytes → Segment × Bytes → Type 0
TakesSegment bytes r = length r.1 + 2 ≤ length bytes

abbrev pub TakesNumber : Bytes → ℕ × ℕ → Type 0
TakesNumber bytes r = (1 ≤ r.1) × (r.1 ≤ length bytes) × (r.1 ≤ 5)

try_some_ends : (o : Option ℕ) → Returns (λ (p : ℕ). Unit {0}) (try_some o)
try_some_ends none = tt
try_some_ends (some p) = tt

parse_takes : (bytes : Bytes) → Returns (TakesSegment bytes) (parse bytes)
unfolding parse
parse_takes bytes =
    Returns-bind (TakesNumber bytes) (TakesSegment bytes) (read_from 4 bytes) _
      (read_from_takes 4 bytes)
      λ (raw, n) front.
        Returns-bind (λ (p : ℕ). Unit {0}) (TakesSegment bytes) (try_some (Pid.new raw)) _
          (try_some_ends (Pid.new raw))
          λ pid _.
            Returns-bind (TakesNumber (drop n bytes)) (TakesSegment bytes)
              (read_from 4 (drop n bytes)) _ (read_from_takes 4 (drop n bytes))
              λ (seq, m) back. omega (arith, length-drop n bytes, length-drop m (drop n bytes))

-- What `next` leaves is shorter by a segment, if there was one.
abbrev TakesNext : Bytes → Option Segment × Bytes → Type 0
TakesNext bytes (none, rest) = rest ≡ bytes
TakesNext bytes (some s, rest) = length rest + 2 ≤ length bytes

step_segments_takes :
    (bytes : Bytes) (r : Parsed (Segment × Bytes))
    → Returns (TakesSegment bytes) r
    → Returns (TakesNext bytes) (step_segments bytes r)
step_segments_takes bytes (found (s, rest)) h = h
step_segments_takes bytes absent h = refl
step_segments_takes bytes panic h = tt
step_segments_takes bytes stuck h = h

next_takes : (bytes : Bytes) → Returns (TakesNext bytes) (next bytes)
unfolding next
next_takes bytes = step_segments_takes bytes (parse bytes) (parse_takes bytes)

abbrev pub Ends {ℓ} : {A : Type ℓ} → Parsed A → Type 0
Ends = Returns (λ _. Unit {0})

drain-Ends : (fuel : ℕ) (bytes : Bytes) → length bytes < fuel → Ends (drain fuel bytes)
unfolding drain
drain-Ends zero bytes h = absurd (omega arith)
drain-Ends (suc fuel) bytes h =
    Returns-bind (TakesNext bytes) (λ _. Unit {0}) (next bytes) _ (next_takes bytes)
      (λ (s, rest) t. drain_rest fuel bytes s rest h t (drain-Ends fuel rest))
  where
    drain_rest :
        (fuel : ℕ) (bytes : Bytes) (s : Option Segment) (rest : Bytes)
        → length bytes < suc fuel
        → TakesNext bytes (s, rest)
        → (length rest < fuel → Ends (drain fuel rest))
        → Ends (elim s [ none ↦ found rest | some _ ↦ drain fuel rest ])
    drain_rest fuel bytes none rest h t ih = tt
    drain_rest fuel bytes (some s) rest h t ih = ih (omega arith)

is_valid-Ends : (buf : Bytes) → Ends (is_valid buf)
unfolding is_valid
is_valid-Ends buf =
    Returns-bind (λ (b : Bytes). Unit {0}) (λ (b : Bool). Unit {0}) (drain (length buf + 1) buf) _
      (drain-Ends (length buf + 1) buf (omega arith)) (λ rest _. tt)

-- `is_valid` and `FractionalIndex::new` end on every input.
pub new-Ends : (buf : Bytes) → Ends (new buf)
unfolding new
new-Ends buf =
    Returns-bind (λ (b : Bool). Unit {0}) (λ (b : Bytes). Unit {0}) (is_valid buf) _
      (is_valid-Ends buf) (λ valid _. if_ends valid buf)
  where
    if_ends : (valid : Bool) (buf : Bytes) → Ends (if valid then found buf else absent)
    if_ends true buf = tt
    if_ends false buf = tt
