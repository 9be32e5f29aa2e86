-- ===== src/Path/Lseq/FromBytes.antt =====
-- `from_bytes`: it ends on every input, and takes an index up to the delimiter behind it.
use cdoc.Prelude.{
  ℕ, zero, suc, ◌+◌, ◌≤◌, ◌<◌, ◌≡◌, refl, ap, ◌∙◌, arith, List, [], ◌∷◌, ◌++◌, Option, none, some,
  Bytes, length, take, drop, append_assoc, length-append, length-drop, drop-append, take-append,
  if◌then◌else◌, ◌==◌, le→not-ltb,
}
use native.Mathlib.Nat.{zero-add}
use cdoc.Varint.{
  Parsed, found, absent, panic, stuck, Returns, Returns-bind, Returns-imp, read_from, write,
}
use cdoc.Varint.RoundTrip.{read_from-write_self, read_from_takes}
use cdoc.Varint.BigEndian.{of_be}
use cdoc.Pid
use cdoc.Pid.{IsPid}
use cdoc.Path.Lseq.{
  Segment, IsSegment, write_segment, from_bytes_seq, from_bytes_pid, from_bytes_loop, from_bytes,
}
use cdoc.Path.Lseq.Codec.{encode, AreSegments, TakesNumber, length-encode, new_pid}

-- What is counted from `i` on is there.
abbrev Counts : ℕ → Bytes → ℕ → Type 0
Counts i b n = (i ≤ n) × (n ≤ i + length b)

from_bytes_seq_takes :
    (k : ℕ → Bytes → Parsed ℕ) (i : ℕ) (b : Bytes) (n : ℕ) (o : Option ℕ)
    → 1 ≤ n
    → n ≤ length b
    → ((j : ℕ) (c : Bytes) → length c < length b → Returns (Counts j c) (k j c))
    → Returns (Counts i b) (from_bytes_seq k i b n o)
from_bytes_seq_takes k i b n none hn hb ih = omega arith
from_bytes_seq_takes k i b n (some p) hn hb ih =
    Returns-bind (TakesNumber (drop n b)) (Counts i b) (read_from 4 (drop n b)) _
      (read_from_takes 4 (drop n b))
      λ (q, m) back.
        let len = length-drop n b in
        let len' = length-drop m (drop n b) in
        Returns-imp (Counts (i + n + m) (drop m (drop n b))) (Counts i b)
          (k (i + n + m) (drop m (drop n b))) (λ x h. omega arith)
          (ih (i + n + m) (drop m (drop n b)) (omega arith))

from_bytes_pid_takes :
    (k : ℕ → Bytes → Parsed ℕ) (i : ℕ) (b : Bytes) (r : Parsed (ℕ × ℕ))
    → Returns (TakesNumber b) r
    → ((j : ℕ) (c : Bytes) → length c < length b → Returns (Counts j c) (k j c))
    → Returns (Counts i b) (from_bytes_pid k i b r)
from_bytes_pid_takes k i b absent h ih = omega arith
from_bytes_pid_takes k i b panic h ih = tt
from_bytes_pid_takes k i b stuck h ih = h
from_bytes_pid_takes k i b (found (pid, n)) h ih =
    from_bytes_seq_takes k i b n (Pid.new pid) h.0 h.1 ih

from_bytes_loop_takes :
    (fuel i : ℕ) (b : Bytes) → length b < fuel → Returns (Counts i b) (from_bytes_loop fuel i b)
unfolding from_bytes_loop
from_bytes_loop_takes zero i b h = absurd (omega arith)
from_bytes_loop_takes (suc fuel) i [] h = omega arith
from_bytes_loop_takes (suc fuel) i (x ∷ xs) h =
    from_bytes_pid_takes (from_bytes_loop fuel) i (x ∷ xs) (read_from 4 (x ∷ xs))
      (read_from_takes 4 (x ∷ xs)) (λ j c lt. from_bytes_loop_takes fuel j c (omega arith))

from_bytes_result :
    (bytes : Bytes) (i : ℕ)
    → Counts 0 bytes i
    → Returns
        (λ (r : Bytes × ℕ). (r.0 ≡ take r.1 bytes) × (1 ≤ r.1) × (r.1 ≤ length bytes))
        (if i == 0 then absent else found (take i bytes, i))
from_bytes_result bytes zero h = tt
from_bytes_result bytes (suc i) h = ground arith

-- The loop of `from_bytes` ends on every input, if not with a panic or `None`, then with an index
-- that is the first bytes of the input, as many as it reports, and one at least.
pub from_bytes_takes :
    (bytes : Bytes)
    → Returns
        (λ (r : Bytes × ℕ). (r.0 ≡ take r.1 bytes) × (1 ≤ r.1) × (r.1 ≤ length bytes))
        (from_bytes bytes)
unfolding from_bytes
from_bytes_takes bytes =
    Returns-bind (Counts 0 bytes) _ (from_bytes_loop (length bytes + 1) 0 bytes) _
      (from_bytes_loop_takes (length bytes + 1) 0 bytes (omega arith)) (from_bytes_result bytes)

-- At the end of a path, or at a delimiter.
abbrev pub AtDelimiter : Bytes → Type 0
AtDelimiter [] = Unit
AtDelimiter (b ∷ bs) = b ≡ 0

zero_pid : (bs : Bytes) → read_from 4 (0 ∷ bs) ≡ found (0, 1)
unfolding read_from of_be
zero_pid bs = rw (le→not-ltb (length bs) 0 (omega arith))

from_bytes_loop_stop :
    (fuel i : ℕ) (rest : Bytes) → AtDelimiter rest → from_bytes_loop (suc fuel) i rest ≡ found i
unfolding from_bytes_loop Pid.new
from_bytes_loop_stop fuel i [] h = refl
from_bytes_loop_stop fuel i (b ∷ bs) h = rw (h, zero_pid bs) refl

from_bytes_loop_step :
    (fuel i : ℕ) (b : Bytes) {pid n q m : ℕ}
    → IsPid pid
    → read_from 4 b ≡ found (pid, n)
    → read_from 4 (drop n b) ≡ found (q, m)
    → from_bytes_loop (suc fuel) i b ≡ from_bytes_loop fuel (i + n + m) (drop m (drop n b))
unfolding from_bytes_loop read_from
from_bytes_loop_step fuel i [] hp e e' = cc
from_bytes_loop_step fuel i (x ∷ xs) hp e e' = rw (e, new_pid _ hp, e')

-- One round on a segment and what follows it.
encode_step :
    (fuel i : ℕ) (s : Segment) (ss : List Segment) (rest : Bytes)
    → IsSegment s
    → from_bytes_loop (suc fuel) i (encode (s ∷ ss) ++ rest)
      ≡ from_bytes_loop fuel
          (i + length (write 4 s.pid) + length (write 4 s.seq))
          (encode ss ++ rest)
unfolding encode write_segment
encode_step fuel i s ss rest h =
    let a = write 4 s.pid in
    let b = write 4 s.seq in
    let tail = encode ss ++ rest in
    let regroup : ((a ++ b) ++ encode ss) ++ rest ≡ a ++ (b ++ tail) = simp append_assoc in
    let at_pid = drop-append a (b ++ tail) in
    rw regroup (
      from_bytes_loop_step fuel i (a ++ (b ++ tail)) {q = s.seq} {m = length b} h.0
        (read_from-write_self 4 s.pid (b ++ tail) (omega arith))
        (rw at_pid (read_from-write_self 4 s.seq tail (omega arith)))
      ∙ rw (at_pid, drop-append b tail))

length-encode_cons :
    (s : Segment) (ss : List Segment)
    → length (encode (s ∷ ss))
      ≡ length (write 4 s.pid) + length (write 4 s.seq) + length (encode ss)
unfolding encode write_segment
length-encode_cons s ss = simp length-append

from_bytes_loop-encode :
    (fuel i : ℕ) (ss : List Segment) (rest : Bytes)
    → AreSegments ss
    → AtDelimiter rest
    → length ss < fuel
    → from_bytes_loop fuel i (encode ss ++ rest) ≡ found (i + length (encode ss))
from_bytes_loop-encode zero i ss rest h d lt = absurd (omega arith)
from_bytes_loop-encode (suc fuel) i [] rest h d lt =
    unfold encode in (from_bytes_loop_stop fuel i rest d ∙ ap found (omega arith))
from_bytes_loop-encode (suc fuel) i (s ∷ ss) rest h d lt =
    encode_step fuel i s ss rest h.0
    ∙ from_bytes_loop-encode fuel _ ss rest h.1 d (omega arith)
    ∙ ap found (omega (arith, length-encode_cons s ss))

found_of_pos : {A : Type 0} (n : ℕ) (r : Parsed A) → 0 < n → (if n == 0 then absent else r) ≡ r
found_of_pos n r h = ground arith

-- On the encoding of at least one segment, with nothing behind it or bytes that begin with the
-- delimiter, `from_bytes` finds all of that encoding and its length.
pub from_bytes-encode :
    (s : Segment) (ss : List Segment) (rest : Bytes)
    → AreSegments (s ∷ ss)
    → AtDelimiter rest
    → from_bytes (encode (s ∷ ss) ++ rest) ≡ found (encode (s ∷ ss), length (encode (s ∷ ss)))
unfolding from_bytes
from_bytes-encode s ss rest h d =
    let bytes = encode (s ∷ ss) in
    let total = length-append bytes rest in
    let enough = length-encode (s ∷ ss) h in
    let loop =
      from_bytes_loop-encode (length (bytes ++ rest) + 1) 0 (s ∷ ss) rest h d (omega arith) in
    rw loop (
      rw (zero-add (length bytes), take-append bytes rest)
        (found_of_pos (length bytes) _ (omega arith)))
