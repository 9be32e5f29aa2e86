-- ===== src/Path/RoundTrip.antt =====
-- Reading a path that was written: every field and index comes back, and then the terminator.
use cdoc.Prelude.{
  ℕ, zero, suc, ◌+◌, ◌^◌, ◌≤◌, ◌<◌, ◌≡◌, refl, sym, ap, ◌∙◌, arith, List, [], ◌∷◌, ◌++◌, true,
  Bytes, length, All, append_assoc, append-nil, take-append, drop-append, length-append, Result, ok,
  err, ◌>>=◌, ◌⊎◌, inl, inr,
}
use cdoc.Varint
use cdoc.Varint.{Parsed, found, absent, panic, stuck}
use cdoc.Varint.BigEndian.{be_bytes, of_be-be_bytes, length-be_bytes}
use cdoc.Varint.RoundTrip.{read_from-write_self}
use cdoc.Varint.Shape.{size-le_iff, size_of_bounds}
use cdoc.Zerocopy.{Zerocopy}
use cdoc.Pid.{Pid, IsU32}
use cdoc.Path.{
  PathError, PathSegment, tail, Terminator, chunked, delimiter, terminator_lww, terminator_counter,
  terminator_chunked, is_valid,
}
use cdoc.Path.Lseq.{Segment, write_segment}
use cdoc.Path.Lseq.Codec.{encode, AreSegments}
use cdoc.Path.Lseq.FromBytes.{from_bytes-encode}
use cdoc.Path.Write
use cdoc.Path.Write.{PathWriter, push_field, push_index}
use cdoc.Path.Read.{
  next, collect, read_all, prepend, field_length, read_field, read_fractional_index,
}

-- What a client pushes: a field, or a fractional index with a segment at least.
pub data Piece : Type 0 where
  field : Bytes → Piece
  index : Segment → List Segment → Piece

abbrev pub IsPiece : Piece → Type 0
IsPiece (field f) = is_valid f ≡ true
IsPiece (index s ss) = AreSegments (s ∷ ss)

abbrev pub body : Piece → Bytes
body (field f) = f
body (index s ss) = encode (s ∷ ss)

abbrev pub to_segment : Piece → PathSegment
to_segment (field f) = PathSegment.field f
to_segment (index s ss) = PathSegment.index (encode (s ∷ ss))

abbrev pub to_segments : List Piece → List PathSegment
to_segments [] = []
to_segments (p ∷ ps) = to_segment p ∷ to_segments ps

abbrev pub push : PathWriter → Piece → Result PathError PathWriter
push w (field f) = push_field w f
push w (index s ss) = push_index w (encode (s ∷ ss))

abbrev pub push_all : PathWriter → List Piece → Result PathError PathWriter
push_all w [] = ok w
push_all w (p ∷ ps) = push w p >>= λ w'. push_all w' ps

abbrev path : List Piece → Bytes
path [] = []
path (p ∷ ps) = delimiter ∷ body p ++ path ps

push-eq :
    (w w' : PathWriter) (p : Piece)
    → push w p ≡ ok w'
    → (w'.writer ≡ w.writer ++ delimiter ∷ body p)
push-eq w w' (field f) h = unfold push_field in ground arith
push-eq w w' (index s ss) h = unfold push_index in ground arith

push_all_step :
    (w w' : PathWriter) (p : Piece) (ps : List Piece) (r : Result PathError PathWriter)
    → push w p ≡ r
    → (r >>= λ w''. push_all w'' ps) ≡ ok w'
    → ((w'' : PathWriter) → push_all w'' ps ≡ ok w' → w'.writer ≡ w''.writer ++ path ps)
    → w'.writer ≡ w.writer ++ path (p ∷ ps)
push_all_step w w' p ps (err e) q h k = cc
push_all_step w w' p ps (ok w'') q h k =
    k w'' h
    ∙ ap (λ (l : Bytes). l ++ path ps) (push-eq w w'' p q)
    ∙ append_assoc w.writer (delimiter ∷ body p) (path ps)

push_all-eq :
    (w w' : PathWriter) (ps : List Piece) → push_all w ps ≡ ok w' → w'.writer ≡ w.writer ++ path ps
push_all-eq w w' [] h = rw append-nil (ground arith)
push_all-eq w w' (p ∷ ps) h =
    push_all_step w w' p ps (push w p) refl h (λ w'' rest. push_all-eq w'' w' ps rest)

field_length-valid :
    (f rest : Bytes) → is_valid f ≡ true → field_length (f ++ delimiter ∷ rest) ≡ length f
unfolding field_length is_valid
field_length-valid [] rest h = refl
field_length-valid (b ∷ f) rest h = ground (arith, field_length-valid f rest)

read_field-valid :
    (f rest : Bytes)
    → is_valid f ≡ true
    → read_field (f ++ delimiter ∷ rest) ≡ (ok (PathSegment.field f), delimiter ∷ rest)
unfolding read_field
read_field-valid f rest h = rw (
  field_length-valid f rest h,
  take-append f (delimiter ∷ rest),
  drop-append f (delimiter ∷ rest),
)

valid_head : (b : ℕ) (f : Bytes) → is_valid (b ∷ f) ≡ true → 32 ≤ b
unfolding is_valid
valid_head b f h = ground arith

-- The first byte of an index is the size of a PID.
encode_head :
    (s : Segment) (ss : List Segment)
    → AreSegments (s ∷ ss)
    → (d : ℕ) × (t : Bytes) × (encode (s ∷ ss) ≡ d ∷ t) × (1 ≤ d) × (d < 17)
unfolding encode write_segment Varint.write
encode_head s ss h =
    let (le, has) = size_of_bounds 4 s.pid (omega arith) in
    (
      Varint.size_of 4 s.pid,
      _,
      refl,
      ground (arith, (size-le_iff s.pid (Varint.size_of 4 s.pid) 0 has).0),
      omega arith,
    )

read_index :
    (s : Segment) (ss : List Segment) (rest : Bytes)
    → AreSegments (s ∷ ss)
    → read_fractional_index (encode (s ∷ ss) ++ delimiter ∷ rest)
      ≡ found (ok (PathSegment.index (encode (s ∷ ss))), delimiter ∷ rest)
unfolding read_fractional_index
read_index s ss rest h =
    rw (from_bytes-encode s ss (delimiter ∷ rest) h refl)
      (rw (drop-append (encode (s ∷ ss)) (delimiter ∷ rest)))

path_delimited :
    (ps : List Piece) (end : Bytes)
    → (rest : Bytes) × (path ps ++ delimiter ∷ end ≡ delimiter ∷ rest)
path_delimited [] end = (end, refl)
path_delimited (p ∷ ps) end = ((body p ++ path ps) ++ delimiter ∷ end, refl)

length-path : (ps : List Piece) → length ps ≤ length (path ps)
length-path [] = omega arith
length-path (p ∷ ps) = omega (arith, length-append (body p) (path ps), length-path ps)

module _ (z : Zerocopy) where
  next_by_field :
      (d : ℕ) (rest : Bytes)
      → (32 ≤ d) ⊎ (d ≡ 0)
      → next z (delimiter ∷ d ∷ rest) ≡ found (read_field (d ∷ rest))
  unfolding next
  next_by_field d rest h = ground arith

  next_by_index :
      (d : ℕ) (rest : Bytes)
      → 1 ≤ d
      → d < 17
      → next z (delimiter ∷ d ∷ rest) ≡ read_fractional_index (d ∷ rest)
  unfolding next
  next_by_index d rest lo hi = ground arith

  next-field :
      (f rest : Bytes)
      → is_valid f ≡ true
      → next z (delimiter ∷ f ++ delimiter ∷ rest)
        ≡ found (ok (PathSegment.field f), delimiter ∷ rest)
  next-field [] rest h = next_by_field 0 rest (inr refl) ∙ ap found (read_field-valid [] rest h)
  next-field (b ∷ f) rest h =
      next_by_field b (f ++ delimiter ∷ rest) (inl (valid_head b f h))
      ∙ ap found (read_field-valid (b ∷ f) rest h)

  next-index :
      (s : Segment) (ss : List Segment) (rest : Bytes)
      → AreSegments (s ∷ ss)
      → next z (delimiter ∷ encode (s ∷ ss) ++ delimiter ∷ rest)
        ≡ found (ok (PathSegment.index (encode (s ∷ ss))), delimiter ∷ rest)
  next-index s ss rest h =
      let (d, t, e, lo, hi) = encode_head s ss h in
      ap (λ (l : Bytes). next z (delimiter ∷ l ++ delimiter ∷ rest)) e
      ∙ next_by_index d (t ++ delimiter ∷ rest) lo hi
      ∙ ap (λ (l : Bytes). read_fractional_index (l ++ delimiter ∷ rest)) (sym e)
      ∙ read_index s ss rest h

  next-piece :
      (p : Piece) (rest : Bytes)
      → IsPiece p
      → next z (delimiter ∷ body p ++ delimiter ∷ rest)
        ≡ found (ok (to_segment p), delimiter ∷ rest)
  next-piece (field f) rest h = next-field f rest h
  next-piece (index s ss) rest h = next-index s ss rest h

  next-lww : next z (delimiter ∷ terminator_lww ∷ []) ≡ found (ok (tail Terminator.lww), [])
  unfolding next
  next-lww = refl

  next-chunked :
      (n : ℕ)
      → n < 2 ^ 64
      → next z (delimiter ∷ terminator_chunked ∷ Varint.write 8 n)
        ≡ found (ok (tail (chunked n)), [])
  unfolding next
  next-chunked n h =
      let whole = append-nil (Varint.write 8 n) in
      let read = read_from-write_self 8 n [] h in
      rw (← whole, read) (rw (drop-append (Varint.write 8 n) []))

  next-counter :
      (p : Pid)
      → IsU32 p
      → next z (delimiter ∷ terminator_counter ∷ z.as_bytes 4 p)
        ≡ found (ok (tail (Terminator.counter p)), [])
  unfolding next
  next-counter p h = rw (z.as_bytes_lem 4 p) (
      ground
        (arith, z.ref_from_bytes_lem 4 (be_bytes 4 p), length-be_bytes 4 p, of_be-be_bytes 4 p h))

  collect_step :
      (fuel : ℕ) (p : Piece) (buf rest : Bytes)
      → IsPiece p
      → buf ≡ delimiter ∷ rest
      → collect z (suc fuel) (delimiter ∷ body p ++ buf)
        ≡ prepend (to_segment p) (collect z fuel buf)
  unfolding collect
  collect_step fuel p buf rest h e = rw e (rw (next-piece p rest h))

  -- A path whose terminator is read as `t` is read as its pieces, and then `t`.
  collect-path :
      (fuel : ℕ) (ps : List Piece) (end : Bytes) (t : Terminator)
      → All IsPiece ps
      → next z (delimiter ∷ end) ≡ found (ok (tail t), [])
      → length ps + 1 < fuel
      → collect z fuel (path ps ++ delimiter ∷ end) ≡ found (ok (to_segments ps ++ tail t ∷ []))
  unfolding collect
  collect-path zero ps end t h e lt = absurd (omega arith)
  collect-path (suc zero) ps end t h e lt = absurd (omega arith)
  collect-path (suc (suc fuel)) [] end t h e lt = rw e (unfold next in refl)
  collect-path (suc (suc fuel)) (p ∷ ps) end t h e lt =
      let (rest, d) = path_delimited ps end in
      ap (λ (l : Bytes). collect z (suc (suc fuel)) (delimiter ∷ l))
        (append_assoc (body p) (path ps) (delimiter ∷ end))
      ∙ collect_step (suc fuel) p (path ps ++ delimiter ∷ end) rest h.0 d
      ∙ ap (prepend (to_segment p)) (collect-path (suc fuel) ps end t h.1 e (omega arith))

  read_all-path :
      (ps : List Piece) (end : Bytes) (t : Terminator)
      → All IsPiece ps
      → 1 ≤ length end
      → next z (delimiter ∷ end) ≡ found (ok (tail t), [])
      → read_all z (path ps ++ delimiter ∷ end) ≡ found (ok (to_segments ps ++ tail t ∷ []))
  unfolding read_all
  read_all-path ps end t h long e =
      collect-path (length (path ps ++ delimiter ∷ end) + 1) ps end t h e
        (omega (arith, length-append (path ps) (delimiter ∷ end), length-path ps))

lww_chunked-eq :
    (w : PathWriter) (n : ℕ) (bytes : Bytes)
    → Write.lww_chunked w n ≡ ok bytes
    → bytes ≡ (w.writer ++ delimiter ∷ terminator_chunked ∷ []) ++ Varint.write 8 n
unfolding Write.lww_chunked
lww_chunked-eq w n bytes e = ground arith

module _ (z : Zerocopy) (ps : List Piece) (h : All IsPiece ps) (w : PathWriter)
    (pushed : push_all (Write.new [] 0) ps ≡ ok w) where
  written_path : w.writer ≡ path ps
  unfolding Write.new
  written_path = push_all-eq (Write.new [] 0) w ps pushed

  -- A path of pushed fields and indices, ended by `lww`, reads back as these segments and the end
  -- mark. The fields are valid, the indices have a segment at least, and all pushes on an empty
  -- writer succeeded.
  pub read_all-lww :
      read_all z (Write.lww w) ≡ found (ok (to_segments ps ++ tail Terminator.lww ∷ []))
  unfolding Write.lww
  read_all-lww = rw written_path (read_all-path z ps _ Terminator.lww h (omega arith) (next-lww z))

  -- A path of pushed fields and indices, ended by `lww_chunked` without an error, reads back as
  -- these segments and the chunk's last index. The fields are valid, the indices have a segment at
  -- least, all pushes on an empty writer succeeded, and the chunk's index is below 2 ^ 64.
  pub read_all-lww_chunked :
      (n : ℕ) (bytes : Bytes)
      → n < 2 ^ 64
      → Write.lww_chunked w n ≡ ok bytes
      → read_all z bytes ≡ found (ok (to_segments ps ++ tail (chunked n) ∷ []))
  read_all-lww_chunked n bytes hn e =
      let marks : Bytes = delimiter ∷ terminator_chunked ∷ [] in
      rw (lww_chunked-eq w n bytes e, written_path, append_assoc (path ps) marks (Varint.write 8 n))
        (read_all-path z ps _ (chunked n) h (omega arith) (next-chunked z n hn))

  -- A path of pushed fields and indices, ended by `counter`, reads back as these segments and the
  -- peer's identifier, a `u32`. The fields are valid, the indices have a segment at least, and all
  -- pushes on an empty writer succeeded.
  pub read_all-counter :
      (p : Pid)
      → IsU32 p
      → read_all z (Write.counter z w p)
        ≡ found (ok (to_segments ps ++ tail (Terminator.counter p) ∷ []))
  unfolding Write.counter
  read_all-counter p hp =
      rw
        (
          written_path,
          append_assoc (path ps) (delimiter ∷ terminator_counter ∷ []) (z.as_bytes 4 p),
        )
        (read_all-path z ps _ (Terminator.counter p) h (omega arith) (next-counter z p hp))
