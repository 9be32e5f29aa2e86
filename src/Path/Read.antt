-- ===== src/Path/Read.antt =====
-- src/path/read.rs: the path reader, an iterator whose state is the bytes that are left. Of
-- `Parsed`, `found` is an item with the bytes left behind it, and `absent` the end.
use cdoc.Prelude.{
  ℕ, zero, suc, ◌+◌, ◌==◌, List, [], ◌∷◌, Bytes, length, take, drop, ltb, leb, ◌&&◌, none, some,
  if◌then◌else◌, Result, ok, err,
}
use cdoc.Varint
use cdoc.Varint.{Parsed, found, absent, panic, stuck, ◌>>=◌}
use cdoc.Zerocopy.{Zerocopy}
use cdoc.Path.{
  PathError, unsupported_delimiter, varint, invalid_index, PathSegment, field, index, tail, counter,
  lww, chunked, delimiter, terminator_counter, terminator_lww, terminator_chunked,
}
use cdoc.Path.Lseq

abbrev pub Item : Type 0
Item = Result PathError PathSegment × Bytes

-- The loop of `read_field`: the bytes before the first delimiter.
unfoldable pub field_length : Bytes → ℕ
field_length [] = 0
field_length (byte ∷ buf) = if byte == delimiter then 0 else 1 + field_length buf

unfoldable pub read_field : Bytes → Item
unfolding field_length
read_field buf = let i = field_length buf in (ok (field (take i buf)), drop i buf)

abbrev pub chunked_item : Bytes → Parsed (ℕ × ℕ) → Parsed Item
chunked_item buf absent = found (err varint, buf)
chunked_item buf (found (end_index, read)) = found (ok (tail (chunked end_index)), drop read buf)
chunked_item buf panic = panic
chunked_item buf stuck = stuck

unfoldable pub read_chunked : Bytes → Parsed Item
read_chunked buf = chunked_item buf (Varint.read_from 8 buf)

abbrev pub index_item : Bytes → Parsed (Bytes × ℕ) → Parsed Item
index_item buf absent = found (err invalid_index, buf)
index_item buf (found (i, read)) = found (ok (index i), drop read buf)
index_item buf panic = panic
index_item buf stuck = stuck

unfoldable pub read_fractional_index : Bytes → Parsed Item
read_fractional_index buf = index_item buf (Lseq.from_bytes buf)

abbrev pub prepend :
    PathSegment
    → Parsed (Result PathError (List PathSegment))
    → Parsed (Result PathError (List PathSegment))
prepend s (found (ok ss)) = found (ok (s ∷ ss))
prepend s (found (err e)) = found (err e)
prepend s absent = absent
prepend s panic = panic
prepend s stuck = stuck

-- One item of `collect`; `k` collects the rest.
abbrev pub collect_item :
    (Bytes → Parsed (Result PathError (List PathSegment)))
    → Parsed Item
    → Parsed (Result PathError (List PathSegment))
collect_item k absent = found (ok [])
collect_item k panic = panic
collect_item k stuck = stuck
collect_item k (found (err e, rest)) = found (err e)
collect_item k (found (ok s, rest)) = prepend s (k rest)

module _ (z : Zerocopy) where
  -- `PID::ref_from_bytes` is the cast that zerocopy derives: it does not refuse 0.
  unfoldable pub read_counter : Bytes → Item
  read_counter buf = elim (z.ref_from_bytes 4 buf) [
    | none ↦ (err varint, buf)
    | some pid ↦ (ok (tail (counter pid)), [])
  ]

  -- The match on the byte behind the delimiter; `buf` begins with that byte, and `rest` behind it.
  unfoldable pub read_segment : Bytes → ℕ → Bytes → Parsed Item
  unfolding read_counter read_field read_chunked read_fractional_index
  read_segment buf delim rest =
      if delim == terminator_chunked
      then read_chunked rest
      else if delim == terminator_lww
      then found (ok (tail lww), [])
      else if delim == terminator_counter
      then found (read_counter rest)
      else if leb 1 delim && ltb delim 17
      then read_fractional_index buf
      else if leb 17 delim && ltb delim 32
      then found (err (unsupported_delimiter delim), buf)
      else found (read_field buf)

  -- `Iterator::next`
  unfoldable pub next : Bytes → Parsed Item
  unfolding read_segment
  next [] = absent
  next (delim ∷ []) = absent
  next (delim ∷ d ∷ rest) =
      if delim == delimiter
      then read_segment (d ∷ rest) d rest
      else found (err (unsupported_delimiter delim), delim ∷ d ∷ rest)

  -- `collect::<Result<Vec<_>, _>>()`, which stops at the first error. Every item takes a byte.
  unfoldable pub collect : ℕ → Bytes → Parsed (Result PathError (List PathSegment))
  collect zero buf = stuck
  collect (suc fuel) buf = collect_item (collect fuel) (next buf)

  -- An item takes a byte at least, so `length buf + 1` rounds are enough.
  unfoldable pub read_all : Bytes → Parsed (Result PathError (List PathSegment))
  unfolding collect
  read_all buf = collect (length buf + 1) buf
