-- ===== src/Path/Limit.antt =====
-- The limit of `i16::MAX` bytes on a path, and what the writer counts.
use cdoc.Prelude.{
  ℕ, ◌+◌, ◌-◌, ◌^◌, ◌≤◌, ◌<◌, ◌≡◌, sym, ap, arith, [], ◌∷◌, ◌++◌, Bytes, ℕ-cases, ◌⊎◌, inl, inr,
  length, length-append, ok, err,
}
use cdoc.Varint
use cdoc.Varint.{skip_zeros}
use cdoc.Varint.BigEndian.{be_bytes, length-be_bytes}
use cdoc.Varint.Shape.{write-eq}
use cdoc.Path.{too_long, delimiter}
use cdoc.Path.Write.{PathWriter, max_length, push_field, push_index, count_zeros, lww_chunked}

-- `written` counts the bytes of the writer.
abbrev pub IsCounted : PathWriter → Type 0
IsCounted w = w.written ≡ length w.writer

-- Where `push_field` succeeds on a writer that counts its bytes, the writer counts its bytes after
-- it, and they are within the limit.
pub push_field-IsCounted :
    (w w' : PathWriter) (f : Bytes)
    → IsCounted w
    → push_field w f ≡ ok w'
    → IsCounted w' × (length w'.writer ≤ max_length)
unfolding push_field
push_field-IsCounted w w' f h e = ground (arith, length-append w.writer (delimiter ∷ f))

-- Where `push_index` succeeds on a writer that misses `missed` bytes in its count, the count
-- misses one byte more after it: the delimiter.
pub push_index_uncounted :
    (w w' : PathWriter) (index : Bytes) (missed : ℕ)
    → length w.writer ≡ w.written + missed
    → push_index w index ≡ ok w'
    → length w'.writer ≡ w'.written + (missed + 1)
unfolding push_index
push_index_uncounted w w' index missed h e =
    ground (arith, length-append w.writer (delimiter ∷ index))

skip_zeros-count_zeros : (size : ℕ) (be : Bytes) → skip_zeros size be ≡ size - count_zeros be
unfolding skip_zeros count_zeros
skip_zeros-count_zeros size [] = omega arith
skip_zeros-count_zeros size (b ∷ be) = ground (arith, skip_zeros-count_zeros (size - 1) be)

-- `data_len` is the number of bytes that the integer takes behind its size byte.
data_len_lem : (n : ℕ) → 8 - count_zeros (be_bytes 8 n) ≡ Varint.size_of 8 n
unfolding Varint.size_of
data_len_lem n = sym (skip_zeros-count_zeros 8 (be_bytes 8 n))

chunk_bytes : Bytes → ℕ → Bytes
chunk_bytes writer n = (writer ++ delimiter ∷ 31 ∷ []) ++ Varint.write 8 n

length-chunk_bytes :
    (writer : Bytes) (n : ℕ)
    → n < 2 ^ 64
    → length (chunk_bytes writer n) ≡ length writer + 3 + Varint.size_of 8 n
unfolding chunk_bytes
length-chunk_bytes writer n h =
    let e = write-eq 8 n (omega arith) in
    omega (
      arith,
      length-append (writer ++ delimiter ∷ 31 ∷ []) (Varint.write 8 n),
      length-append writer (delimiter ∷ 31 ∷ []),
      ap length e,
      length-be_bytes (Varint.size_of 8 n) n,
    )

-- `lww_chunked` succeeds exactly where the count, two bytes and the bytes of the number are within
-- the limit, and its result is one byte longer than their sum; else it fails with `TooLong`. The
-- count is the number of bytes of the writer, and the number is below 2 ^ 64.
pub lww_chunked_limit :
    (w : PathWriter) (n : ℕ)
    → IsCounted w
    → n < 2 ^ 64
    → ((w.written + 2 + Varint.size_of 8 n ≤ max_length)
        × ((b : Bytes) × (lww_chunked w n ≡ ok b)
            × (length b ≡ w.written + 2 + Varint.size_of 8 n + 1)))
      ⊎ ((max_length < w.written + 2 + Varint.size_of 8 n) × (lww_chunked w n ≡ err too_long))
unfolding lww_chunked chunk_bytes
lww_chunked_limit w n c h = elim (ℕ-cases max_length (w.written + 2 + Varint.size_of 8 n)) [
  | inl over ↦ inr (over, ground (arith, data_len_lem n))
  | inr fits ↦ inl (
    fits,
    (
      chunk_bytes w.writer n,
      ground (arith, data_len_lem n),
      omega (arith, length-chunk_bytes w.writer n h),
    ),
  )
]
