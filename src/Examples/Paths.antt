-- ===== src/Examples/Paths.antt =====
-- Paths and mutations.
use cdoc.Prelude.{
  ◌+◌, ◌≤◌, ◌<◌, List, [], ◌∷◌, ◌++◌, ◌≡◌, refl, arith, Bytes, length, All, some, ok, err, Option,
  ◌⊎◌,
}
use cdoc.Varint
use cdoc.Varint.BigEndian.{be_bytes}
use cdoc.Varint.{found, write}
use cdoc.Zerocopy.{plain}
use cdoc.Path.{tail, chunked, is_valid, Terminator, too_long}
use cdoc.Path.Lseq.{write_segment}
use cdoc.Path.Lseq.Codec.{encode}
use cdoc.Path.Write
use cdoc.Path.Write.{PathWriter, max_length, push_field, push_index, lww_chunked}
use cdoc.Path.Read.{read_all}
use cdoc.Path.RoundTrip.{
  Piece, field, index, IsPiece, push_all, to_segments, read_all-lww, read_all-lww_chunked,
}
use cdoc.Path.Limit.{push_index_uncounted, lww_chunked_limit}
use cdoc.Mutation
use cdoc.Mutation.{
  Mutation, Error, Op, Segment, delete, assign, apply, nested, compose, entry, end, for_each,
}
use cdoc.Mutation.Writes.{IsValid, total, writes, fold_writes, for_each_lem}
use cdoc.Examples.Indices.{seg}

abbrev pieces : List Piece
pieces = field (97 ∷ 98 ∷ []) ∷ index (seg 3 5) [] ∷ []

pieces-All : All IsPiece pieces
unfolding is_valid
pieces-All = ground arith

abbrev pushed : PathWriter
pushed = record { writer = 0 ∷ 97 ∷ 98 ∷ 0 ∷ 1 ∷ 3 ∷ 1 ∷ 5 ∷ []; written = 7 }

push_all-pieces : push_all (Write.new [] 0) pieces ≡ ok pushed
unfolding Write.new push_field push_index encode write_segment Varint.write be_bytes
push_all-pieces = refl

read_all-lww_example :
    read_all plain (Write.lww pushed) ≡ found (ok (to_segments pieces ++ tail Terminator.lww ∷ []))
read_all-lww_example = read_all-lww plain pieces pieces-All pushed push_all-pieces

abbrev chunk : Bytes
chunk = 0 ∷ 97 ∷ 98 ∷ 0 ∷ 1 ∷ 3 ∷ 1 ∷ 5 ∷ 0 ∷ 31 ∷ 2 ∷ 1 ∷ 44 ∷ []

lww_chunked-pushed : lww_chunked pushed 300 ≡ ok chunk
unfolding lww_chunked Varint.write be_bytes
lww_chunked-pushed = refl

read_all-lww_chunked_example :
    read_all plain chunk ≡ found (ok (to_segments pieces ++ tail (chunked 300) ∷ []))
read_all-lww_chunked_example =
    read_all-lww_chunked plain pieces pieces-All pushed push_all-pieces 300 chunk (omega arith)
      lww_chunked-pushed

abbrev field_writer : PathWriter
field_writer = record { writer = 0 ∷ 97 ∷ []; written = 2 }

push_field-a : push_field (Write.new [] 0) (97 ∷ []) ≡ ok field_writer
unfolding push_field Write.new
push_field-a = refl

push_index-b :
    push_index field_writer (1 ∷ 3 ∷ 1 ∷ 5 ∷ [])
    ≡ ok (record { writer = 0 ∷ 97 ∷ 0 ∷ 1 ∷ 3 ∷ 1 ∷ 5 ∷ []; written = 6 })
unfolding push_index
push_index-b = refl

push_index_uncounted_example : 7 ≡ 6 + (0 + 1)
push_index_uncounted_example =
    push_index_uncounted field_writer
      (record { writer = 0 ∷ 97 ∷ 0 ∷ 1 ∷ 3 ∷ 1 ∷ 5 ∷ []; written = 6 }) (1 ∷ 3 ∷ 1 ∷ 5 ∷ []) 0
      (omega arith) push_index-b

lww_chunked_limit_example :
    ((2 + 2 + Varint.size_of 8 300 ≤ max_length)
      × ((b : Bytes) × (lww_chunked field_writer 300 ≡ ok b)
          × (length b ≡ 2 + 2 + Varint.size_of 8 300 + 1)))
    ⊎ ((max_length < 2 + 2 + Varint.size_of 8 300) × (lww_chunked field_writer 300 ≡ err too_long))
lww_chunked_limit_example = lww_chunked_limit field_writer 300 (omega arith) (omega arith)

-- Values that are bytes already.
abbrev pub as_is : Bytes → Option Bytes
as_is b = some b

abbrev pub mutation : Mutation Bytes as_is
mutation = nested (Segment.field (97 ∷ [])) (
    entry (apply (Segment.field (98 ∷ [])) (assign (1 ∷ [])))
      (entry (apply (Segment.field (99 ∷ [])) delete) end))

pub mutation-IsValid : IsValid Bytes as_is mutation
unfolding IsValid is_valid Mutation.value_bytes
mutation-IsValid = ground arith

pub mutation-total : 1 + total Bytes as_is mutation ≤ max_length
unfolding total
mutation-total = omega arith

abbrev prepend : Bytes → Bytes → List (Bytes × Bytes) → List (Bytes × Bytes)
prepend k v es = (k, v) ∷ es

for_each_lem_example :
    for_each Bytes as_is (λ k v es. ok ((k, v) ∷ es)) mutation []
    ≡ ok (fold_writes Bytes as_is prepend (writes Bytes as_is [] mutation) [])
for_each_lem_example = for_each_lem Bytes as_is prepend mutation [] mutation-IsValid mutation-total
