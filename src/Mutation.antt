-- ===== src/Mutation.antt =====
-- src/mutation.rs: mutations, and the writes that they stand for. The crate ciborium, which writes
-- a value, is a parameter.
pub mod Writes
pub mod Order
pub mod Macro
use cdoc.Prelude.{ℕ, List, [], ◌∷◌, Bytes, length, take, Option, none, some, Result, ok, err, ◌>>=◌}
use cdoc.Varint.{Parsed, found, absent, panic, stuck}
use cdoc.Path.{PathError, invalid_index}
use cdoc.Path.Lseq
use cdoc.Path.Write
use cdoc.Path.Write.{PathWriter, push_field, push_index, lww}

pub data Segment : Type 0 where
  field : Bytes → Segment
  fractional_index : Bytes → Segment

-- What ends a mutation early: an error of the path, of the value, or a panic. `unfinished` is none of
-- the code.
pub data Error : Type 0 where
  path : PathError → Error
  cbor : Error
  panicked : Error
  unfinished : Error

abbrev pub path_error {ℓ} : {A : Type ℓ} → Result PathError A → Result Error A
path_error (ok a) = ok a
path_error (err e) = err (path e)

abbrev pub index_or_error : Parsed Bytes → Result Error Bytes
index_or_error (found i) = ok i
index_or_error absent = err (path invalid_index)
index_or_error panic = err panicked
index_or_error stuck = err unfinished

-- `Segment::write`
unfoldable pub write : Segment → PathWriter → Result Error PathWriter
write (Segment.field f) w = path_error (push_field w f)
write (fractional_index index) w = do
  findex ← index_or_error (Lseq.new index)
  path_error (push_index w findex)

-- `w.inner_mut().truncate(trunc)`; the writer goes on counting what is cut off.
unfoldable pub truncate : ℕ → PathWriter → PathWriter
truncate n w = record w { writer = take n w.writer }

module _ (Value : Type 0) (into_writer : Value → Option Bytes) where
  pub data Op : Type 0 where
    assign : Value → Op
    delete : Op

  mutual
    pub data Mutation : Type 0 where
      apply : Segment → Op → Mutation
      nested : Segment → Mutations → Mutation
      compose : Mutations → Mutation

    pub data Mutations : Type 0 where
      end : Mutations
      entry : Mutation → Mutations → Mutations

  -- The value that is written: none for a deletion, the CBOR bytes for an assignment.
  unfoldable pub value_bytes : Op → Result Error Bytes
  value_bytes delete = ok []
  value_bytes (assign value) = elim (into_writer value) [ none ↦ err cbor | some buf ↦ ok buf ]

  module _ {S : Type 0} (f : Bytes → Bytes → S → Result Error S) where
    -- `for_each_internal`: the state of `f`, and the writer.
    unfoldable mutual
      pub for_each_internal : Mutation → S → PathWriter → Result Error (S × PathWriter)
      for_each_internal (apply segment op) s w = do
        w' ← write segment w
        buf ← value_bytes op
        s' ← f (lww w') buf s
        ok (s', w')
      for_each_internal (nested segment mutations) s w = do
        w' ← write segment w
        for_each_loop (length w'.writer) mutations s w'
      for_each_internal (compose mutations) s w = for_each_loop (length w.writer) mutations s w

      pub for_each_loop : ℕ → Mutations → S → PathWriter → Result Error (S × PathWriter)
      for_each_loop trunc end s w = ok (s, w)
      for_each_loop trunc (entry m mutations) s w = do
        (s', w') ← for_each_internal m s w
        for_each_loop trunc mutations s' (truncate trunc w')

    unfoldable pub for_each : Mutation → S → Result Error S
    for_each m s = do (s', w) ← for_each_internal m s (Write.new [] 0); ok s'
