-- ===== src/Path/Write.antt =====
-- src/path/write.rs: the path writer over a `Vec<u8>`, whose `write_all` cannot fail. A method that
-- returns an error has changed nothing, since every check stands before the first write.
use cdoc.Prelude.{
  ℕ, ◌+◌, ◌-◌, ◌==◌, [], ◌∷◌, ◌++◌, Bytes, length, ltb, if◌then◌else◌, Result, ok, ◌>>=◌, ◌>>◌,
  guard, not,
}
use cdoc.Varint
use cdoc.Varint.BigEndian.{be_bytes}
use cdoc.Zerocopy.{Zerocopy}
use cdoc.Pid.{Pid}
use cdoc.Path.{
  PathError, too_long, delimiter, terminator_counter, terminator_lww, terminator_chunked, new_field,
}

pub record PathWriter : Type 0 where
  pub writer : Bytes
  pub written : ℕ

unfoldable pub new : Bytes → ℕ → PathWriter
new writer written = record { writer = writer; written = written }

-- `i16::MAX as usize`
abbrev pub max_length : ℕ
max_length = 32767

unfoldable pub ensure_capacity : PathWriter → ℕ → Result PathError (Unit {0})
ensure_capacity w additional = guard (not (ltb max_length (w.written + additional))) too_long

unfoldable pub push_field : PathWriter → Bytes → Result PathError PathWriter
unfolding ensure_capacity new_field
push_field w field = do
  f ← new_field field
  ensure_capacity w (1 + length f)
  ok (record { writer = w.writer ++ delimiter ∷ f; written = w.written + (1 + length f) })

unfoldable pub push_index : PathWriter → Bytes → Result PathError PathWriter
unfolding ensure_capacity
push_index w index = do
  ensure_capacity w (1 + length index)
  ok (record { writer = w.writer ++ delimiter ∷ index; written = w.written + length index })

-- `be.iter().take_while(|&&b| b == 0).count()`
unfoldable pub count_zeros : Bytes → ℕ
count_zeros [] = 0
count_zeros (b ∷ be) = if b == 0 then 1 + count_zeros be else 0

unfoldable pub lww_chunked : PathWriter → ℕ → Result PathError Bytes
unfolding ensure_capacity count_zeros
lww_chunked w end_index = do
  let data_len = 8 - count_zeros (be_bytes 8 end_index)
  ensure_capacity w (2 + data_len)
  ok ((w.writer ++ delimiter ∷ terminator_chunked ∷ []) ++ Varint.write 8 end_index)

unfoldable pub lww : PathWriter → Bytes
lww w = w.writer ++ delimiter ∷ terminator_lww ∷ []

unfoldable pub counter : Zerocopy → PathWriter → Pid → Bytes
counter z w pid = (w.writer ++ delimiter ∷ terminator_counter ∷ []) ++ z.as_bytes 4 pid
