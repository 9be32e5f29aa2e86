-- ===== src/Path.antt =====
-- src/path/: document paths as byte strings. This file has the types of src/path/mod.rs; a string
-- is its UTF-8 bytes.
pub mod Lww
pub mod Lseq
pub mod Read
pub mod Write
pub mod RoundTrip
pub mod Limit
use cdoc.Prelude.{ℕ, Bool, true, false, List, [], ◌∷◌, Bytes, ltb, if◌then◌else◌, Result, ok, err}
use cdoc.Pid.{Pid}

-- `DELIMITER`, `TERMINATOR_COUNTER`, `TERMINATOR_LWW` and `TERMINATOR_CHUNKED`
abbrev pub delimiter : ℕ
delimiter = 0

abbrev pub terminator_counter : ℕ
terminator_counter = 0b11101

abbrev pub terminator_lww : ℕ
terminator_lww = 0b11110

abbrev pub terminator_chunked : ℕ
terminator_chunked = 0b11111

pub data PathError : Type 0 where
  unsupported_delimiter : ℕ → PathError
  varint : PathError
  invalid_field : PathError
  invalid_index : PathError
  too_long : PathError

pub data Terminator : Type 0 where
  counter : Pid → Terminator
  lww : Terminator
  chunked : ℕ → Terminator

pub data PathSegment : Type 0 where
  field : Bytes → PathSegment
  index : Bytes → PathSegment
  tail : Terminator → PathSegment

-- `Field::is_valid`: no byte below 32.
unfoldable pub is_valid : Bytes → Bool
is_valid [] = true
is_valid (byte ∷ s) = if ltb byte 32 then false else is_valid s

-- `Field::new`
unfoldable pub new_field : Bytes → Result PathError Bytes
unfolding is_valid
new_field s = if is_valid s then ok s else err invalid_field
