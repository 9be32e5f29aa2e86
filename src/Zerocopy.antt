-- ===== src/Zerocopy.antt =====
-- The crate zerocopy, which is not part of the repository: casts between byte strings and the
-- fixed-size types over `big_endian` integers. Its operations are the fields of this interface,
-- and the laws are what its documentation says of them.
use cdoc.Prelude.{
  ℕ, ◌≡◌, Option, none, some, Bytes, length, take, drop, if◌then◌else◌, ◌==◌, refl, leb,
}
use cdoc.Varint.BigEndian.{be_bytes, of_be}

pub record Zerocopy : Type 0 where
  -- `ref_from_bytes` of an integer of `w` bytes: `Err` where the size is another
  pub ref_from_bytes : ℕ → Bytes → Option ℕ
  -- `ref_from_prefix`: `Err` where the input is too short
  pub ref_from_prefix : ℕ → Bytes → Option (ℕ × Bytes)
  -- `as_bytes`
  pub as_bytes : ℕ → ℕ → Bytes
  pub ref_from_bytes_lem :
      (w : ℕ) (bs : Bytes)
      → ref_from_bytes w bs ≡ (if length bs == w then some (of_be bs) else none)
  pub ref_from_prefix_lem :
      (w : ℕ) (bs : Bytes)
      → ref_from_prefix w bs
        ≡ (if leb w (length bs) then some (of_be (take w bs), drop w bs) else none)
  pub as_bytes_lem : (w n : ℕ) → as_bytes w n ≡ be_bytes w n

-- An implementation, to run the model with.
abbrev pub plain : Zerocopy
plain = record {
  ref_from_bytes = λ w bs. if length bs == w then some (of_be bs) else none;
  ref_from_prefix = λ w bs. if leb w (length bs) then some (of_be (take w bs), drop w bs) else none;
  as_bytes = be_bytes;
  ref_from_bytes_lem = λ w bs. refl;
  ref_from_prefix_lem = λ w bs. refl;
  as_bytes_lem = λ w n. refl;
}
