-- ===== src/Crc32.antt =====
-- The crate crc32fast, which is not part of the repository: a hasher that is fed in pieces. Nothing
-- is asked of it but that the checksum is a `u32`.
use cdoc.Prelude.{ℕ, ◌+◌, ◌%◌, ◌^◌, ◌<◌, arith, Bytes, [], ◌∷◌}

pub record Crc32 : Type 1 where
  pub Hasher : Type 0
  pub new : Hasher
  pub new_with_initial : ℕ → Hasher
  pub update : Hasher → Bytes → Hasher
  pub finalize : Hasher → ℕ
  pub finalize_u32 : (h : Hasher) → finalize h < 2 ^ 32

-- `crc32fast::hash`
abbrev pub hash : Crc32 → Bytes → ℕ
hash crc bytes = crc.finalize (crc.update crc.new bytes)

abbrev add_all : ℕ → Bytes → ℕ
add_all h [] = h
add_all h (b ∷ bs) = add_all (h + b) bs

pub small : (h : ℕ) → h % 2 ^ 32 < 2 ^ 32
small h = omega arith

-- A sum of bytes, to run the model with.
abbrev pub sum32 : Crc32
sum32 = record {
  Hasher = ℕ;
  new = 0;
  new_with_initial = λ i. i;
  update = add_all;
  finalize = λ h. h % 2 ^ 32;
  finalize_u32 = small;
}
