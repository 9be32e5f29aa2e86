-- ===== src/Varint.antt =====
-- src/varint.rs: the length-prefixed integers. Both macros give one code for each width, so the
-- width in bytes, `size_of::<Self>()`, is the argument `w` (2, 4, 8 or 16 in the program).
pub mod BigEndian
pub mod LittleEndian
pub mod Shape
pub mod RoundTrip
pub mod Ordered
use cdoc.Prelude.{
  ℕ, zero, suc, ◌+◌, ◌-◌, ◌==◌, ltb, if◌then◌else◌, List, [], ◌∷◌, ◌++◌, Bytes, length, take, drop,
  replicate,
}
use BigEndian.{be_bytes, of_be}

-- What code that returns `Option<A>` and may index out of range does: `Some`, `None`, or a panic.
-- `stuck` is no outcome of the code: a loop of the model ran out of fuel.
pub data Parsed {ℓ} (A : Type ℓ) : Type ℓ where
  found : A → Parsed A
  absent : Parsed A
  panic : Parsed A
  stuck : Parsed A

infixl 5 ◌>>=◌
abbrev pub ◌>>=◌ {ℓ κ} : {A : Type ℓ} {B : Type κ} → Parsed A → (A → Parsed B) → Parsed B
found a >>= f = f a
absent >>= f = absent
panic >>= f = panic
stuck >>= f = stuck

-- The call ends, and what it finds satisfies `P`.
abbrev pub Returns {ℓ} : {A : Type ℓ} → (A → Type 0) → Parsed A → Type 0
Returns P (found a) = P a
Returns P absent = Unit
Returns P panic = Unit
Returns P stuck = ⊥

pub Returns-bind {ℓ κ} :
    {A : Type ℓ} {B : Type κ} (P : A → Type 0) (Q : B → Type 0) (m : Parsed A) (f : A → Parsed B)
    → Returns P m
    → ((a : A) → P a → Returns Q (f a))
    → Returns Q (m >>= f)
Returns-bind P Q (found a) f h k = k a h
Returns-bind P Q absent f h k = tt
Returns-bind P Q panic f h k = tt
Returns-bind P Q stuck f h k = h

pub Returns-imp {ℓ} :
    {A : Type ℓ} (P : A → Type 0) (Q : A → Type 0) (m : Parsed A)
    → ((a : A) → P a → Q a)
    → Returns P m
    → Returns Q m
Returns-imp P Q (found a) f h = f a h
Returns-imp P Q absent f h = tt
Returns-imp P Q panic f h = tt
Returns-imp P Q stuck f h = h

-- `copy_from_slice(&bytes[1..1 + byte_count])` panics where the slice is too short.
unfoldable pub read_from : ℕ → Bytes → Parsed (ℕ × ℕ)
read_from w [] = absent
read_from w (byte_count ∷ rest) =
    if ltb w byte_count
    then absent
    else if ltb (length rest) byte_count
    then panic
    else found (of_be (replicate (w - byte_count) 0 ++ take byte_count rest), byte_count + 1)

-- `for byte in be { if byte == 0 { size -= 1 } else { break } }`
unfoldable pub skip_zeros : ℕ → Bytes → ℕ
skip_zeros size [] = size
skip_zeros size (byte ∷ be) = if byte == 0 then skip_zeros (size - 1) be else size

-- The variable `size` after the loop of `write`.
unfoldable pub size_of : ℕ → ℕ → ℕ
unfolding skip_zeros
size_of w n = skip_zeros w (be_bytes w n)

-- What `write` hands to `write_all`. `size as u8` loses nothing: `size` is at most 16.
unfoldable pub write : ℕ → ℕ → Bytes
unfolding size_of
write w n = size_of w n ∷ drop (w - size_of w n) (be_bytes w n)
