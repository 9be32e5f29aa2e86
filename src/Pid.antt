-- ===== src/Pid.antt =====
-- src/pid.rs: peer identifiers, 32-bit numbers other than 0.
use cdoc.Prelude.{
  ℕ, ◌^◌, ◌<◌, ◌≡◌, ◌↔◌, arith, Option, none, some, Bytes, length, ◌==◌, if◌then◌else◌,
}
use cdoc.Varint.BigEndian.{be_bytes, of_be-be_bytes, length-be_bytes}
use cdoc.Zerocopy.{Zerocopy}

-- `PID`, by the value of its `BE32`.
abbrev pub Pid : Type 0
Pid = ℕ

abbrev pub IsU32 : ℕ → Type 0
IsU32 n = n < 2 ^ 32

abbrev pub IsPid : Pid → Type 0
IsPid p = (0 < p) × IsU32 p

unfoldable pub new : ℕ → Option Pid
new pid = if pid == 0 then none else some pid

-- `fastrand::u32(1..)`: `raw` is what the generator gives.
unfoldable pub random : ℕ → Pid
random raw = raw

unfoldable pub parse : Zerocopy → Bytes → Option Pid
parse z bytes = elim (z.ref_from_bytes 4 bytes) [
  | none ↦ none
  | some pid ↦ if pid == 0 then none else some pid
]

-- `new` refuses 0 and nothing else.
pub new_iff : (n : ℕ) (p : Pid) → (new n ≡ some p) ↔ ((0 < n) × (n ≡ p))
unfolding new
new_iff n p = ground arith

-- `parse` reads back the four bytes of every identifier, refuses those of 0, and refuses every
-- other length.
pub parse-be_bytes :
    (z : Zerocopy) (p : Pid)
    → IsPid p
    → (parse z (be_bytes 4 p) ≡ some p)
      × (parse z (be_bytes 4 0) ≡ none)
      × ((bs : Bytes) → (length bs ≡ 4 → ⊥) → parse z bs ≡ none)
unfolding parse
parse-be_bytes z p h = (
  ground (
    arith,
    z.ref_from_bytes_lem 4 (be_bytes 4 p),
    length-be_bytes 4 p,
    of_be-be_bytes 4 p (omega arith),
  ),
  ground (
    arith,
    z.ref_from_bytes_lem 4 (be_bytes 4 0),
    length-be_bytes 4 0,
    of_be-be_bytes 4 0 (omega arith),
  ),
  λ bs ne. ground (arith, z.ref_from_bytes_lem 4 bs),
)
