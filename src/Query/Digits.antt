-- ===== src/Query/Digits.antt =====
-- The decimal digits of a number, as `parse_number` reads them.
use cdoc.Prelude.{
  ℕ, zero, suc, ◌+◌, ◌-◌, ◌*◌, ◌/◌, ◌%◌, ◌<◌, ◌≡◌, refl, ◌∙◌, arith, [], ◌∷◌, ◌++◌, Bytes, All,
  All-append, true, Bool-cases, inl, inr, if◌then◌else◌, ltb, ltb→lt, not-ltb→le,
}
use cdoc.Query.Parse.{is_ascii_digit, decimal}

unfoldable pub digits_in : ℕ → ℕ → Bytes
digits_in zero n = []
digits_in (suc fuel) n =
    if ltb n 10 then (n + b'0') ∷ [] else digits_in fuel (n / 10) ++ (n % 10 + b'0') ∷ []

unfoldable pub digits : ℕ → Bytes
unfolding digits_in
digits n = digits_in (suc n) n

decimal-append :
    (start : ℕ) (a : Bytes) (b : ℕ)
    → decimal start (a ++ b ∷ []) ≡ decimal start a * 10 + (b - b'0')
unfolding decimal
decimal-append start [] b = refl
decimal-append start (c ∷ a) b = decimal-append (start * 10 + (c - b'0')) a b

abbrev pub IsDigit : ℕ → Type 0
IsDigit b = is_ascii_digit b ≡ true

digits_in-decimal : (fuel n : ℕ) → n < fuel → decimal 0 (digits_in fuel n) ≡ n
unfolding digits_in decimal
digits_in-decimal zero n h = absurd (omega (arith, h))
digits_in-decimal (suc fuel) n h = elim (Bool-cases (ltb n 10)) [
  | inl e ↦ rw e (omega arith)
  | inr e ↦ rw e (
      decimal-append 0 (digits_in fuel (n / 10)) (n % 10 + b'0')
      ∙ omega (arith, digits_in-decimal fuel (n / 10) (omega (arith, h, not-ltb→le n 10 e))))
]

digits_in-IsDigit : (fuel n : ℕ) → All IsDigit (digits_in fuel n)
unfolding digits_in
digits_in-IsDigit zero n = tt
digits_in-IsDigit (suc fuel) n = elim (Bool-cases (ltb n 10)) [
  | inl e ↦ rw e (ground (arith, ltb→lt n 10 e), tt)
  | inr e ↦ rw e (
      All-append IsDigit (digits_in fuel (n / 10)) _ (digits_in-IsDigit fuel (n / 10))
        (ground arith, tt))
]

pub decimal-digits : (n : ℕ) → decimal 0 (digits n) ≡ n
unfolding digits
decimal-digits n = digits_in-decimal (suc n) n (omega arith)

pub digits-IsDigit : (n : ℕ) → All IsDigit (digits n)
unfolding digits
digits-IsDigit n = digits_in-IsDigit (suc n) n

append_begins : (a : Bytes) (b : ℕ) → (d : ℕ) × (ds : Bytes) × (a ++ b ∷ [] ≡ d ∷ ds)
append_begins [] b = (b, [], refl)
append_begins (c ∷ a) b = (c, a ++ b ∷ [], refl)

-- There is a first digit.
pub digits_begin : (n : ℕ) → (d : ℕ) × (ds : Bytes) × (digits n ≡ d ∷ ds)
unfolding digits digits_in
digits_begin n = elim (Bool-cases (ltb n 10)) [
  | inl e ↦ rw e (n + b'0', [], refl)
  | inr e ↦ rw e (append_begins (digits_in n (n / 10)) (n % 10 + b'0'))
]
