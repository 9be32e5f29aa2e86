-- ===== src/Query/Shrinks.antt =====
-- The words of a query: what their parsers leave of the input.
use cdoc.Prelude.{
  ℕ, suc, ◌+◌, ◌≤◌, ◌≡◌, refl, arith, [], ◌∷◌, Bytes, length, Bool, true, false, Bool-cases, inl,
  inr, ◌⊎◌, ap, Option, none, some, if◌then◌else◌, ◌==◌,
}
use cdoc.Query.Parse.{
  Outcome, ok, err, stuck, ◌>>=◌, Parser, is_word, is_word_start, is_ascii_digit,
  is_ascii_whitespace, take_while, advance, skip_ws, expect_in, expect, try_byte_in, try_byte,
  strip, in_word, try_keyword_in, try_keyword, checked, number_in, parse_number, from_utf8,
  not_quote, close_quote, parse_quoted_string, parse_bare_word, name_in, parse_name,
}

list_cases : (bs : Bytes) → (bs ≡ []) ⊎ ((b : ℕ) × (rest : Bytes) × (bs ≡ b ∷ rest))
list_cases [] = inl refl
list_cases (b ∷ rest) = inr (b, rest, refl)

-- The call ends, and what it gives satisfies `P`.
abbrev pub Ends {ℓ} : {A : Type ℓ} → (A → Type 0) → Outcome A → Type 0
Ends P (ok a) = P a
Ends P (err e) = Unit
Ends P stuck = ⊥

pub Ends-bind {ℓ κ} :
    {A : Type ℓ} {B : Type κ} (P : A → Type 0) (Q : B → Type 0) (m : Outcome A) (f : A → Outcome B)
    → Ends P m
    → ((a : A) → P a → Ends Q (f a))
    → Ends Q (m >>= f)
Ends-bind P Q (ok a) f h k = k a h
Ends-bind P Q (err e) f h k = tt
Ends-bind P Q stuck f h k = h

pub Ends-if {ℓ} :
    {A : Type ℓ} (P : A → Type 0) (c : Bool) (x y : Outcome A)
    → (c ≡ true → Ends P x)
    → (c ≡ false → Ends P y)
    → Ends P (if c then x else y)
Ends-if P true x y hx hy = hx refl
Ends-if P false x y hx hy = hy refl

-- At most `n` bytes are left.
abbrev pub Left : ℕ → Parser → Type 0
Left n p = length p.rest ≤ n

abbrev pub Leaves {ℓ} : {A : Type ℓ} → ℕ → A × Parser → Type 0
Leaves n r = Left n r.1

pub length-advance :
    (test : ℕ → Bool) (bs : Bytes) (pos : ℕ) → length (advance test bs pos).rest ≤ length bs
unfolding advance
length-advance test [] pos = omega arith
length-advance test (b ∷ bs) pos = ground (arith, length-advance test bs (pos + 1))

pub length-skip_ws : (p : Parser) → length (skip_ws p).rest ≤ length p.rest
unfolding skip_ws
length-skip_ws p = length-advance is_ascii_whitespace p.rest p.pos

expect_in-Ends :
    (n byte : ℕ) (bs : Bytes) (pos : ℕ) → length bs ≤ suc n → Ends (Left n) (expect_in byte bs pos)
expect_in-Ends n byte [] pos h = tt
expect_in-Ends n byte (b ∷ bs) pos h = elim (Bool-cases (b == byte)) [
  | inl e ↦ rw e (omega (arith, h))
  | inr e ↦ rw e tt
]

pub expect-Ends : (n byte : ℕ) (p : Parser) → length p.rest ≤ suc n → Ends (Left n) (expect byte p)
unfolding expect
expect-Ends n byte p h =
    expect_in-Ends n byte (skip_ws p).rest (skip_ws p).pos (omega (arith, h, length-skip_ws p))

try_byte_in-Left : (byte : ℕ) (bs : Bytes) (pos : ℕ) → Left (length bs) (try_byte_in byte bs pos).1
try_byte_in-Left byte [] pos = omega arith
try_byte_in-Left byte (b ∷ bs) pos = elim (Bool-cases (b == byte)) [
  | inl e ↦ rw e (omega arith)
  | inr e ↦ rw e (omega arith)
]

pub try_byte-Left : (byte : ℕ) (p : Parser) → Left (length p.rest) (try_byte byte p).1
unfolding try_byte
try_byte-Left byte p =
    omega (arith, length-skip_ws p, try_byte_in-Left byte (skip_ws p).rest (skip_ws p).pos)

length-strip : (kw bs rest : Bytes) → strip kw bs ≡ some rest → length rest ≤ length bs
unfolding strip
length-strip [] bs rest h = ground (arith, h)
length-strip (k ∷ kw) [] rest h = cc
length-strip (k ∷ kw) (b ∷ bs) rest h = ground (arith, h, length-strip kw bs rest)

try_keyword_in-Left :
    (kw bs : Bytes) (q : Parser) (found : Option Bytes)
    → strip kw bs ≡ found
    → length q.rest ≡ length bs
    → Left (length bs) (try_keyword_in kw q found).1
try_keyword_in-Left kw bs q none h e = omega (arith, e)
try_keyword_in-Left kw bs q (some rest) h e = elim (Bool-cases (in_word rest)) [
  | inl w ↦ rw w (omega (arith, e))
  | inr w ↦ rw w (length-strip kw bs rest h)
]

pub try_keyword-Left : (kw : Bytes) (p : Parser) → Left (length p.rest) (try_keyword kw p).1
unfolding try_keyword
try_keyword-Left kw p =
    let q = skip_ws p in
    omega (arith, length-skip_ws p, try_keyword_in-Left kw q.rest q (strip kw q.rest) refl refl)

checked-Ends :
    (n start : ℕ) (s : Bytes) (p : Parser)
    → Left n p
    → Ends (Leaves n) (checked start s >>= λ i. ok (i, p))
unfolding checked
checked-Ends n start s p h = ground (arith, h)

number_in-Ends :
    (n start : ℕ) (q p' : Parser) (s : Bytes) → Left n p' → Ends (Leaves n) (number_in q s start p')
number_in-Ends n start q p' [] h = elim (list_cases q.rest) [ inl e ↦ rw e tt | inr e ↦ rw e.2 tt ]
number_in-Ends n start q p' (b ∷ bs) h = checked-Ends n start (b ∷ bs) p' h

pub parse_number-Ends : (n : ℕ) (p : Parser) → Left n p → Ends (Leaves n) (parse_number p)
unfolding parse_number
parse_number-Ends n p h =
    let q = skip_ws p in
    number_in-Ends n q.pos q (advance is_ascii_digit q.rest q.pos)
      (take_while is_ascii_digit q.rest)
      (omega (arith, h, length-skip_ws p, length-advance is_ascii_digit q.rest q.pos))

module _ (is_utf8 : Bytes → Bool) where
  pub from_utf8-Ends : (s : Bytes) (start : ℕ) → Ends (λ s'. Unit {0}) (from_utf8 is_utf8 s start)
  from_utf8-Ends s start = elim (Bool-cases (is_utf8 s)) [ inl e ↦ rw e tt | inr e ↦ rw e tt ]

  close_quote-Ends :
      (n start : ℕ) (s : Bytes) (p : Parser)
      → Left n p
      → Ends (Leaves n) (close_quote is_utf8 s start p)
  close_quote-Ends n start s p h = elim (list_cases p.rest) [
    | inl e ↦ rw e tt
    | inr e ↦ rw e.2 (
        Ends-bind (λ s'. Unit {0}) (Leaves n) (from_utf8 is_utf8 s start) _ (from_utf8-Ends s start)
          (λ s' u. omega (arith, h, ap length e.2)))
  ]

  parse_quoted_string-Ends :
      (n : ℕ) (bs : Bytes) (start : ℕ)
      → length bs ≤ n
      → Ends (Leaves n) (parse_quoted_string is_utf8 bs start)
  unfolding parse_quoted_string
  parse_quoted_string-Ends n bs start h =
      close_quote-Ends n start (take_while not_quote bs) (advance not_quote bs start)
        (omega (arith, h, length-advance not_quote bs start))

  -- A bare word has its first byte.
  parse_bare_word-Ends :
      (n b : ℕ) (bs : Bytes) (start : ℕ)
      → is_word_start b ≡ true
      → length bs ≤ n
      → Ends (Leaves n) (parse_bare_word is_utf8 (b ∷ bs) start)
  unfolding parse_bare_word advance take_while
  parse_bare_word-Ends n b bs start w h =
      Ends-bind (λ s. Unit {0}) (Leaves n) (from_utf8 is_utf8 _ start) _ (from_utf8-Ends _ start)
        (λ s u. ground (arith, w, h, length-advance is_word bs (start + 1)))

  name_in-Ends :
      (n : ℕ) (bs : Bytes) (pos : ℕ) → length bs ≤ suc n → Ends (Leaves n) (name_in is_utf8 bs pos)
  name_in-Ends n [] pos h = tt
  name_in-Ends n (b ∷ bs) pos h = elim (Bool-cases (b == b'"')) [
    | inl e ↦ rw e (parse_quoted_string-Ends n bs (pos + 1) (omega (arith, h)))
    | inr e ↦ elim (Bool-cases (is_word_start b)) [
      | inl w ↦ rw e (rw w (parse_bare_word-Ends n b bs pos w (omega (arith, h))))
      | inr w ↦ rw e (rw w tt)
    ]
  ]

  -- A name takes a byte at least.
  pub parse_name-Ends :
      (n : ℕ) (p : Parser) → Left (suc n) p → Ends (Leaves n) (parse_name is_utf8 p)
  unfolding parse_name
  parse_name-Ends n p h =
      let q = skip_ws p in name_in-Ends n q.rest q.pos (omega (arith, h, length-skip_ws p))
