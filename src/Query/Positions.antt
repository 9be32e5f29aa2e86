-- ===== src/Query/Positions.antt =====
-- The positions in the errors of the parser.
use mathlib.Core.Option.{some-injective}
use cdoc.Prelude.{
  ltb, ◌^◌, ℕ, zero, suc, ◌+◌, ◌≤◌, ◌<◌, ◌≡◌, refl, ◌∙◌, ap, arith, [], ◌∷◌, Bytes, length, drop,
  Bool, true, false, Bool-cases, inl, inr, ◌⊎◌, Option, none, some, if◌then◌else◌, ◌==◌, subst,
}
use cdoc.Query.{QueryError, unexpected_char, unexpected_end, unknown_filter}
use cdoc.Query.Parse.{
  Outcome, ok, err, stuck, ◌>>=◌, Parser, at, is_word, is_word_start, is_ascii_digit,
  is_ascii_whitespace, take_while, advance, skip_ws, expect_in, expect, try_byte_in, try_byte,
  strip, in_word, try_keyword_in, try_keyword, checked, decimal, number_in, parse_number, from_utf8,
  not_quote, close_quote, parse_quoted_string, parse_bare_word, name_in, parse_name,
}

drop-suc :
    (n b : ℕ) (input bs : Bytes)
    → drop n input ≡ b ∷ bs
    → (drop (n + 1) input ≡ bs) × (n < length input)
drop-suc zero b [] bs h = cc
drop-suc zero b (c ∷ input) bs h = ground (arith, h)
drop-suc (suc n) b [] bs h = cc
drop-suc (suc n) b (c ∷ input) bs h =
    let r = drop-suc n b input bs h in
    let moved : suc n + 1 ≡ suc (n + 1) = omega arith in
    (ap (λ m. drop m (c ∷ input)) moved ∙ r.0, omega (arith, r.1))

module _ (input : Bytes) where
  -- What is left is the input from the position on.
  pub record IsAt (p : Parser) : Type 0 where
    pub rest_is : drop p.pos input ≡ p.rest
    pub pos_le : p.pos ≤ length input

  -- The position lies in the input or at its end; a character other than the question mark, which
  -- stands for text that is no UTF-8 or a number that is too large, is the byte there.
  abbrev pub IsPlaced : QueryError → Type 0
  IsPlaced (unexpected_char c i) =
      (i ≤ length input) × ((c ≡ b'?') ⊎ ((rest : Bytes) × (drop i input ≡ c ∷ rest)))
  IsPlaced unexpected_end = Unit
  IsPlaced (unknown_filter kw i) = i ≤ length input

  abbrev pub Places {ℓ} : {A : Type ℓ} → (A → Type 0) → Outcome A → Type 0
  Places P (ok a) = P a
  Places P (err e) = IsPlaced e
  Places P stuck = Unit

  pub Places-bind {ℓ κ} :
      {A : Type ℓ} {B : Type κ} (P : A → Type 0) (Q : B → Type 0) (m : Outcome A)
      (f : A → Outcome B)
      → Places P m
      → ((a : A) → P a → Places Q (f a))
      → Places Q (m >>= f)
  Places-bind P Q (ok a) f h k = k a h
  Places-bind P Q (err e) f h k = h
  Places-bind P Q stuck f h k = tt

  pub Places-if {ℓ} :
      {A : Type ℓ} (P : A → Type 0) (c : Bool) (x y : Outcome A)
      → (c ≡ true → Places P x)
      → (c ≡ false → Places P y)
      → Places P (if c then x else y)
  Places-if P true x y hx hy = hx refl
  Places-if P false x y hx hy = hy refl

  abbrev pub Behind {ℓ} : {A : Type ℓ} → A × Parser → Type 0
  Behind r = IsAt r.1

  next : (b : ℕ) (bs : Bytes) (pos : ℕ) → IsAt (at (b ∷ bs) pos) → IsAt (at bs (pos + 1))
  next b bs pos h =
      let r = drop-suc pos b input bs h.rest_is in
      record { rest_is = r.0; pos_le = omega (arith, r.1) }

  pub placed :
      (b : ℕ) (bs : Bytes) (pos : ℕ) → IsAt (at (b ∷ bs) pos) → IsPlaced (unexpected_char b pos)
  placed b bs pos h = (h.pos_le, inr (bs, h.rest_is))

  pub advance-IsAt :
      (test : ℕ → Bool) (bs : Bytes) (pos : ℕ) → IsAt (at bs pos) → IsAt (advance test bs pos)
  unfolding advance
  advance-IsAt test [] pos h = h
  advance-IsAt test (b ∷ bs) pos h = elim (Bool-cases (test b)) [
    | inl e ↦ rw e (advance-IsAt test bs (pos + 1) (next b bs pos h))
    | inr e ↦ rw e h
  ]

  eta : (p : Parser) → IsAt p → IsAt (at p.rest p.pos)
  eta p h = h

  pub skip_ws-IsAt : (p : Parser) → IsAt p → IsAt (skip_ws p)
  unfolding skip_ws
  skip_ws-IsAt p h = advance-IsAt is_ascii_whitespace p.rest p.pos h

  expect_in-Places :
      (byte : ℕ) (bs : Bytes) (pos : ℕ) → IsAt (at bs pos) → Places IsAt (expect_in byte bs pos)
  expect_in-Places byte [] pos h = tt
  expect_in-Places byte (b ∷ bs) pos h =
      Places-if IsAt (b == byte) _ _ (λ e. next b bs pos h) (λ e. placed b bs pos h)

  pub expect-Places : (byte : ℕ) (p : Parser) → IsAt p → Places IsAt (expect byte p)
  unfolding expect
  expect-Places byte p h = expect_in-Places byte (skip_ws p).rest (skip_ws p).pos (skip_ws-IsAt p h)

  try_byte_in-IsAt :
      (byte : ℕ) (bs : Bytes) (pos : ℕ) → IsAt (at bs pos) → IsAt (try_byte_in byte bs pos).1
  try_byte_in-IsAt byte [] pos h = h
  try_byte_in-IsAt byte (b ∷ bs) pos h = elim (Bool-cases (b == byte)) [
    | inl e ↦ rw e (next b bs pos h)
    | inr e ↦ rw e h
  ]

  pub try_byte-IsAt : (byte : ℕ) (p : Parser) → IsAt p → IsAt (try_byte byte p).1
  unfolding try_byte
  try_byte-IsAt byte p h = try_byte_in-IsAt byte (skip_ws p).rest (skip_ws p).pos (skip_ws-IsAt p h)

  shift : (bs cs : Bytes) (m n : ℕ) → bs ≡ cs → m ≡ n → IsAt (at bs m) → IsAt (at cs n)
  shift bs cs m n e k h = subst (λ i. IsAt (at cs i)) k (subst (λ l. IsAt (at l m)) e h)

  strip-IsAt :
      (kw bs rest : Bytes) (pos : ℕ)
      → strip kw bs ≡ some rest
      → IsAt (at bs pos)
      → IsAt (at rest (pos + length kw))
  unfolding strip
  strip-IsAt [] bs rest pos e h =
      shift bs rest pos (pos + 0) (some-injective bs rest e) (omega arith) h
  strip-IsAt (k ∷ kw) [] rest pos e h = absurd (cc)
  strip-IsAt (k ∷ kw) (b ∷ bs) rest pos e h =
      let more : strip kw bs ≡ some rest = ground (arith, e) in
      shift rest rest (pos + 1 + length kw) (pos + suc (length kw)) refl (omega arith)
        (strip-IsAt kw bs rest (pos + 1) more (next b bs pos h))

  try_keyword_in-IsAt :
      (kw : Bytes) (q : Parser) (found : Option Bytes)
      → strip kw q.rest ≡ found
      → IsAt q
      → IsAt (try_keyword_in kw q found).1
  try_keyword_in-IsAt kw q none e h = h
  try_keyword_in-IsAt kw q (some rest) e h = elim (Bool-cases (in_word rest)) [
    | inl w ↦ rw w h
    | inr w ↦ rw w (strip-IsAt kw q.rest rest q.pos e h)
  ]

  pub try_keyword-IsAt : (kw : Bytes) (p : Parser) → IsAt p → IsAt (try_keyword kw p).1
  unfolding try_keyword
  try_keyword-IsAt kw p h =
      try_keyword_in-IsAt kw (skip_ws p) (strip kw (skip_ws p).rest) refl (skip_ws-IsAt p h)

  checked-Places :
      (start : ℕ) (s : Bytes) (p : Parser)
      → start ≤ length input
      → IsAt p
      → Places Behind (checked start s >>= λ i. ok (i, p))
  unfolding checked
  checked-Places start s p l h = elim (Bool-cases (ltb (decimal 0 s) (2 ^ 64))) [
    | inl e ↦ rw e h
    | inr e ↦ rw e (l, inl refl)
  ]

  number_in-Places :
      (bs : Bytes) (pos : ℕ) (s : Bytes) (p' : Parser)
      → IsAt (at bs pos)
      → IsAt p'
      → Places Behind (number_in (at bs pos) s pos p')
  number_in-Places [] pos [] p' h h' = tt
  number_in-Places (b ∷ bs) pos [] p' h h' = placed b bs pos h
  number_in-Places bs pos (c ∷ s) p' h h' = checked-Places pos (c ∷ s) p' h.pos_le h'

  pub parse_number-Places : (p : Parser) → IsAt p → Places Behind (parse_number p)
  unfolding parse_number
  parse_number-Places p h =
      let q = skip_ws p in
      number_in-Places q.rest q.pos (take_while is_ascii_digit q.rest)
        (advance is_ascii_digit q.rest q.pos) (skip_ws-IsAt p h)
        (advance-IsAt is_ascii_digit q.rest q.pos (skip_ws-IsAt p h))

  module _ (is_utf8 : Bytes → Bool) where
    pub from_utf8-Places :
        (s : Bytes) (start : ℕ)
        → start ≤ length input
        → Places (λ s'. Unit {0}) (from_utf8 is_utf8 s start)
    from_utf8-Places s start l = elim (Bool-cases (is_utf8 s)) [
      | inl e ↦ rw e tt
      | inr e ↦ rw e (l, inl refl)
    ]

    close_quote-Places :
        (start : ℕ) (s bs : Bytes) (pos : ℕ)
        → start ≤ length input
        → IsAt (at bs pos)
        → Places Behind (close_quote is_utf8 s start (at bs pos))
    close_quote-Places start s [] pos l h = tt
    close_quote-Places start s (b ∷ bs) pos l h =
        Places-bind (λ s'. Unit {0}) Behind (from_utf8 is_utf8 s start) _
          (from_utf8-Places s start l) (λ s' u. next b bs pos h)

    parse_quoted_string-Places :
        (bs : Bytes) (start : ℕ)
        → IsAt (at bs start)
        → Places Behind (parse_quoted_string is_utf8 bs start)
    unfolding parse_quoted_string
    parse_quoted_string-Places bs start h =
        let p = advance not_quote bs start in
        close_quote-Places start (take_while not_quote bs) p.rest p.pos h.pos_le
          (advance-IsAt not_quote bs start h)

    parse_bare_word-Places :
        (bs : Bytes) (start : ℕ)
        → IsAt (at bs start)
        → Places Behind (parse_bare_word is_utf8 bs start)
    unfolding parse_bare_word
    parse_bare_word-Places bs start h =
        Places-bind (λ s. Unit {0}) Behind (from_utf8 is_utf8 _ start) _
          (from_utf8-Places _ start h.pos_le) (λ s u. advance-IsAt is_word bs start h)

    name_in-Places :
        (bs : Bytes) (pos : ℕ) → IsAt (at bs pos) → Places Behind (name_in is_utf8 bs pos)
    name_in-Places [] pos h = tt
    name_in-Places (b ∷ bs) pos h =
        Places-if Behind (b == b'"') _ _
          (λ e. parse_quoted_string-Places bs (pos + 1) (next b bs pos h))
          (λ e.
            Places-if Behind (is_word_start b) _ _ (λ w. parse_bare_word-Places (b ∷ bs) pos h)
              (λ w. placed b bs pos h))

    pub parse_name-Places : (p : Parser) → IsAt p → Places Behind (parse_name is_utf8 p)
    unfolding parse_name
    parse_name-Places p h = name_in-Places (skip_ws p).rest (skip_ws p).pos (skip_ws-IsAt p h)
