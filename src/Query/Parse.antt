-- ===== src/Query/Parse.antt =====
-- src/query/parse.rs: the parser, recursive descent over bytes.
use cdoc.Prelude.{
  ℕ, zero, suc, ◌+◌, ◌*◌, ◌-◌, ◌^◌, List, [], ◌∷◌, Bytes, length, ltb, leb, ◌==◌, if◌then◌else◌,
  ◌&&◌, ◌||◌, Bool, true, false, Option, none, some, not,
}
use cdoc.Mutation.{Segment}
use cdoc.Query.{
  Filter, skip, take_n, after, before, Select, select, Selects, end, entry, Query, QueryError,
  unexpected_char, unexpected_end, unknown_filter,
}

-- `Result<A, QueryError>`; `stuck` is no outcome of the code: the model ran out of fuel.
pub data Outcome {ℓ} (A : Type ℓ) : Type ℓ where
  ok : A → Outcome A
  err : QueryError → Outcome A
  stuck : Outcome A

infixl 5 ◌>>=◌
abbrev pub ◌>>=◌ {ℓ κ} : {A : Type ℓ} {B : Type κ} → Outcome A → (A → Outcome B) → Outcome B
ok a >>= f = f a
err e >>= f = err e
stuck >>= f = stuck

-- What is left of the input from `pos` on, and `pos`.
pub record Parser : Type 0 where
  pub rest : Bytes
  pub pos : ℕ

abbrev pub at : Bytes → ℕ → Parser
at rest pos = record { rest = rest; pos = pos }

abbrev pub is_ascii_whitespace : ℕ → Bool
is_ascii_whitespace b = b == b' ' || b == b'\t' || b == b'\n' || b == 12 || b == b'\r'

abbrev pub is_ascii_digit : ℕ → Bool
is_ascii_digit b = leb b'0' b && leb b b'9'

abbrev pub is_ascii_alphabetic : ℕ → Bool
is_ascii_alphabetic b = (leb b'A' b && leb b b'Z') || (leb b'a' b && leb b b'z')

-- `b.is_ascii_alphabetic() || b == b'_'`, and the same with digits
abbrev pub is_word_start : ℕ → Bool
is_word_start b = is_ascii_alphabetic b || b == b'_'

abbrev pub is_word : ℕ → Bool
is_word b = is_ascii_alphabetic b || is_ascii_digit b || b == b'_'

-- A loop that moves on as long as the byte passes the test: the bytes passed, and what is left.
unfoldable pub take_while : (ℕ → Bool) → Bytes → Bytes
take_while test [] = []
take_while test (b ∷ bs) = if test b then b ∷ take_while test bs else []

unfoldable pub advance : (ℕ → Bool) → Bytes → ℕ → Parser
advance test [] pos = at [] pos
advance test (b ∷ bs) pos = if test b then advance test bs (pos + 1) else at (b ∷ bs) pos

unfoldable pub skip_ws : Parser → Parser
unfolding advance
skip_ws p = advance is_ascii_whitespace p.rest p.pos

-- The match on `peek` behind `skip_ws`, in `expect` and in `try_byte`.
abbrev pub expect_in : ℕ → Bytes → ℕ → Outcome Parser
expect_in byte [] pos = err unexpected_end
expect_in byte (b ∷ bs) pos =
    if b == byte then ok (at bs (pos + 1)) else err (unexpected_char b pos)

unfoldable pub expect : ℕ → Parser → Outcome Parser
unfolding skip_ws
expect byte p = let q = skip_ws p in expect_in byte q.rest q.pos

abbrev pub try_byte_in : ℕ → Bytes → ℕ → Bool × Parser
try_byte_in byte [] pos = (false, at [] pos)
try_byte_in byte (b ∷ bs) pos =
    if b == byte then (true, at bs (pos + 1)) else (false, at (b ∷ bs) pos)

unfoldable pub try_byte : ℕ → Parser → Bool × Parser
unfolding skip_ws
try_byte byte p = let q = skip_ws p in try_byte_in byte q.rest q.pos

-- What follows `kw` in the input, if the input begins with it.
unfoldable pub strip : Bytes → Bytes → Option Bytes
strip [] bs = some bs
strip (k ∷ kw) [] = none
strip (k ∷ kw) (b ∷ bs) = if k == b then strip kw bs else none

-- The next byte belongs to a word.
abbrev pub in_word : Bytes → Bool
in_word [] = false
in_word (b ∷ bs) = is_word b

abbrev pub try_keyword_in : Bytes → Parser → Option Bytes → Bool × Parser
try_keyword_in kw q none = (false, q)
try_keyword_in kw q (some bs) = if in_word bs then (false, q) else (true, at bs (q.pos + length kw))

unfoldable pub try_keyword : Bytes → Parser → Bool × Parser
unfolding skip_ws strip
try_keyword kw p = let q = skip_ws p in try_keyword_in kw q (strip kw q.rest)

-- The value of a string of digits; `checked` is `s.parse::<usize>()` on it.
unfoldable pub decimal : ℕ → Bytes → ℕ
decimal n [] = n
decimal n (b ∷ bs) = decimal (n * 10 + (b - b'0')) bs

unfoldable pub checked : ℕ → Bytes → Outcome ℕ
unfolding decimal
checked start s =
    if ltb (decimal 0 s) (2 ^ 64) then ok (decimal 0 s) else err (unexpected_char b'?' start)

abbrev pub number_in : Parser → Bytes → ℕ → Parser → Outcome (ℕ × Parser)
number_in q [] start p' = elim q.rest [
  | [] ↦ err unexpected_end
  | ◌∷◌ b bs ↦ err (unexpected_char b q.pos)
]
number_in q (b ∷ bs) start p' = checked start (b ∷ bs) >>= λ n. ok (n, p')

-- `from_utf8` on a run of digits never fails.
unfoldable pub parse_number : Parser → Outcome (ℕ × Parser)
unfolding skip_ws checked take_while advance
parse_number p =
    let q = skip_ws p in
    number_in q (take_while is_ascii_digit q.rest) q.pos (advance is_ascii_digit q.rest q.pos)

abbrev pub skip_word : Bytes
skip_word = b's' ∷ b'k' ∷ b'i' ∷ b'p' ∷ []

abbrev pub take_word : Bytes
take_word = b't' ∷ b'a' ∷ b'k' ∷ b'e' ∷ []

abbrev pub after_word : Bytes
after_word = b'a' ∷ b'f' ∷ b't' ∷ b'e' ∷ b'r' ∷ []

abbrev pub before_word : Bytes
before_word = b'b' ∷ b'e' ∷ b'f' ∷ b'o' ∷ b'r' ∷ b'e' ∷ []

abbrev pub as_word : Bytes
as_word = b'a' ∷ b's' ∷ []

-- `kw` is the word `kw'`.
unfoldable pub is_same : Bytes → Bytes → Bool
is_same [] [] = true
is_same [] (b ∷ bs) = false
is_same (a ∷ as') [] = false
is_same (a ∷ as') (b ∷ bs) = a == b && is_same as' bs

abbrev pub not_quote : ℕ → Bool
not_quote b = not (b == b'"')

-- A loop stops at its terminator and at the end of the input.
abbrev pub stops : ℕ → Bytes → Bool
stops terminator [] = true
stops terminator (b ∷ bs) = b == terminator

-- `is_utf8` tells whether `from_utf8` of the standard library succeeds.
module _ (is_utf8 : Bytes → Bool) where
  abbrev pub from_utf8 : Bytes → ℕ → Outcome Bytes
  from_utf8 s start = if is_utf8 s then ok s else err (unexpected_char b'?' start)

  -- What stands between the quotes, from behind the first one.
  abbrev pub close_quote : Bytes → ℕ → Parser → Outcome (Segment × Parser)
  close_quote s start p = elim p.rest [
    | [] ↦ err unexpected_end
    | ◌∷◌ b bs ↦ from_utf8 s start >>= λ s'. ok (Segment.field s', at bs (p.pos + 1))
  ]

  unfoldable pub parse_quoted_string : Bytes → ℕ → Outcome (Segment × Parser)
  unfolding take_while advance
  parse_quoted_string bs start =
      close_quote (take_while not_quote bs) start (advance not_quote bs start)

  unfoldable pub parse_bare_word : Bytes → ℕ → Outcome (Segment × Parser)
  unfolding take_while advance
  parse_bare_word bs start = from_utf8 (take_while is_word bs) start >>= λ s.
      ok (Segment.field s, advance is_word bs start)

  abbrev pub name_in : Bytes → ℕ → Outcome (Segment × Parser)
  name_in [] pos = err unexpected_end
  name_in (b ∷ bs) pos =
      if b == b'"'
      then parse_quoted_string bs (pos + 1)
      else if is_word_start b
      then parse_bare_word (b ∷ bs) pos
      else err (unexpected_char b pos)

  unfoldable pub parse_name : Parser → Outcome (Segment × Parser)
  unfolding skip_ws parse_quoted_string parse_bare_word
  parse_name p = let q = skip_ws p in name_in q.rest q.pos

  -- The match on the keyword of a filter, which stood at `kw_pos`.
  unfoldable pub filter_of : Bytes → ℕ → Parser → Outcome (Filter × Parser)
  unfolding parse_name parse_number is_same
  filter_of kw kw_pos p =
      if is_same kw skip_word
      then (do (n, p') ← parse_number p; ok (skip n, p'))
      else if is_same kw take_word
      then (do (n, p') ← parse_number p; ok (take_n n, p'))
      else if is_same kw after_word
      then (do (s, p') ← parse_name p; ok (after s, p'))
      else if is_same kw before_word
      then (do (s, p') ← parse_name p; ok (before s, p'))
      else err (unknown_filter kw kw_pos)

  unfoldable pub parse_filter : Parser → Outcome (Filter × Parser)
  unfolding skip_ws take_while advance expect filter_of
  parse_filter p = do
    let q = skip_ws p
    kw ← from_utf8 (take_while is_word_start q.rest) q.pos
    p' ← expect b':' (advance is_word_start q.rest q.pos)
    filter_of kw p.pos p'

  -- A filter takes a byte at least.
  unfoldable pub parse_filters : ℕ → Parser → Outcome (List Filter × Parser)
  unfolding skip_ws parse_filter try_byte
  parse_filters zero p = stuck
  parse_filters (suc fuel) p =
      let q = skip_ws p in
      let more = parse_filter q >>= λ (f, p₁).
      parse_filters fuel (try_byte b',' p₁).1 >>= λ (fs, p₂). ok (f ∷ fs, p₂) in
      if stops b')' q.rest then ok ([], q) else more

  abbrev pub alias_in : Bool × Parser → Outcome (Option Segment × Parser)
  alias_in (true, p) = parse_name p >>= λ (s, p'). ok (some s, p')
  alias_in (false, p) = ok (none, p)

  unfoldable pub parse_alias : Parser → Outcome (Option Segment × Parser)
  unfolding try_keyword parse_name
  parse_alias p = alias_in (try_keyword as_word p)

  abbrev pub filters_in : Bool × Parser → Outcome (List Filter × Parser)
  filters_in (true, p) = do
    (fs, p') ← parse_filters (length p.rest + 1) p
    p'' ← expect b')' p'
    ok (fs, p'')
  filters_in (false, p) = ok ([], p)

  unfoldable pub parse_filter_list : Parser → Outcome (List Filter × Parser)
  unfolding try_byte parse_filters expect
  parse_filter_list p = filters_in (try_byte b'(' p)

  -- `parse_selects` up to the brace behind it; `k` is `parse_selects`.
  abbrev pub subselects_in :
      (Parser → Outcome (Selects × Parser)) → Bool × Parser → Outcome (Selects × Parser)
  subselects_in k (true, p) = do (s, p') ← k p; p'' ← expect b'}' p'; ok (s, p'')
  subselects_in k (false, p) = ok (end, p)

  unfoldable mutual
    pub parse_selects : ℕ → ℕ → Parser → Outcome (Selects × Parser)
    parse_selects terminator zero p = stuck
    parse_selects terminator (suc fuel) p =
        let q = skip_ws p in
        let more = parse_select fuel q >>= λ (s, p₁).
        parse_selects terminator fuel (try_byte b',' p₁).1 >>= λ (ss, p₂). ok (entry s ss, p₂) in
        if stops terminator q.rest then ok (end, q) else more

    pub parse_select : ℕ → Parser → Outcome (Select × Parser)
    parse_select zero p = stuck
    parse_select (suc fuel) p = do
      (name, p₁) ← parse_name p
      (alias, p₂) ← parse_alias p₁
      (filters, p₃) ← parse_filter_list p₂
      (subselects, p₄) ← subselects_in (parse_selects b'}' fuel) (try_byte b'{' p₃)
      ok (select name alias filters subselects, p₄)

  abbrev pub end_of_input : Selects → Bytes → ℕ → Outcome Query
  end_of_input selects [] pos = ok (record { selects = selects })
  end_of_input selects (b ∷ bs) pos = err (unexpected_char b pos)

  -- `parse_query`. A select takes a byte at least, and two calls.
  unfoldable pub parse_query : Bytes → Outcome Query
  parse_query input = do
    p ← expect b'{' (at input 0)
    (selects, p₁) ← parse_selects b'}' (2 * length input + 2) p
    p₂ ← expect b'}' p₁
    let p₃ = skip_ws p₂
    end_of_input selects p₃.rest p₃.pos
