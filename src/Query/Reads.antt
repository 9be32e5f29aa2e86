-- ===== src/Query/Reads.antt =====
-- The parser on the parts of a query's text: numbers, names, filters and aliases.
use cdoc.Prelude.{
  ℕ, zero, suc, ◌+◌, ◌^◌, ◌≤◌, ◌<◌, ◌≡◌, refl, sym, ap, ◌∙◌, arith, List, [], ◌∷◌, ◌++◌, Bytes, All,
  length, length-append, Bool, true, false, Option, none, some, lt→ltb, subst,
}
use cdoc.Mutation.{Segment}
use cdoc.Query.{Filter, skip, take_n, after, before, Selects, end, entry}
use cdoc.Query.Parse.{
  Outcome, ok, ◌>>=◌, Parser, at, is_ascii_digit, take_while, advance, skip_ws, expect, try_byte,
  strip, try_keyword, decimal, checked, number_in, parse_number, not_quote, close_quote,
  parse_quoted_string, parse_name, filter_of, parse_filter, parse_filters, stops, parse_alias,
  parse_filter_list, skip_word, take_word, after_word, before_word,
}
use cdoc.Query.Digits.{digits, decimal-digits, digits-IsDigit, digits_begin}
use cdoc.Query.Print.{
  print_name, print_filter, print_filters, print_filter_list, print_alias, print_block,
}

-- The call succeeds with `a` and leaves `rest`.
pub record Reads {ℓ} {A : Type ℓ} (m : Outcome (A × Parser)) (a : A) (rest : Bytes) : Type ℓ where
  pub end_pos : ℕ
  pub reads : m ≡ ok (a, at rest end_pos)

pub Reads-bind {ℓ κ} :
    {A : Type ℓ} {B : Type κ} (m : Outcome (A × Parser)) (f : A × Parser → Outcome (B × Parser))
    (a : A) (b : B) (rest rest' : Bytes)
    → Reads m a rest
    → ((pos : ℕ) → Reads (f (a, at rest pos)) b rest')
    → Reads (m >>= f) b rest'
Reads-bind m f a b rest rest' r k =
    let next = k r.end_pos in record { end_pos = next.end_pos; reads = rw r.reads next.reads }

take_while-append :
    (test : ℕ → Bool) (s : Bytes) (c : ℕ) (rest : Bytes)
    → All (λ b. test b ≡ true) s
    → test c ≡ false
    → take_while test (s ++ c ∷ rest) ≡ s
unfolding take_while
take_while-append test [] c rest h e = rw e refl
take_while-append test (b ∷ s) c rest h e =
    rw h.0 (ap (λ l. b ∷ l) (take_while-append test s c rest h.1 e))

advance-append :
    (test : ℕ → Bool) (s : Bytes) (c : ℕ) (rest : Bytes) (pos : ℕ)
    → All (λ b. test b ≡ true) s
    → test c ≡ false
    → advance test (s ++ c ∷ rest) pos ≡ at (c ∷ rest) (pos + length s)
unfolding advance
advance-append test [] c rest pos h e = rw e (ap (at (c ∷ rest)) (omega arith))
advance-append test (b ∷ s) c rest pos h e =
    rw h.0 (advance-append test s c rest (pos + 1) h.1 e ∙ ap (at (c ∷ rest)) (omega arith))

digit_starts :
    (d : ℕ) (bs : Bytes) (pos : ℕ)
    → is_ascii_digit d ≡ true
    → skip_ws (at (d ∷ bs) pos) ≡ at (d ∷ bs) pos
unfolding skip_ws advance
digit_starts d bs pos h = ground (arith, h)

checked-decimal : (n start : ℕ) (s : Bytes) → decimal 0 s ≡ n → n < 2 ^ 64 → checked start s ≡ ok n
unfolding checked
checked-decimal n start s e h = rw e (rw (lt→ltb n (2 ^ 64) h) refl)

-- A number, with a comma behind it.
parse_number-run :
    (n pos d : ℕ) (ds rest : Bytes)
    → All (λ b. is_ascii_digit b ≡ true) (d ∷ ds)
    → decimal 0 (d ∷ ds) ≡ n
    → n < 2 ^ 64
    → Reads (parse_number (at (d ∷ ds ++ b',' ∷ rest) pos)) n (b',' ∷ rest)
unfolding parse_number
parse_number-run n pos d ds rest all value h =
    let text = d ∷ ds ++ b',' ∷ rest in
    let q = at text pos in
    record {
      end_pos = pos + length (d ∷ ds);
      reads =
          ap
            (λ q'.
              number_in q' (take_while is_ascii_digit q'.rest) q'.pos
                (advance is_ascii_digit q'.rest q'.pos))
            (digit_starts d (ds ++ b',' ∷ rest) pos all.0)
          ∙ ap (λ s. number_in q s pos (advance is_ascii_digit text pos))
              (take_while-append is_ascii_digit (d ∷ ds) b',' rest all refl)
          ∙ ap (number_in q (d ∷ ds) pos)
              (advance-append is_ascii_digit (d ∷ ds) b',' rest pos all refl)
          ∙ ap (λ o. o >>= λ i. ok (i, at (b',' ∷ rest) (pos + length (d ∷ ds))))
              (checked-decimal n pos (d ∷ ds) value h);
    }

parse_number-digits :
    (n pos : ℕ) (rest : Bytes)
    → n < 2 ^ 64
    → Reads (parse_number (at (digits n ++ b',' ∷ rest) pos)) n (b',' ∷ rest)
parse_number-digits n pos rest h =
    let (d, ds, first) = digits_begin n in
    subst (λ s. Reads (parse_number (at (s ++ b',' ∷ rest) pos)) n (b',' ∷ rest)) (sym first)
      (parse_number-run n pos d ds rest
        (subst (All (λ b. is_ascii_digit b ≡ true)) first (digits-IsDigit n))
        (ap (decimal 0) (sym first) ∙ decimal-digits n) h)

pub length-print_name : (s : Segment) (rest : Bytes) → length rest ≤ length (print_name s rest)
length-print_name (Segment.field s) rest = omega (arith, length-append s (b'"' ∷ rest))
length-print_name (Segment.fractional_index i) rest = omega arith

length-print_filter : (f : Filter) (rest : Bytes) → length rest ≤ length (print_filter f rest)
length-print_filter (skip n) rest = omega (arith, length-append (digits n) rest)
length-print_filter (take_n n) rest = omega (arith, length-append (digits n) rest)
length-print_filter (after s) rest = omega (arith, length-print_name s rest)
length-print_filter (before s) rest = omega (arith, length-print_name s rest)

pub length-print_filters :
    (fs : List Filter) (rest : Bytes) → length fs + length rest ≤ length (print_filters fs rest)
length-print_filters [] rest = omega arith
length-print_filters (f ∷ fs) rest =
    omega
      (arith, length-print_filter f (b',' ∷ print_filters fs rest), length-print_filters fs rest)

module _ (is_utf8 : Bytes → Bool) where
  -- A name that quotes can hold.
  abbrev pub IsName : Segment → Type 0
  IsName (Segment.field s) = All (λ b. not_quote b ≡ true) s × (is_utf8 s ≡ true)
  IsName (Segment.fractional_index i) = ⊥

  abbrev pub IsFilter : Filter → Type 0
  IsFilter (skip n) = n < 2 ^ 64
  IsFilter (take_n n) = n < 2 ^ 64
  IsFilter (after s) = IsName s
  IsFilter (before s) = IsName s

  abbrev pub IsAlias : Option Segment → Type 0
  IsAlias none = Unit
  IsAlias (some s) = IsName s

  -- The standard library's check accepts the keywords.
  abbrev pub AcceptsWords : Type 0
  AcceptsWords =
      (is_utf8 skip_word ≡ true)
      × (is_utf8 take_word ≡ true)
      × (is_utf8 after_word ≡ true)
      × (is_utf8 before_word ≡ true)

  pub parse_name-print_name :
      (s : Segment) (pos : ℕ) (rest : Bytes)
      → IsName s
      → Reads (parse_name is_utf8 (at (print_name s rest) pos)) s rest
  unfolding parse_name skip_ws advance parse_quoted_string
  parse_name-print_name (Segment.fractional_index i) pos rest h = absurd h
  parse_name-print_name (Segment.field s) pos rest h = record {
    end_pos = pos + 1 + length s + 1;
    reads =
        ap (λ t. close_quote is_utf8 t (pos + 1) (advance not_quote (s ++ b'"' ∷ rest) (pos + 1)))
          (take_while-append not_quote s b'"' rest h.0 refl)
        ∙ ap (close_quote is_utf8 s (pos + 1))
            (advance-append not_quote s b'"' rest (pos + 1) h.0 refl)
        ∙ rw h.1 refl;
  }

  -- The same behind a space.
  parse_name-space :
      (s : Segment) (pos : ℕ) (rest : Bytes)
      → IsName s
      → Reads (parse_name is_utf8 (at (b' ' ∷ print_name s rest) pos)) s rest
  unfolding parse_name skip_ws advance
  parse_name-space (Segment.fractional_index i) pos rest h = absurd h
  parse_name-space (Segment.field s) pos rest h =
      let r = parse_name-print_name (Segment.field s) (pos + 1) rest h in
      record { end_pos = r.end_pos; reads = r.reads }

  module _ (words : AcceptsWords) where
    parse_filter-print_filter :
        (f : Filter) (pos : ℕ) (rest : Bytes)
        → IsFilter f
        → Reads (parse_filter is_utf8 (at (print_filter f (b',' ∷ rest)) pos)) f (b',' ∷ rest)
    unfolding parse_filter filter_of skip_ws take_while advance expect
    parse_filter-print_filter (skip n) pos rest h = rw words.0 (
        Reads-bind (parse_number (at (digits n ++ b',' ∷ rest) _)) _ n (skip n) (b',' ∷ rest)
          (b',' ∷ rest) (parse_number-digits n _ rest h)
          (λ p. record { end_pos = p; reads = refl }))
    parse_filter-print_filter (take_n n) pos rest h = rw words.1 (
        Reads-bind (parse_number (at (digits n ++ b',' ∷ rest) _)) _ n (take_n n) (b',' ∷ rest)
          (b',' ∷ rest) (parse_number-digits n _ rest h)
          (λ p. record { end_pos = p; reads = refl }))
    parse_filter-print_filter (after s) pos rest h = rw words.2 (
        Reads-bind (parse_name is_utf8 (at (print_name s (b',' ∷ rest)) _)) _ s (after s)
          (b',' ∷ rest) (b',' ∷ rest) (parse_name-print_name s _ (b',' ∷ rest) h)
          (λ p. record { end_pos = p; reads = refl }))
    parse_filter-print_filter (before s) pos rest h = rw words.3 (
        Reads-bind (parse_name is_utf8 (at (print_name s (b',' ∷ rest)) _)) _ s (before s)
          (b',' ∷ rest) (b',' ∷ rest) (parse_name-print_name s _ (b',' ∷ rest) h)
          (λ p. record { end_pos = p; reads = refl }))

    -- A filter begins with a letter.
    print_filter_starts :
        (f : Filter) (pos : ℕ) (rest : Bytes)
        → (skip_ws (at (print_filter f rest) pos) ≡ at (print_filter f rest) pos)
          × (stops b')' (print_filter f rest) ≡ false)
    unfolding skip_ws advance
    print_filter_starts (skip n) pos rest = (refl, refl)
    print_filter_starts (take_n n) pos rest = (refl, refl)
    print_filter_starts (after s) pos rest = (refl, refl)
    print_filter_starts (before s) pos rest = (refl, refl)

    parse_filters-print_filters :
        (fs : List Filter) (fuel pos : ℕ) (rest : Bytes)
        → All IsFilter fs
        → length fs < fuel
        → Reads
            (parse_filters is_utf8 fuel (at (print_filters fs (b')' ∷ rest)) pos))
            fs
            (b')' ∷ rest)
    unfolding parse_filters try_byte skip_ws advance
    parse_filters-print_filters fs zero pos rest h enough = absurd (omega (arith, enough))
    parse_filters-print_filters [] (suc fuel) pos rest h enough = record {
      end_pos = pos;
      reads = refl;
    }
    parse_filters-print_filters (f ∷ fs) (suc fuel) pos rest h enough =
        let later = print_filters fs (b')' ∷ rest) in
        let starts = print_filter_starts f pos (b',' ∷ later) in
        let one = parse_filter-print_filter f pos later h.0 in
        rw starts.0 (
          rw starts.1 (
            Reads-bind (parse_filter is_utf8 (at (print_filter f (b',' ∷ later)) pos)) _ f (f ∷ fs)
              (b',' ∷ later) (b')' ∷ rest) one
              (λ p.
                Reads-bind (parse_filters is_utf8 fuel (at later (p + 1))) _ fs (f ∷ fs)
                  (b')' ∷ rest) (b')' ∷ rest)
                  (parse_filters-print_filters fs fuel (p + 1) rest h.1 (omega (arith, enough)))
                  (λ p'. record { end_pos = p'; reads = refl }))))

    pub parse_filter_list-print_filter_list :
        (fs : List Filter) (ss : Selects) (pos : ℕ) (rest : Bytes)
        → All IsFilter fs
        → Reads
            (parse_filter_list is_utf8
              (at (print_filter_list fs (print_block ss (b',' ∷ rest))) pos))
            fs
            (print_block ss (b',' ∷ rest))
    unfolding parse_filter_list try_byte skip_ws advance print_block expect
    parse_filter_list-print_filter_list [] end pos rest h = record { end_pos = pos; reads = refl }
    parse_filter_list-print_filter_list [] (entry s ss) pos rest h = record {
      end_pos = pos;
      reads = refl;
    }
    parse_filter_list-print_filter_list (f ∷ fs) ss pos rest h =
        let behind = print_block ss (b',' ∷ rest) in
        let text = print_filters (f ∷ fs) (b')' ∷ behind) in
        Reads-bind (parse_filters is_utf8 (length text + 1) (at text (pos + 1))) _ (f ∷ fs) (f ∷ fs)
          (b')' ∷ behind) behind
          (parse_filters-print_filters (f ∷ fs) (length text + 1) (pos + 1) behind h
            (omega (arith, length-print_filters (f ∷ fs) (b')' ∷ behind))))
          (λ p. record { end_pos = p + 1; reads = refl })

    pub parse_alias-print_alias :
        (alias : Option Segment) (fs : List Filter) (ss : Selects) (pos : ℕ) (rest : Bytes)
        → IsAlias alias
        → Reads
            (parse_alias is_utf8
              (at (print_alias alias (print_filter_list fs (print_block ss (b',' ∷ rest)))) pos))
            alias
            (print_filter_list fs (print_block ss (b',' ∷ rest)))
    unfolding parse_alias try_keyword strip skip_ws advance print_block
    parse_alias-print_alias none [] end pos rest h = record { end_pos = pos; reads = refl }
    parse_alias-print_alias none [] (entry s ss) pos rest h = record { end_pos = pos; reads = refl }
    parse_alias-print_alias none (f ∷ fs) ss pos rest h = record { end_pos = pos; reads = refl }
    parse_alias-print_alias (some s) fs ss pos rest h =
        let behind = print_filter_list fs (print_block ss (b',' ∷ rest)) in
        Reads-bind (parse_name is_utf8 (at (b' ' ∷ print_name s behind) _)) _ s (some s) behind
          behind (parse_name-space s _ behind h) (λ p. record { end_pos = p; reads = refl })
