-- ===== src/Query/Placed.antt =====
-- The positions in the errors of the whole parser.
use cdoc.Prelude.{
  ℕ, zero, suc, ◌+◌, ◌*◌, ◌≤◌, refl, arith, [], ◌∷◌, Bytes, length, Bool, true, false,
}
use cdoc.Query.{Filter, skip, take_n, after, before, Selects}
use cdoc.Query.Parse.{
  Outcome, ok, ◌>>=◌, Parser, at, is_same, skip_word, take_word, after_word, before_word, as_word,
  is_word_start, advance, skip_ws, expect, try_byte, try_keyword, parse_number, from_utf8,
  parse_name, filter_of, parse_filter, stops, parse_filters, alias_in, parse_alias, filters_in,
  parse_filter_list, subselects_in, parse_selects, parse_select, end_of_input, parse_query,
}
use cdoc.Query.Positions.{
  IsAt, Places, Behind, Places-bind, Places-if, advance-IsAt, skip_ws-IsAt, expect-Places,
  try_byte-IsAt, try_keyword-IsAt, parse_number-Places, from_utf8-Places, parse_name-Places, placed,
}

module _ (input : Bytes) (is_utf8 : Bytes → Bool) where
  keep :
      {A : Type 0} {B : Type 0} (make : A → B) (m : Outcome (A × Parser))
      → Places input (Behind input) m
      → Places input (Behind input) (m >>= λ (a, p'). ok (make a, p'))
  keep make m h = Places-bind input (Behind input) (Behind input) m _ h (λ r left. left)

  filter_of-Places :
      (kw : Bytes) (kw_pos : ℕ) (p : Parser)
      → kw_pos ≤ length input
      → IsAt input p
      → Places input (Behind input) (filter_of is_utf8 kw kw_pos p)
  unfolding filter_of
  filter_of-Places kw kw_pos p l h =
      let number = parse_number-Places input p h in
      let name = parse_name-Places input is_utf8 p h in
      let If = Places-if input {A = Filter × Parser} (Behind input) in
      If (is_same kw skip_word) _ _ (λ e. keep skip (parse_number p) number)
        (λ e.
          If (is_same kw take_word) _ _ (λ e. keep take_n (parse_number p) number)
            (λ e.
              If (is_same kw after_word) _ _ (λ e. keep after (parse_name is_utf8 p) name)
                (λ e.
                  If (is_same kw before_word) _ _ (λ e. keep before (parse_name is_utf8 p) name)
                    (λ e. l))))

  parse_filter-Places :
      (p : Parser) → IsAt input p → Places input (Behind input) (parse_filter is_utf8 p)
  unfolding parse_filter
  parse_filter-Places p h =
      let q = skip_ws p in
      let at_q = skip_ws-IsAt input p h in
      let p₁ = advance is_word_start q.rest q.pos in
      Places-bind input (λ s. Unit {0}) (Behind input) (from_utf8 is_utf8 _ q.pos) _
        (from_utf8-Places input is_utf8 _ q.pos at_q.pos_le)
        (λ kw u.
          Places-bind input (IsAt input) (Behind input) (expect b':' p₁) _
            (expect-Places input b':' p₁ (advance-IsAt input is_word_start q.rest q.pos at_q))
            (λ p' h'. filter_of-Places kw p.pos p' h.pos_le h'))

  parse_filters-Places :
      (fuel : ℕ) (p : Parser)
      → IsAt input p
      → Places input (Behind input) (parse_filters is_utf8 fuel p)
  unfolding parse_filters
  parse_filters-Places zero p h = tt
  parse_filters-Places (suc fuel) p h =
      let q = skip_ws p in
      let at_q = skip_ws-IsAt input p h in
      Places-if input (Behind input) (stops b')' q.rest) _ _ (λ e. at_q)
        (λ e.
          Places-bind input (Behind input) (Behind input) (parse_filter is_utf8 q) _
            (parse_filter-Places q at_q)
            (λ r h₁.
              Places-bind input (Behind input) (Behind input)
                (parse_filters is_utf8 fuel (try_byte b',' r.1).1) _
                (parse_filters-Places fuel (try_byte b',' r.1).1 (try_byte-IsAt input b',' r.1 h₁))
                (λ r' h₂. h₂)))

  alias_in-Places :
      (b : Bool) (p : Parser) → IsAt input p → Places input (Behind input) (alias_in is_utf8 (b, p))
  alias_in-Places true p h =
      Places-bind input (Behind input) (Behind input) (parse_name is_utf8 p) _
        (parse_name-Places input is_utf8 p h) (λ r left. left)
  alias_in-Places false p h = h

  parse_alias-Places :
      (p : Parser) → IsAt input p → Places input (Behind input) (parse_alias is_utf8 p)
  unfolding parse_alias
  parse_alias-Places p h =
      alias_in-Places (try_keyword as_word p).0 (try_keyword as_word p).1
        (try_keyword-IsAt input as_word p h)

  filters_in-Places :
      (b : Bool) (p : Parser)
      → IsAt input p
      → Places input (Behind input) (filters_in is_utf8 (b, p))
  filters_in-Places true p h =
      Places-bind input (Behind input) (Behind input) (parse_filters is_utf8 (length p.rest + 1) p)
        _ (parse_filters-Places (length p.rest + 1) p h)
        (λ r h₁.
          Places-bind input (IsAt input) (Behind input) (expect b')' r.1) _
            (expect-Places input b')' r.1 h₁) (λ p' h₂. h₂))
  filters_in-Places false p h = h

  parse_filter_list-Places :
      (p : Parser) → IsAt input p → Places input (Behind input) (parse_filter_list is_utf8 p)
  unfolding parse_filter_list
  parse_filter_list-Places p h =
      filters_in-Places (try_byte b'(' p).0 (try_byte b'(' p).1 (try_byte-IsAt input b'(' p h)

  subselects_in-Places :
      (k : Parser → Outcome (Selects × Parser)) (b : Bool) (p : Parser)
      → IsAt input p
      → Places input (Behind input) (k p)
      → Places input (Behind input) (subselects_in is_utf8 k (b, p))
  subselects_in-Places k true p h hk =
      Places-bind input (Behind input) (Behind input) (k p) _ hk (λ r h₁.
        Places-bind input (IsAt input) (Behind input) (expect b'}' r.1) _
          (expect-Places input b'}' r.1 h₁) (λ p' h₂. h₂))
  subselects_in-Places k false p h hk = h

  mutual
    unfolding parse_selects parse_select

    parse_selects-Places :
        (terminator fuel : ℕ) (p : Parser)
        → IsAt input p
        → Places input (Behind input) (parse_selects is_utf8 terminator fuel p)
    parse_selects-Places terminator zero p h = tt
    parse_selects-Places terminator (suc fuel) p h =
        let q = skip_ws p in
        let at_q = skip_ws-IsAt input p h in
        Places-if input (Behind input) (stops terminator q.rest) _ _ (λ e. at_q)
          (λ e.
            Places-bind input (Behind input) (Behind input) (parse_select is_utf8 fuel q) _
              (parse_select-Places fuel q at_q)
              (λ r h₁.
                Places-bind input (Behind input) (Behind input)
                  (parse_selects is_utf8 terminator fuel (try_byte b',' r.1).1) _
                  (parse_selects-Places terminator fuel (try_byte b',' r.1).1
                    (try_byte-IsAt input b',' r.1 h₁))
                  (λ r' h₂. h₂)))

    parse_select-Places :
        (fuel : ℕ) (p : Parser)
        → IsAt input p
        → Places input (Behind input) (parse_select is_utf8 fuel p)
    parse_select-Places zero p h = tt
    parse_select-Places (suc fuel) p h =
        Places-bind input (Behind input) (Behind input) (parse_name is_utf8 p) _
          (parse_name-Places input is_utf8 p h)
          (λ r₁ h₁.
            Places-bind input (Behind input) (Behind input) (parse_alias is_utf8 r₁.1) _
              (parse_alias-Places r₁.1 h₁)
              (λ r₂ h₂.
                Places-bind input (Behind input) (Behind input) (parse_filter_list is_utf8 r₂.1) _
                  (parse_filter_list-Places r₂.1 h₂)
                  (λ r₃ h₃.
                    let brace = try_byte b'{' r₃.1 in
                    let at_brace = try_byte-IsAt input b'{' r₃.1 h₃ in
                    Places-bind input (Behind input) (Behind input)
                      (subselects_in is_utf8 (parse_selects is_utf8 b'}' fuel) brace) _
                      (subselects_in-Places (parse_selects is_utf8 b'}' fuel) brace.0 brace.1
                        at_brace (parse_selects-Places b'}' fuel brace.1 at_brace))
                      (λ r₄ h₄. h₄))))

  end_of_input-Places :
      (s : Selects) (bs : Bytes) (pos : ℕ)
      → IsAt input (at bs pos)
      → Places input (λ q. Unit {0}) (end_of_input is_utf8 s bs pos)
  end_of_input-Places s [] pos h = tt
  end_of_input-Places s (b ∷ bs) pos h = placed input b bs pos h

  -- Where `parse_query` ends with an error, its position is in the input or at its end; and an
  -- unexpected character is the byte at that position, unless it is the question mark, which
  -- stands for text that is no UTF-8 and for a number that is too large.
  pub parse_query-Places : Places input (λ q. Unit {0}) (parse_query is_utf8 input)
  unfolding parse_query
  parse_query-Places =
      Places-bind input (IsAt input) (λ q. Unit {0}) (expect b'{' (at input 0)) _
        (expect-Places input b'{' (at input 0) (record { rest_is = refl; pos_le = omega arith }))
        (λ p h.
          Places-bind input (Behind input) (λ q. Unit {0})
            (parse_selects is_utf8 b'}' (2 * length input + 2) p) _
            (parse_selects-Places b'}' (2 * length input + 2) p h)
            (λ r h₁.
              Places-bind input (IsAt input) (λ q. Unit {0}) (expect b'}' r.1) _
                (expect-Places input b'}' r.1 h₁)
                (λ p₂ h₂.
                  end_of_input-Places r.0 (skip_ws p₂).rest (skip_ws p₂).pos
                    (skip_ws-IsAt input p₂ h₂))))
