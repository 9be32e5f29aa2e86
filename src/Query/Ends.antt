-- ===== src/Query/Ends.antt =====
-- The end of the parser: what each loop and each recursive call takes of the input.
use cdoc.Prelude.{
  ℕ, zero, suc, ◌+◌, ◌-◌, ◌*◌, ◌≤◌, ◌<◌, ◌≡◌, ◌≢◌, arith, [], ◌∷◌, Bytes, length, Bool, true, false,
  subst,
}
use cdoc.Mutation.{Segment}
use cdoc.Query.{Filter, skip, take_n, after, before, Selects}
use cdoc.Query.Parse.{
  Outcome, is_same, skip_word, take_word, after_word, before_word, as_word, ok, stuck, ◌>>=◌,
  Parser, at, is_word_start, advance, skip_ws, expect, try_byte, try_keyword, parse_number,
  from_utf8, parse_name, filter_of, parse_filter, stops, parse_filters, alias_in, parse_alias,
  filters_in, parse_filter_list, subselects_in, parse_selects, parse_select, end_of_input,
  parse_query,
}
use cdoc.Query.Shrinks.{
  Ends, Left, Leaves, Ends-bind, Ends-if, length-advance, length-skip_ws, expect-Ends,
  try_byte-Left, try_keyword-Left, parse_number-Ends, from_utf8-Ends, parse_name-Ends,
}

module _ (is_utf8 : Bytes → Bool) where
  filter_of-Ends :
      (n : ℕ) (kw : Bytes) (pos : ℕ) (p : Parser)
      → Left n p
      → Ends (Leaves n) (filter_of is_utf8 kw pos p)
  unfolding filter_of
  filter_of-Ends n kw pos p h =
      let number : (make : ℕ → Filter)
          → Ends (Leaves n) (parse_number p >>= λ (i, p'). ok (make i, p')) =
        λ make.
          Ends-bind (Leaves n) (Leaves n) (parse_number p) _ (parse_number-Ends n p h)
            (λ r left. left) in
      let name : (make : Segment → Filter)
          → Ends (Leaves n) (parse_name is_utf8 p >>= λ (s, p'). ok (make s, p')) =
        λ make.
          Ends-bind (Leaves n) (Leaves n) (parse_name is_utf8 p) _
            (parse_name-Ends is_utf8 n p (omega (arith, h))) (λ r left. left) in
      Ends-if (Leaves n) (is_same kw skip_word) _ _ (λ e. number skip)
        (λ e.
          Ends-if (Leaves n) (is_same kw take_word) _ _ (λ e. number take_n)
            (λ e.
              Ends-if (Leaves n) (is_same kw after_word) _ _ (λ e. name after)
                (λ e.
                  Ends-if (Leaves n) (is_same kw before_word) _ _ (λ e. name before) (λ e. tt))))

  parse_filter-Ends :
      (n : ℕ) (p : Parser) → Left (suc n) p → Ends (Leaves n) (parse_filter is_utf8 p)
  unfolding parse_filter
  parse_filter-Ends n p h =
      let q = skip_ws p in
      let p₁ = advance is_word_start q.rest q.pos in
      Ends-bind (λ s. Unit {0}) (Leaves n) (from_utf8 is_utf8 _ q.pos) _
        (from_utf8-Ends is_utf8 _ q.pos)
        (λ kw u.
          Ends-bind (Left n) (Leaves n) (expect b':' p₁) _
            (expect-Ends n b':' p₁
              (omega (arith, h, length-skip_ws p, length-advance is_word_start q.rest q.pos)))
            (λ p' left. filter_of-Ends n kw p.pos p' left))

  stops-positive : (terminator : ℕ) (bs : Bytes) → stops terminator bs ≡ false → 0 < length bs
  stops-positive terminator [] h = cc
  stops-positive terminator (b ∷ bs) h = omega arith

  -- The fuel of a round and what is left of it: the element takes a byte, the comma may take another.
  parse_filters-Ends :
      (n fuel : ℕ) (p : Parser)
      → Left n p
      → length p.rest < fuel
      → Ends (Leaves n) (parse_filters is_utf8 fuel p)
  unfolding parse_filters
  parse_filters-Ends n zero p h enough = absurd (omega (arith, enough))
  parse_filters-Ends n (suc fuel) p h enough =
      let q = skip_ws p in
      let m = length q.rest - 1 in
      let size = length-skip_ws p in
      Ends-if (Leaves n) (stops b')' q.rest) _ _ (λ e. omega (arith, h, size))
        (λ e.
          let some_left = stops-positive b')' q.rest e in
          Ends-bind (Leaves m) (Leaves n) (parse_filter is_utf8 q) _
            (parse_filter-Ends m q (omega (arith, some_left)))
            (λ r left.
              let next = try_byte-Left b',' r.1 in
              Ends-bind (Leaves n) (Leaves n) (parse_filters is_utf8 fuel (try_byte b',' r.1).1) _
                (parse_filters-Ends n fuel (try_byte b',' r.1).1
                  (omega (arith, next, left, h, size))
                  (omega (arith, next, left, enough, size, some_left)))
                (λ r' left'. left')))

  alias_in-Ends :
      (n : ℕ) (b : Bool) (p : Parser) → Left n p → Ends (Leaves n) (alias_in is_utf8 (b, p))
  alias_in-Ends n true p h =
      Ends-bind (Leaves n) (Leaves n) (parse_name is_utf8 p) _
        (parse_name-Ends is_utf8 n p (omega (arith, h))) (λ r left. left)
  alias_in-Ends n false p h = h

  parse_alias-Ends : (n : ℕ) (p : Parser) → Left n p → Ends (Leaves n) (parse_alias is_utf8 p)
  unfolding parse_alias
  parse_alias-Ends n p h =
      let r = try_keyword as_word p in
      alias_in-Ends n r.0 r.1 (omega (arith, h, try_keyword-Left as_word p))

  filters_in-Ends :
      (n : ℕ) (b : Bool) (p : Parser) → Left n p → Ends (Leaves n) (filters_in is_utf8 (b, p))
  filters_in-Ends n true p h =
      Ends-bind (Leaves n) (Leaves n) (parse_filters is_utf8 (length p.rest + 1) p) _
        (parse_filters-Ends n (length p.rest + 1) p h (omega arith))
        (λ r left.
          Ends-bind (Left n) (Leaves n) (expect b')' r.1) _
            (expect-Ends n b')' r.1 (omega (arith, left))) (λ p' left'. left'))
  filters_in-Ends n false p h = h

  parse_filter_list-Ends :
      (n : ℕ) (p : Parser) → Left n p → Ends (Leaves n) (parse_filter_list is_utf8 p)
  unfolding parse_filter_list
  parse_filter_list-Ends n p h =
      let r = try_byte b'(' p in filters_in-Ends n r.0 r.1 (omega (arith, h, try_byte-Left b'(' p))

  subselects_in-Ends :
      (n : ℕ) (k : Parser → Outcome (Selects × Parser)) (b : Bool) (p : Parser)
      → Left n p
      → Ends (Leaves n) (k p)
      → Ends (Leaves n) (subselects_in is_utf8 k (b, p))
  subselects_in-Ends n k true p h ends = Ends-bind (Leaves n) (Leaves n) (k p) _ ends (λ r left.
      Ends-bind (Left n) (Leaves n) (expect b'}' r.1) _
        (expect-Ends n b'}' r.1 (omega (arith, left))) (λ p' left'. left'))
  subselects_in-Ends n k false p h ends = h

  mutual
    unfolding parse_selects parse_select

    parse_selects-Ends :
        (terminator n fuel : ℕ) (p : Parser)
        → Left n p
        → 2 * length p.rest < fuel
        → Ends (Leaves n) (parse_selects is_utf8 terminator fuel p)
    parse_selects-Ends terminator n zero p h enough = absurd (omega (arith, enough))
    parse_selects-Ends terminator n (suc fuel) p h enough =
        let q = skip_ws p in
        let m = length q.rest - 1 in
        let size = length-skip_ws p in
        Ends-if (Leaves n) (stops terminator q.rest) _ _ (λ e. omega (arith, h, size))
          (λ e.
            let some_left = stops-positive terminator q.rest e in
            Ends-bind (Leaves m) (Leaves n) (parse_select is_utf8 fuel q) _
              (parse_select-Ends m fuel q (omega (arith, some_left)) (omega (arith, enough, size))
                some_left)
              (λ r left.
                let next = try_byte-Left b',' r.1 in
                Ends-bind (Leaves n) (Leaves n)
                  (parse_selects is_utf8 terminator fuel (try_byte b',' r.1).1) _
                  (parse_selects-Ends terminator n fuel (try_byte b',' r.1).1
                    (omega (arith, next, left, h, size))
                    (omega (arith, next, left, enough, size, some_left)))
                  (λ r' left'. left')))

    parse_select-Ends :
        (n fuel : ℕ) (p : Parser)
        → Left (suc n) p
        → 2 * length p.rest ≤ fuel
        → 0 < length p.rest
        → Ends (Leaves n) (parse_select is_utf8 fuel p)
    parse_select-Ends n zero p h enough positive = absurd (omega (arith, enough, positive))
    parse_select-Ends n (suc fuel) p h enough positive =
        let m = length p.rest - 1 in
        Ends-bind (Leaves m) (Leaves n) (parse_name is_utf8 p) _
          (parse_name-Ends is_utf8 m p (omega (arith, positive)))
          (λ r₁ left₁.
            Ends-bind (Leaves m) (Leaves n) (parse_alias is_utf8 r₁.1) _
              (parse_alias-Ends m r₁.1 left₁)
              (λ r₂ left₂.
                Ends-bind (Leaves m) (Leaves n) (parse_filter_list is_utf8 r₂.1) _
                  (parse_filter_list-Ends m r₂.1 left₂)
                  (λ r₃ left₃.
                    let brace = try_byte b'{' r₃.1 in
                    let left₄ : Left m brace.1 = omega (arith, left₃, try_byte-Left b'{' r₃.1) in
                    Ends-bind (Leaves m) (Leaves n)
                      (subselects_in is_utf8 (parse_selects is_utf8 b'}' fuel) brace) _
                      (subselects_in-Ends m (parse_selects is_utf8 b'}' fuel) brace.0 brace.1 left₄
                        (parse_selects-Ends b'}' m fuel brace.1 left₄
                          (omega (arith, left₄, enough, positive))))
                      (λ r₄ left₅. omega (arith, left₅, h)))))

  end_of_input-Ends :
      (s : Selects) (bs : Bytes) (pos : ℕ) → Ends (λ q. Unit {0}) (end_of_input is_utf8 s bs pos)
  end_of_input-Ends s [] pos = tt
  end_of_input-Ends s (b ∷ bs) pos = tt

  -- `parse_query` ends on every input, with a query or an error, whatever `from_utf8` accepts.
  pub parse_query-Ends : (input : Bytes) → Ends (λ q. Unit {0}) (parse_query is_utf8 input)
  unfolding parse_query
  parse_query-Ends input =
      let n = length input in
      Ends-bind (Left n) (λ q. Unit {0}) (expect b'{' (at input 0)) _
        (expect-Ends n b'{' (at input 0) (omega arith))
        (λ p left.
          Ends-bind (Leaves n) (λ q. Unit {0}) (parse_selects is_utf8 b'}' (2 * n + 2) p) _
            (parse_selects-Ends b'}' n (2 * n + 2) p left (omega (arith, left)))
            (λ r left₁.
              Ends-bind (Left n) (λ q. Unit {0}) (expect b'}' r.1) _
                (expect-Ends n b'}' r.1 (omega (arith, left₁)))
                (λ p₂ left₂. end_of_input-Ends r.0 (skip_ws p₂).rest (skip_ws p₂).pos)))

  -- The same as an equation.
  pub parse_query_returns : (input : Bytes) → parse_query is_utf8 input ≢ stuck
  parse_query_returns input h = subst (Ends (λ q. Unit {0})) h (parse_query-Ends input)
