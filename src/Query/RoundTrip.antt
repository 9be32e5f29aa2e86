-- ===== src/Query/RoundTrip.antt =====
-- The parser on the text of a query.
use cdoc.Prelude.{
  ℕ, zero, suc, ◌+◌, ◌*◌, ◌≤◌, ◌≡◌, refl, arith, List, [], ◌∷◌, Bytes, All, length, length-append,
  Bool, false, Option, none, some,
}
use cdoc.Mutation.{Segment}
use cdoc.Query.{Filter, Select, select, Selects, end, entry, Query}
use cdoc.Query.Parse.{
  ok, at, advance, skip_ws, expect, try_byte, stops, parse_name, parse_alias, parse_filter_list,
  subselects_in, parse_selects, parse_select, parse_query,
}
use cdoc.Query.Print.{
  print_name, print_filter_list, print_alias, print_selects, print_select, print_block, print,
}
use cdoc.Query.Reads.{
  Reads, Reads-bind, IsName, IsFilter, IsAlias, AcceptsWords, parse_name-print_name,
  parse_alias-print_alias, parse_filter_list-print_filter_list, length-print_name,
  length-print_filters,
}

module _ (is_utf8 : Bytes → Bool) where
  -- Names that quotes can hold, and numbers of 64 bits.
  unfoldable mutual
    pub ArePrintable : Selects → Type 0
    ArePrintable end = Unit
    ArePrintable (entry s ss) = IsPrintable s × ArePrintable ss

    pub IsPrintable : Select → Type 0
    IsPrintable (select name alias filters subselects) =
        IsName is_utf8 name
        × IsAlias is_utf8 alias
        × All (IsFilter is_utf8) filters
        × ArePrintable subselects

  -- The calls that the parser makes for a query, one inside or behind the other.
  mutual
    calls : Selects → ℕ
    calls end = 1
    calls (entry s ss) = suc (calls_of s + calls ss)

    calls_of : Select → ℕ
    calls_of (select name alias filters subselects) = suc (calls subselects)

  print_select_starts :
      (s : Select) (pos : ℕ) (rest : Bytes)
      → IsPrintable s
      → (skip_ws (at (print_select s rest) pos) ≡ at (print_select s rest) pos)
        × (stops b'}' (print_select s rest) ≡ false)
  unfolding skip_ws advance print_select IsPrintable
  print_select_starts (select (Segment.field n) alias filters subselects) pos rest h = (refl, refl)
  print_select_starts (select (Segment.fractional_index i) alias filters subselects) pos rest h =
      absurd h.0

  -- The braces around selections, or nothing, where the selections themselves are read.
  subselects_in-print_block :
      (ss : Selects) (fuel pos : ℕ) (rest : Bytes)
      → ((pos' : ℕ) (rest' : Bytes)
          → Reads
              (parse_selects is_utf8 b'}' fuel (at (print_selects ss (b'}' ∷ rest')) pos'))
              ss
              (b'}' ∷ rest'))
      → Reads
          (subselects_in is_utf8
            (parse_selects is_utf8 b'}' fuel)
            (try_byte b'{' (at (print_block ss (b',' ∷ rest)) pos)))
          ss
          (b',' ∷ rest)
  unfolding print_selects print_block try_byte skip_ws advance expect
  subselects_in-print_block end fuel pos rest inner = record { end_pos = pos; reads = refl }
  subselects_in-print_block (entry s ss) fuel pos rest inner =
      Reads-bind
        (parse_selects is_utf8 b'}' fuel
          (at (print_selects (entry s ss) (b'}' ∷ b',' ∷ rest)) (pos + 1)))
        _ (entry s ss) (entry s ss) (b'}' ∷ b',' ∷ rest) (b',' ∷ rest)
        (inner (pos + 1) (b',' ∷ rest)) (λ p. record { end_pos = p + 1; reads = refl })

  module _ (words : AcceptsWords is_utf8) where
    mutual
      unfolding parse_selects parse_select print_selects print_select print_block ArePrintable
          IsPrintable calls calls_of try_byte skip_ws advance expect

      parse_selects-print_selects :
          (ss : Selects) (fuel pos : ℕ) (rest : Bytes)
          → ArePrintable ss
          → calls ss ≤ fuel
          → Reads
              (parse_selects is_utf8 b'}' fuel (at (print_selects ss (b'}' ∷ rest)) pos))
              ss
              (b'}' ∷ rest)
      parse_selects-print_selects end zero pos rest h enough = absurd (omega (arith, enough))
      parse_selects-print_selects (entry s ss) zero pos rest h enough =
          absurd (omega (arith, enough))
      parse_selects-print_selects end (suc fuel) pos rest h enough = record {
        end_pos = pos;
        reads = refl;
      }
      parse_selects-print_selects (entry s ss) (suc fuel) pos rest h enough =
          let later = print_selects ss (b'}' ∷ rest) in
          let starts = print_select_starts s pos (b',' ∷ later) h.0 in
          rw starts.0 (
            rw starts.1 (
              Reads-bind (parse_select is_utf8 fuel (at (print_select s (b',' ∷ later)) pos)) _ s
                (entry s ss) (b',' ∷ later) (b'}' ∷ rest)
                (parse_select-print_select s fuel pos later h.0 (omega (arith, enough)))
                (λ p.
                  Reads-bind (parse_selects is_utf8 b'}' fuel (at later (p + 1))) _ ss (entry s ss)
                    (b'}' ∷ rest) (b'}' ∷ rest)
                    (parse_selects-print_selects ss fuel (p + 1) rest h.1 (omega (arith, enough)))
                    (λ p'. record { end_pos = p'; reads = refl }))))

      parse_select-print_select :
          (s : Select) (fuel pos : ℕ) (rest : Bytes)
          → IsPrintable s
          → calls_of s ≤ fuel
          → Reads
              (parse_select is_utf8 fuel (at (print_select s (b',' ∷ rest)) pos))
              s
              (b',' ∷ rest)
      parse_select-print_select (select name alias filters ss) zero pos rest h enough =
          absurd (omega (arith, enough))
      parse_select-print_select (select name alias filters ss) (suc fuel) pos rest h enough =
          let s = select name alias filters ss in
          let third = print_block ss (b',' ∷ rest) in
          let second = print_filter_list filters third in
          let first = print_alias alias second in
          Reads-bind (parse_name is_utf8 (at (print_name name first) pos)) _ name s first
            (b',' ∷ rest) (parse_name-print_name is_utf8 name pos first h.0)
            (λ p₁.
              Reads-bind (parse_alias is_utf8 (at first p₁)) _ alias s second (b',' ∷ rest)
                (parse_alias-print_alias is_utf8 words alias filters ss p₁ rest h.1)
                (λ p₂.
                  Reads-bind (parse_filter_list is_utf8 (at second p₂)) _ filters s third
                    (b',' ∷ rest)
                    (parse_filter_list-print_filter_list is_utf8 words filters ss p₂ rest h.2)
                    (λ p₃.
                      Reads-bind
                        (subselects_in is_utf8 (parse_selects is_utf8 b'}' fuel)
                          (try_byte b'{' (at third p₃)))
                        _ ss s (b',' ∷ rest) (b',' ∷ rest)
                        (subselects_in-print_block ss fuel p₃ rest (λ pos' rest'.
                          parse_selects-print_selects ss fuel pos' rest' h.3
                            (omega (arith, enough))))
                        (λ p₄. record { end_pos = p₄; reads = refl }))))

  calls_block :
      (ss : Selects) (rest : Bytes)
      → ((rest' : Bytes) → calls ss + 2 * length rest' ≤ 2 * length (print_selects ss rest') + 1)
      → calls ss + 2 * length rest ≤ 2 * length (print_block ss rest) + 1
  unfolding calls print_selects print_block
  calls_block end rest inner = omega arith
  calls_block (entry s ss) rest inner = omega (arith, inner (b'}' ∷ rest))

  length-print_quoted :
      (s : Segment) (rest : Bytes) → IsName is_utf8 s → length rest + 2 ≤ length (print_name s rest)
  length-print_quoted (Segment.field s) rest h = omega (arith, length-append s (b'"' ∷ rest))
  length-print_quoted (Segment.fractional_index i) rest h = absurd h

  length-print_alias :
      (alias : Option Segment) (rest : Bytes) → length rest ≤ length (print_alias alias rest)
  length-print_alias none rest = omega arith
  length-print_alias (some s) rest = omega (arith, length-print_name s rest)

  length-print_filter_list :
      (fs : List Filter) (rest : Bytes) → length rest ≤ length (print_filter_list fs rest)
  length-print_filter_list [] rest = omega arith
  length-print_filter_list (f ∷ fs) rest =
      omega (arith, length-print_filters (f ∷ fs) (b')' ∷ rest))

  -- Each call stands for a byte of the text, or for half of one.
  mutual
    unfolding calls calls_of print_selects print_select print_block IsPrintable ArePrintable

    calls_enough :
        (ss : Selects) (rest : Bytes)
        → ArePrintable ss
        → calls ss + 2 * length rest ≤ 2 * length (print_selects ss rest) + 1
    calls_enough end rest h = omega arith
    calls_enough (entry s ss) rest h =
        omega
          (arith, calls_of_enough s (b',' ∷ print_selects ss rest) h.0, calls_enough ss rest h.1)

    calls_of_enough :
        (s : Select) (rest : Bytes)
        → IsPrintable s
        → calls_of s + 2 * length rest ≤ 2 * length (print_select s rest)
    calls_of_enough (select name alias filters ss) rest h =
        let third = print_block ss rest in
        let second = print_filter_list filters third in
        omega (
          arith,
          calls_block ss rest (λ rest'. calls_enough ss rest' h.3),
          length-print_filter_list filters third,
          length-print_alias alias second,
          length-print_quoted name (print_alias alias second) h.0,
        )

  -- `parse_query` reads the text that `print` makes of a query as that query: names in quotes,
  -- aliases behind `as`, filters in parentheses, selections in braces, a comma behind each. The
  -- names are fields without a quote in them that `from_utf8` accepts, as it does the four
  -- keywords of filters, and the numbers are below 2 ^ 64.
  pub parse_query-print :
      (q : Query)
      → AcceptsWords is_utf8
      → ArePrintable q.selects
      → parse_query is_utf8 (print q) ≡ ok q
  unfolding parse_query print expect skip_ws advance
  parse_query-print q words h =
      let ss = q.selects in
      let text = print_selects ss (b'}' ∷ []) in
      let r =
        parse_selects-print_selects words ss (2 * suc (length text) + 2) 1 [] h
          (omega (arith, calls_enough ss (b'}' ∷ []) h)) in
      rw r.reads refl
