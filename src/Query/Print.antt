-- ===== src/Query/Print.antt =====
-- The text of a query: names in quotes, a comma behind each selection and each filter. A text is
-- built in front of what follows it.
use cdoc.Prelude.{List, [], ◌∷◌, ◌++◌, Bytes, Option, none, some}
use cdoc.Mutation.{Segment}
use cdoc.Query.{Filter, skip, take_n, after, before, Select, select, Selects, end, entry, Query}
use cdoc.Query.Digits.{digits}

abbrev pub print_name : Segment → Bytes → Bytes
print_name (Segment.field s) rest = b'"' ∷ (s ++ b'"' ∷ rest)
print_name (Segment.fractional_index i) rest = rest

abbrev pub print_filter : Filter → Bytes → Bytes
print_filter (skip n) rest = b's' ∷ b'k' ∷ b'i' ∷ b'p' ∷ b':' ∷ (digits n ++ rest)
print_filter (take_n n) rest = b't' ∷ b'a' ∷ b'k' ∷ b'e' ∷ b':' ∷ (digits n ++ rest)
print_filter (after s) rest = b'a' ∷ b'f' ∷ b't' ∷ b'e' ∷ b'r' ∷ b':' ∷ print_name s rest
print_filter (before s) rest = b'b' ∷ b'e' ∷ b'f' ∷ b'o' ∷ b'r' ∷ b'e' ∷ b':' ∷ print_name s rest

abbrev pub print_filters : List Filter → Bytes → Bytes
print_filters [] rest = rest
print_filters (f ∷ fs) rest = print_filter f (b',' ∷ print_filters fs rest)

abbrev pub print_filter_list : List Filter → Bytes → Bytes
print_filter_list [] rest = rest
print_filter_list (f ∷ fs) rest = b'(' ∷ print_filters (f ∷ fs) (b')' ∷ rest)

abbrev pub print_alias : Option Segment → Bytes → Bytes
print_alias none rest = rest
print_alias (some s) rest = b' ' ∷ b'a' ∷ b's' ∷ b' ' ∷ print_name s rest

unfoldable mutual
  pub print_selects : Selects → Bytes → Bytes
  print_selects end rest = rest
  print_selects (entry s ss) rest = print_select s (b',' ∷ print_selects ss rest)

  pub print_select : Select → Bytes → Bytes
  print_select (select name alias filters subselects) rest =
      print_name name (print_alias alias (print_filter_list filters (print_block subselects rest)))

  pub print_block : Selects → Bytes → Bytes
  print_block end rest = rest
  print_block (entry s ss) rest = b'{' ∷ print_select s (b',' ∷ print_selects ss (b'}' ∷ rest))

unfoldable pub print : Query → Bytes
unfolding print_selects
print q = b'{' ∷ print_selects q.selects (b'}' ∷ [])
