-- ===== src/Examples/Queries.antt =====
-- A query with an alias, filters and selections inside a selection.
use cdoc.Prelude.{
  [], ◌∷◌, ◌≡◌, refl, arith, Bytes, Bool, true, false, none, some, ltb, length, eq, ◌↔◌,
}
use cdoc.Varint.{found}
use cdoc.Mutation.{Segment, fractional_index, Mutations, apply, nested, compose, assign, delete}
use cdoc.Mutation.Macro
use cdoc.Mutation.Macro.{mutation}
use cdoc.Mutation.Macro.Tokens as MutationTokens
use cdoc.Mutation.Macro.Tokens.{mutation-tokens}
use cdoc.Mutation.Order.{cmp_segment, cmp_segment-eq, from_string, from_bytes, AreTwins}
use cdoc.Examples.Paths.{as_is}
use cdoc.Query.Macro.{query, cons, nil, braces}
use cdoc.Query.Macro.Tokens.{tokens, query-tokens}
use cdoc.Query.{Query, select, end, entry, skip, after}
use cdoc.Query.Parse.{ok, parse_query}
use cdoc.Query.Shrinks.{Ends}
use cdoc.Query.Ends.{parse_query-Ends}
use cdoc.Query.Positions.{Places}
use cdoc.Query.Placed.{parse_query-Places}
use cdoc.Query.Print.{print}
use cdoc.Query.RoundTrip.{ArePrintable, parse_query-print}

abbrev any : Bytes → Bool
any s = true

abbrev users : Query
users = record {
  selects =
      entry
        (select (Segment.field (b'u' ∷ [])) (some (Segment.field (b'v' ∷ [])))
          (skip 10 ∷ after (Segment.field (b'k' ∷ [])) ∷ [])
          (entry (select (Segment.field (b'n' ∷ [])) none [] end) end))
        (entry (select (Segment.field []) none [] end) end);
}

users-ArePrintable : ArePrintable any users.selects
unfolding ArePrintable
users-ArePrintable = ground arith

parse_query-print_example : parse_query any (print users) ≡ ok users
parse_query-print_example = parse_query-print any users (refl, refl, refl, refl) users-ArePrintable

parse_query-Ends_example : Ends (λ q. Unit {0}) (parse_query any (b'{' ∷ b'a' ∷ b'}' ∷ []))
parse_query-Ends_example = parse_query-Ends any (b'{' ∷ b'a' ∷ b'}' ∷ [])

parse_query-Places_example :
    Places (b'{' ∷ b'a' ∷ b'!' ∷ []) (λ q. Unit {0}) (parse_query any (b'{' ∷ b'a' ∷ b'!' ∷ []))
parse_query-Places_example = parse_query-Places (b'{' ∷ b'a' ∷ b'!' ∷ []) any

-- Names without quotes where they are not empty.
abbrev bare : Bytes → Bool
bare s = ltb 0 (length s)

query-tokens_example : query (cons (braces (tokens bare true users.selects)) nil) ≡ found users
query-tokens_example = query-tokens bare true users (ground arith)

-- An assignment and a deletion below a key.
abbrev as_text : Bytes → Bytes
as_text s = s

abbrev entries : Mutations Bytes as_is
entries =
    Mutations.entry
      (nested (Segment.field (b'u' ∷ [])) (
        Mutations.entry (apply (Segment.field (b'n' ∷ [])) (assign (1 ∷ [])))
          (Mutations.entry (apply (fractional_index (1 ∷ [])) delete) Mutations.end)))
      Mutations.end

mutation-tokens_example :
    mutation Bytes as_is as_text (
      Macro.cons (Macro.braces (MutationTokens.tokens Bytes as_is as_text false entries)) Macro.nil)
    ≡ found (compose entries)
mutation-tokens_example = mutation-tokens Bytes as_is as_text false entries (ground arith)

cmp_segment-eq_example :
    (cmp_segment (from_string (b'u' ∷ [])) (from_bytes (b'u' ∷ [])) ≡ eq)
    ↔ AreTwins (from_string (b'u' ∷ [])) (from_bytes (b'u' ∷ []))
cmp_segment-eq_example = cmp_segment-eq (from_string (b'u' ∷ [])) (from_bytes (b'u' ∷ []))
