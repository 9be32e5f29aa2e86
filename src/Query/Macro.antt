-- ===== src/Query/Macro.antt =====
-- src/query/mod.rs: the macro `query!`, as a function on token trees. `absent` stands for tokens
-- that no rule matches, or whose expansion has a wrong type: they do not compile.
pub mod Tokens
use cdoc.Prelude.{ℕ, zero, suc, ◌+◌, List, [], ◌∷◌, Bytes, Option, none, some, if◌then◌else◌}
use cdoc.Varint.{Parsed, found, absent, stuck, ◌>>=◌}
use cdoc.Mutation.{Segment}
use cdoc.Query.{Filter, skip, take_n, after, before, Select, select, Selects, end, entry, Query}
use cdoc.Query.Parse.{skip_word, take_word, after_word, before_word, as_word, is_same}

-- An identifier, a string in quotes, and the values of other expressions: a `usize`, or what
-- `Segment::from` takes.
mutual
  pub data Tree : Type 0 where
    ident : Bytes → Tree
    literal : Bytes → Tree
    number : ℕ → Tree
    value : Segment → Tree
    comma : Tree
    colon : Tree
    parens : Trees → Tree
    braces : Trees → Tree

  pub data Trees : Type 0 where
    nil : Trees
    cons : Tree → Trees → Trees

-- `$n:expr` as a `usize`, and `$v:expr` for `Segment::from`.
abbrev pub usize_of : Tree → Parsed ℕ
usize_of (number n) = found n
usize_of (ident s) = absent
usize_of (literal s) = absent
usize_of (value s) = absent
usize_of comma = absent
usize_of colon = absent
usize_of (parens t) = absent
usize_of (braces t) = absent

abbrev pub segment_of : Tree → Parsed Segment
segment_of (value s) = found s
segment_of (literal s) = found (Segment.field s)
segment_of (ident s) = absent
segment_of (number n) = absent
segment_of comma = absent
segment_of colon = absent
segment_of (parens t) = absent
segment_of (braces t) = absent

-- The rules `skip : $n:expr`, `take`, `after` and `before`.
unfoldable pub filter_of : Bytes → Tree → Parsed Filter
unfolding is_same
filter_of kw e =
    if is_same kw skip_word
    then (do n ← usize_of e; found (skip n))
    else if is_same kw take_word
    then (do n ← usize_of e; found (take_n n))
    else if is_same kw after_word
    then (do s ← segment_of e; found (after s))
    else if is_same kw before_word
    then (do s ← segment_of e; found (before s))
    else absent

-- `@__filter_list`
unfoldable pub filter_list : Trees → Parsed (List Filter)
unfolding filter_of
filter_list nil = found []
filter_list (cons (ident kw) (cons colon (cons e nil))) = filter_of kw e >>= λ f. found (f ∷ [])
filter_list (cons (ident kw) (cons colon (cons e (cons comma rest)))) =
    filter_of kw e >>= λ f. filter_list rest >>= λ fs. found (f ∷ fs)
filter_list _ = absent

-- A name or an alias: `$name:ident` with `stringify!`, or `$name:literal`.
unfoldable pub name_of : Tree → Parsed Segment
name_of (ident s) = found (Segment.field s)
name_of (literal s) = found (Segment.field s)
name_of _ = absent

-- `@__alias`: the alias, and the tokens behind it. No later rule takes an `as` that is left.
unfoldable pub alias_of : Trees → Parsed (Option Segment × Trees)
unfolding name_of is_same
alias_of (cons (ident w) (cons e rest)) =
    if is_same w as_word
    then (do s ← name_of e; found (some s, rest))
    else found (none, cons (ident w) (cons e rest))
alias_of ts = found (none, ts)

-- `@__filters`
unfoldable pub filters_of : Trees → Parsed (List Filter × Trees)
unfolding filter_list
filters_of (cons (parens body) rest) = do fs ← filter_list body; found (fs, rest)
filters_of ts = found ([], ts)

-- `@__subselects`; `k` is `@__selects`.
unfoldable pub subselects_of : (Trees → Parsed Selects) → Trees → Parsed (Selects × Trees)
subselects_of k (cons (braces inner) rest) = do ss ← k inner; found (ss, rest)
subselects_of k ts = found (end, ts)

-- `@__done`: a comma and further selects, or the end.
unfoldable pub done : (Trees → Parsed Selects) → Select → Trees → Parsed Selects
done k s nil = found (entry s end)
done k s (cons comma rest) = do ss ← k rest; found (entry s ss)
done k s _ = absent

-- `@__selects`; the fuel is for the tokens and for the nesting.
unfoldable pub expand_selects : ℕ → Trees → Parsed Selects
unfolding name_of alias_of filters_of subselects_of done
expand_selects zero ts = stuck
expand_selects (suc fuel) nil = found end
expand_selects (suc fuel) (cons t ts) =
    let k = expand_selects fuel in
    name_of t >>= λ name. alias_of ts >>= λ (alias, ts₁). filters_of ts₁ >>= λ (filters, ts₂).
    subselects_of k ts₂ >>= λ (subselects, ts₃). done k (select name alias filters subselects) ts₃

-- The number of the tokens.
abbrev mutual
  pub size : Tree → ℕ
  size (parens ts) = suc (sizes ts)
  size (braces ts) = suc (sizes ts)
  size (ident s) = 1
  size (literal s) = 1
  size (number n) = 1
  size (value s) = 1
  size comma = 1
  size colon = 1

  pub sizes : Trees → ℕ
  sizes nil = 0
  sizes (cons t ts) = size t + sizes ts

-- `query!({ ... })`
unfoldable pub query : Trees → Parsed Query
unfolding expand_selects
query (cons (braces body) nil) = do
  ss ← expand_selects (suc (sizes body)) body
  found (record { selects = ss })
query _ = absent
