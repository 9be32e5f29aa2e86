-- ===== src/Query/Macro/Tokens.antt =====
-- The tokens that a query is written with, and what the macro makes of them.
use cdoc.Prelude.{
  ℕ, zero, suc, ◌+◌, ◌<◌, ◌≤◌, List, [], ◌∷◌, Bytes, Option, none, some, Bool, if◌then◌else◌, ◌≡◌,
  refl, arith, Bool-cases, inl, inr,
}
use cdoc.Varint.{Parsed, found, ◌>>=◌}
use cdoc.Mutation.{Segment}
use cdoc.Query.{Filter, skip, take_n, after, before, Select, select, Selects, end, entry, Query}
use cdoc.Query.Parse.{skip_word, take_word, after_word, before_word, as_word, is_same}
use cdoc.Query.Macro.{
  Tree, ident, literal, number, value, comma, colon, parens, braces, Trees, nil, cons, filter_of,
  filter_list, name_of, alias_of, filters_of, subselects_of, done, expand_selects, size, sizes,
  query,
}

-- Names are fields.
abbrev pub IsField : Segment → Type 0
IsField (Segment.field s) = Unit
IsField (Segment.fractional_index i) = ⊥

abbrev pub IsAlias : Option Segment → Type 0
IsAlias none = Unit
IsAlias (some s) = IsField s

abbrev mutual
  pub AreNamed : Selects → Type 0
  AreNamed end = Unit
  AreNamed (entry s ss) = IsNamed s × AreNamed ss

  pub IsNamed : Select → Type 0
  IsNamed (select name alias filters subselects) =
      IsField name × IsAlias alias × AreNamed subselects

-- `bare` chooses which names stand without quotes, `trailing` whether a list ends with a comma.
module _ (bare : Bytes → Bool) (trailing : Bool) where
  abbrev pub name_token : Segment → Tree
  name_token (Segment.field s) = if bare s then ident s else literal s
  name_token (Segment.fractional_index i) = value (Segment.fractional_index i)

  abbrev pub last_token : Trees
  last_token = if trailing then cons comma nil else nil

  abbrev pub filter_tokens : Filter → Trees → Trees
  filter_tokens (skip n) rest = cons (ident skip_word) (cons colon (cons (number n) rest))
  filter_tokens (take_n n) rest = cons (ident take_word) (cons colon (cons (number n) rest))
  filter_tokens (after s) rest = cons (ident after_word) (cons colon (cons (value s) rest))
  filter_tokens (before s) rest = cons (ident before_word) (cons colon (cons (value s) rest))

  abbrev pub filters_tokens : List Filter → Trees
  filters_tokens [] = nil
  filters_tokens (f ∷ []) = filter_tokens f last_token
  filters_tokens (f ∷ g ∷ fs) = filter_tokens f (cons comma (filters_tokens (g ∷ fs)))

  abbrev pub filter_list_tokens : List Filter → Trees → Trees
  filter_list_tokens [] rest = rest
  filter_list_tokens (f ∷ fs) rest = cons (parens (filters_tokens (f ∷ fs))) rest

  abbrev pub alias_tokens : Option Segment → Trees → Trees
  alias_tokens none rest = rest
  alias_tokens (some s) rest = cons (ident as_word) (cons (name_token s) rest)

  abbrev pub separator : Selects → Trees → Trees
  separator end rest = last_token
  separator (entry s ss) rest = cons comma rest

  abbrev pub block_tokens : Selects → Trees → Trees → Trees
  block_tokens end inner rest = rest
  block_tokens (entry s ss) inner rest = cons (braces inner) rest

  unfoldable pub tokens : Selects → Trees
  tokens end = nil
  tokens (entry (select name alias filters subselects) ss) = cons (name_token name) (
      alias_tokens alias (
        filter_list_tokens filters
          (block_tokens subselects (tokens subselects) (separator ss (tokens ss)))))

  name_of-name_token : (s : Segment) → IsField s → name_of (name_token s) ≡ found s
  unfolding name_of
  name_of-name_token (Segment.field s) h = elim (Bool-cases (bare s)) [
    | inl e ↦ rw e refl
    | inr e ↦ rw e refl
  ]
  name_of-name_token (Segment.fractional_index i) h = absurd h

  filter_of-filter :
      (f : Filter) (rest : Trees) (more : Parsed (List Filter))
      → filter_list rest ≡ more
      → filter_list (filter_tokens f (cons comma rest)) ≡ more >>= (λ fs. found (f ∷ fs))
  unfolding filter_list filter_of is_same
  filter_of-filter (skip n) rest more h = rw h refl
  filter_of-filter (take_n n) rest more h = rw h refl
  filter_of-filter (after s) rest more h = rw h refl
  filter_of-filter (before s) rest more h = rw h refl

  filter_of-last : (f : Filter) → filter_list (filter_tokens f nil) ≡ found (f ∷ [])
  unfolding filter_list filter_of is_same
  filter_of-last (skip n) = refl
  filter_of-last (take_n n) = refl
  filter_of-last (after s) = refl
  filter_of-last (before s) = refl

  filter_list-nil : filter_list nil ≡ found []
  unfolding filter_list
  filter_list-nil = refl

  filter_list-tokens :
      (f : Filter) (fs : List Filter) → filter_list (filters_tokens (f ∷ fs)) ≡ found (f ∷ fs)
  filter_list-tokens f [] = elim (Bool-cases trailing) [
    | inl e ↦ rw e (filter_of-filter f nil (found []) filter_list-nil)
    | inr e ↦ rw e (filter_of-last f)
  ]
  filter_list-tokens f (g ∷ fs) =
      filter_of-filter f (filters_tokens (g ∷ fs)) (found (g ∷ fs)) (filter_list-tokens g fs)

  -- What follows the name of a selection is no identifier.
  abbrev IsBehind : Trees → Type 0
  IsBehind nil = Unit
  IsBehind (cons (ident s) ts) = ⊥
  IsBehind (cons (literal s) ts) = ⊥
  IsBehind (cons (number n) ts) = ⊥
  IsBehind (cons (value s) ts) = ⊥
  IsBehind (cons colon ts) = ⊥
  IsBehind (cons comma ts) = Unit
  IsBehind (cons (parens b) ts) = Unit
  IsBehind (cons (braces b) ts) = Unit

  alias_of-none : (ts : Trees) → IsBehind ts → alias_of ts ≡ found (none, ts)
  unfolding alias_of
  alias_of-none nil h = refl
  alias_of-none (cons (ident s) ts) h = absurd h
  alias_of-none (cons (literal s) ts) h = absurd h
  alias_of-none (cons (number n) ts) h = absurd h
  alias_of-none (cons (value s) ts) h = absurd h
  alias_of-none (cons colon ts) h = absurd h
  alias_of-none (cons comma ts) h = refl
  alias_of-none (cons (parens b) ts) h = refl
  alias_of-none (cons (braces b) ts) h = refl

  alias_of-alias_tokens :
      (a : Option Segment) (ts : Trees)
      → IsAlias a
      → IsBehind ts
      → alias_of (alias_tokens a ts) ≡ found (a, ts)
  unfolding alias_of is_same
  alias_of-alias_tokens none ts h b = alias_of-none ts b
  alias_of-alias_tokens (some s) ts h b = rw (name_of-name_token s h) refl

  separator-IsBehind : (ss : Selects) (ts : Trees) → IsBehind (separator ss ts)
  separator-IsBehind end ts = elim (Bool-cases trailing) [ inl e ↦ rw e tt | inr e ↦ rw e tt ]
  separator-IsBehind (entry s ss) ts = tt

  block-IsBehind :
      (ss tail : Selects) (inner ts : Trees) → IsBehind (block_tokens ss inner (separator tail ts))
  block-IsBehind end tail inner ts = separator-IsBehind tail ts
  block-IsBehind (entry s ss) tail inner ts = tt

  list-IsBehind :
      (fs : List Filter) (ts : Trees) → IsBehind ts → IsBehind (filter_list_tokens fs ts)
  list-IsBehind [] ts h = h
  list-IsBehind (f ∷ fs) ts h = tt

  -- Neither filters nor a block.
  filters_of-none :
      (ss tail : Selects) (inner ts : Trees)
      → filters_of (block_tokens ss inner (separator tail ts))
        ≡ found ([], block_tokens ss inner (separator tail ts))
  unfolding filters_of
  filters_of-none end end inner ts = elim (Bool-cases trailing) [
    | inl e ↦ rw e refl
    | inr e ↦ rw e refl
  ]
  filters_of-none end (entry s ss) inner ts = refl
  filters_of-none (entry s ss) tail inner ts = refl

  filters_of-list :
      (fs : List Filter) (ss tail : Selects) (inner ts : Trees)
      → filters_of (filter_list_tokens fs (block_tokens ss inner (separator tail ts)))
        ≡ found (fs, block_tokens ss inner (separator tail ts))
  filters_of-list [] ss tail inner ts = filters_of-none ss tail inner ts
  filters_of-list (f ∷ fs) ss tail inner ts = unfold filters_of in rw (filter_list-tokens f fs) refl

  subselects_of-block :
      (k : Trees → Parsed Selects) (ss tail : Selects) (inner ts : Trees)
      → k inner ≡ found ss
      → subselects_of k (block_tokens ss inner (separator tail ts)) ≡ found (ss, separator tail ts)
  unfolding subselects_of
  subselects_of-block k end end inner ts h = elim (Bool-cases trailing) [
    | inl e ↦ rw e refl
    | inr e ↦ rw e refl
  ]
  subselects_of-block k end (entry s ss) inner ts h = refl
  subselects_of-block k (entry s ss) tail inner ts h = rw h refl

  done-separator :
      (k : Trees → Parsed Selects) (s : Select) (ss : Selects) (ts : Trees)
      → k nil ≡ found end
      → k ts ≡ found ss
      → done k s (separator ss ts) ≡ found (entry s ss)
  unfolding done
  done-separator k s end ts n h = elim (Bool-cases trailing) [
    | inl e ↦ rw e (rw n refl)
    | inr e ↦ rw e refl
  ]
  done-separator k s (entry s' ss) ts n h = rw h refl

  size-name_token : (s : Segment) → size (name_token s) ≡ 1
  size-name_token (Segment.field s) = elim (Bool-cases (bare s)) [
    | inl e ↦ rw e refl
    | inr e ↦ rw e refl
  ]
  size-name_token (Segment.fractional_index i) = refl

  sizes-alias_tokens : (a : Option Segment) (ts : Trees) → sizes ts ≤ sizes (alias_tokens a ts)
  sizes-alias_tokens none ts = omega arith
  sizes-alias_tokens (some s) ts = omega arith

  sizes-filter_list_tokens :
      (fs : List Filter) (ts : Trees) → sizes ts ≤ sizes (filter_list_tokens fs ts)
  sizes-filter_list_tokens [] ts = omega arith
  sizes-filter_list_tokens (f ∷ fs) ts = omega arith

  sizes-block_tokens :
      (ss : Selects) (ts : Trees)
      → (sizes ts ≤ sizes (block_tokens ss (tokens ss) ts))
        × (sizes (tokens ss) ≤ sizes (block_tokens ss (tokens ss) ts))
  sizes-block_tokens end ts = unfold tokens in (omega arith, omega arith)
  sizes-block_tokens (entry s ss) ts = (omega arith, omega arith)

  sizes-separator : (ss : Selects) → sizes (tokens ss) ≤ sizes (separator ss (tokens ss))
  sizes-separator end = unfold tokens in omega arith
  sizes-separator (entry s ss) = omega arith

  expand_selects-nil : (fuel : ℕ) → 0 < fuel → expand_selects fuel nil ≡ found end
  unfolding expand_selects
  expand_selects-nil zero h = absurd (omega arith)
  expand_selects-nil (suc fuel) h = refl

  expand_selects-cons :
      (fuel : ℕ) (name : Segment) (alias : Option Segment) (filters : List Filter)
      (ss tail : Selects)
      → IsField name
      → IsAlias alias
      → 0 < fuel
      → expand_selects fuel (tokens ss) ≡ found ss
      → expand_selects fuel (tokens tail) ≡ found tail
      → expand_selects (suc fuel) (tokens (entry (select name alias filters ss) tail))
        ≡ found (entry (select name alias filters ss) tail)
  unfolding expand_selects tokens
  expand_selects-cons fuel name alias filters ss tail hn ha hf hs ht =
      let k = expand_selects fuel in
      let rest = separator tail (tokens tail) in
      let block = block_tokens ss (tokens ss) rest in
      rw (name_of-name_token name hn) (
        rw
          (alias_of-alias_tokens alias (filter_list_tokens filters block) ha
            (list-IsBehind filters block (block-IsBehind ss tail (tokens ss) (tokens tail))))
          (rw (filters_of-list filters ss tail (tokens ss) (tokens tail)) (
            rw (subselects_of-block k ss tail (tokens ss) (tokens tail) hs) (
              done-separator k (select name alias filters ss) tail (tokens tail)
                (expand_selects-nil fuel hf) ht))))

  expand_selects-tokens :
      (ss : Selects) (fuel : ℕ)
      → AreNamed ss
      → sizes (tokens ss) < fuel
      → expand_selects fuel (tokens ss) ≡ found ss
  expand_selects-tokens end fuel h l = unfold tokens in expand_selects-nil fuel (omega arith)
  expand_selects-tokens (entry s ss) zero h l = absurd (omega arith)
  expand_selects-tokens (entry (select name alias filters subs) ss) (suc fuel) h l =
      let rest = separator ss (tokens ss) in
      let block = block_tokens subs (tokens subs) rest in
      let listed = filter_list_tokens filters block in
      let whole : size (name_token name) + sizes (alias_tokens alias listed) < suc fuel =
        unfold tokens in l in
      let b = sizes-block_tokens subs rest in
      let room : 1 + sizes block < suc fuel = omega (
        arith,
        whole,
        size-name_token name,
        sizes-alias_tokens alias listed,
        sizes-filter_list_tokens filters block,
      ) in
      expand_selects-cons fuel name alias filters subs ss h.0.0 h.0.1 (omega (arith, room))
        (expand_selects-tokens subs fuel h.0.2 (omega (arith, room, b.1)))
        (expand_selects-tokens ss fuel h.1 (omega (arith, room, b.0, sizes-separator ss)))

  -- `query!` expands the tokens of a query to that query: names with or without quotes as `bare`
  -- chooses, aliases behind `as`, filters in parentheses, selections in braces, commas between
  -- them, and one behind the last of each list where `trailing` is set. The names are fields.
  pub query-tokens :
      (q : Query) → AreNamed q.selects → query (cons (braces (tokens q.selects)) nil) ≡ found q
  unfolding query
  query-tokens q h =
      rw (expand_selects-tokens q.selects (suc (sizes (tokens q.selects))) h (omega arith)) refl
