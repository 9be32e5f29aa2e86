-- ===== src/Mutation/Macro.antt =====
-- src/mutation.rs: the macro `mutation!`, as a function on token trees. `absent` stands for tokens
-- that no rule matches, or whose expansion has a wrong type: they do not compile.
pub mod Tokens
use cdoc.Prelude.{ℕ, zero, suc, ◌+◌, Bytes, Option}
use cdoc.Varint.{Parsed, found, absent, stuck, ◌>>=◌}
use cdoc.Mutation.{
  Segment, Op, assign, delete, Mutation, apply, nested, compose, Mutations, end, entry,
}

-- `text` is the value that a string converts to.
module _ (Value : Type 0) (into_writer : Value → Option Bytes) (text : Bytes → Value) where
  -- A string in quotes, an expression in parentheses for a key, and any expression for a value.
  mutual
    pub data Tree : Type 0 where
      literal : Bytes → Tree
      group : Segment → Tree
      value : Value → Tree
      delete_word : Tree
      at_sign : Tree
      comma : Tree
      colon : Tree
      braces : Trees → Tree

    pub data Trees : Type 0 where
      nil : Trees
      cons : Tree → Trees → Trees

  -- `Segment::from($key)`
  unfoldable pub key_of : Tree → Parsed Segment
  key_of (literal s) = found (Segment.field s)
  key_of (group s) = found s
  key_of _ = absent

  -- `Op::from($val)`
  unfoldable pub value_of : Tree → Parsed (Op Value into_writer)
  value_of (literal s) = found (assign (text s))
  value_of (value v) = found (assign v)
  value_of _ = absent

  -- What stands behind `$key :`, and the tokens behind it; `k` is `@__entries`.
  unfoldable pub entry_of :
      (Trees → Parsed (Mutations Value into_writer))
      → Segment
      → Trees
      → Parsed (Mutation Value into_writer × Trees)
  unfolding value_of
  entry_of k key (cons (braces inner) rest) = k inner >>= λ ms. found (nested key ms, rest)
  entry_of k key (cons at_sign (cons delete_word rest)) = found (apply key delete, rest)
  entry_of k key (cons e rest) = value_of e >>= λ op. found (apply key op, rest)
  entry_of k key nil = absent

  -- A comma and further entries, or the end.
  unfoldable pub done :
      (Trees → Parsed (Mutations Value into_writer))
      → Mutation Value into_writer
      → Trees
      → Parsed (Mutations Value into_writer)
  done k m nil = found (entry m end)
  done k m (cons comma rest) = k rest >>= λ ms. found (entry m ms)
  done k m _ = absent

  -- `@__entries`; the fuel is for the tokens and for the nesting.
  unfoldable pub expand_entries : ℕ → Trees → Parsed (Mutations Value into_writer)
  unfolding key_of entry_of done
  expand_entries zero ts = stuck
  expand_entries (suc fuel) nil = found end
  expand_entries (suc fuel) (cons t (cons colon ts)) =
      let k = expand_entries fuel in
      key_of t >>= λ key. entry_of k key ts >>= λ (m, rest). done k m rest
  expand_entries (suc fuel) _ = absent

  -- The number of the tokens.
  abbrev mutual
    pub size : Tree → ℕ
    size (braces ts) = suc (sizes ts)
    size (literal s) = 1
    size (group s) = 1
    size (value v) = 1
    size delete_word = 1
    size at_sign = 1
    size comma = 1
    size colon = 1

    pub sizes : Trees → ℕ
    sizes nil = 0
    sizes (cons t ts) = size t + sizes ts

  -- `mutation!({ ... })`
  unfoldable pub mutation : Trees → Parsed (Mutation Value into_writer)
  unfolding expand_entries
  mutation (cons (braces body) nil) =
      expand_entries (suc (sizes body)) body >>= λ ms. found (compose ms)
  mutation _ = absent
