-- ===== src/Mutation/Macro/Tokens.antt =====
-- The tokens that a mutation is written with, and what the macro makes of them.
use cdoc.Prelude.{
  ℕ, zero, suc, ◌+◌, ◌<◌, ◌≤◌, Bytes, Option, Bool, if◌then◌else◌, ◌≡◌, refl, arith, Bool-cases,
  inl, inr,
}
use cdoc.Varint.{Parsed, found}
use cdoc.Mutation.{
  Segment, fractional_index, Op, assign, delete, Mutation, apply, nested, compose, Mutations, end,
  entry,
}
use cdoc.Mutation.Macro.{
  Tree, literal, group, value, delete_word, at_sign, comma, colon, braces, Trees, nil, cons, key_of,
  value_of, entry_of, done, expand_entries, size, sizes, mutation,
}

module _ (Value : Type 0) (into_writer : Value → Option Bytes) (text : Bytes → Value)
    (trailing : Bool) where
  -- The macro nests entries under keys only.
  abbrev mutual
    pub AreEntries : Mutations Value into_writer → Type 0
    AreEntries end = Unit
    AreEntries (entry m ms) = IsEntry m × AreEntries ms

    pub IsEntry : Mutation Value into_writer → Type 0
    IsEntry (apply key op) = Unit
    IsEntry (nested key ms) = AreEntries ms
    IsEntry (compose ms) = ⊥

  abbrev pub Tokens : Type 0
  Tokens = Trees Value into_writer text

  abbrev pub key_token : Segment → Tree Value into_writer text
  key_token (Segment.field s) = literal s
  key_token (fractional_index i) = group (fractional_index i)

  abbrev pub op_tokens : Op Value into_writer → Tokens → Tokens
  op_tokens (assign v) rest = cons (value v) rest
  op_tokens delete rest = cons at_sign (cons delete_word rest)

  abbrev pub separator : Mutations Value into_writer → Tokens → Tokens
  separator end rest = if trailing then cons comma nil else nil
  separator (entry m ms) rest = cons comma rest

  -- The last case stands for nothing that the macro builds.
  unfoldable pub tokens : Mutations Value into_writer → Tokens
  tokens end = nil
  tokens (entry (apply key op) ms) =
      cons (key_token key) (cons colon (op_tokens op (separator ms (tokens ms))))
  tokens (entry (nested key inner) ms) =
      cons (key_token key) (cons colon (cons (braces (tokens inner)) (separator ms (tokens ms))))
  tokens (entry (compose inner) ms) = nil

  key_of-key_token : (key : Segment) → key_of Value into_writer text (key_token key) ≡ found key
  unfolding key_of
  key_of-key_token (Segment.field s) = refl
  key_of-key_token (fractional_index i) = refl

  entry_of-op_tokens :
      (k : Tokens → Parsed (Mutations Value into_writer)) (key : Segment)
      (op : Op Value into_writer) (rest : Tokens)
      → entry_of Value into_writer text k key (op_tokens op rest) ≡ found (apply key op, rest)
  unfolding entry_of value_of
  entry_of-op_tokens k key (assign v) rest = refl
  entry_of-op_tokens k key delete rest = refl

  entry_of-braces :
      (k : Tokens → Parsed (Mutations Value into_writer)) (key : Segment)
      (ms : Mutations Value into_writer) (inner rest : Tokens)
      → k inner ≡ found ms
      → entry_of Value into_writer text k key (cons (braces inner) rest)
        ≡ found (nested key ms, rest)
  unfolding entry_of
  entry_of-braces k key ms inner rest h = rw h refl

  done-separator :
      (k : Tokens → Parsed (Mutations Value into_writer)) (m : Mutation Value into_writer)
      (ms : Mutations Value into_writer) (ts : Tokens)
      → k nil ≡ found end
      → k ts ≡ found ms
      → done Value into_writer text k m (separator ms ts) ≡ found (entry m ms)
  unfolding done
  done-separator k m end ts n h = elim (Bool-cases trailing) [
    | inl e ↦ rw e (rw n refl)
    | inr e ↦ rw e refl
  ]
  done-separator k m (entry m' ms) ts n h = rw h refl

  expand_entries-nil :
      (fuel : ℕ) → 0 < fuel → expand_entries Value into_writer text fuel nil ≡ found end
  unfolding expand_entries
  expand_entries-nil zero h = absurd (omega arith)
  expand_entries-nil (suc fuel) h = refl

  sizes-separator :
      (ms : Mutations Value into_writer)
      → sizes Value into_writer text (tokens ms)
        ≤ sizes Value into_writer text (separator ms (tokens ms))
  sizes-separator end = unfold tokens in omega arith
  sizes-separator (entry m ms) = omega arith

  sizes-op_tokens :
      (op : Op Value into_writer) (rest : Tokens)
      → sizes Value into_writer text rest ≤ sizes Value into_writer text (op_tokens op rest)
  sizes-op_tokens (assign v) rest = omega arith
  sizes-op_tokens delete rest = omega arith

  size-key_token : (key : Segment) → size Value into_writer text (key_token key) ≡ 1
  size-key_token (Segment.field s) = refl
  size-key_token (fractional_index i) = refl

  expand_entries-cons :
      (fuel : ℕ) (key : Segment) (m : Mutation Value into_writer) (ms : Mutations Value into_writer)
      (ts : Tokens)
      → entry_of Value into_writer text (expand_entries Value into_writer text fuel) key ts
        ≡ found (m, separator ms (tokens ms))
      → 0 < fuel
      → expand_entries Value into_writer text fuel (tokens ms) ≡ found ms
      → expand_entries Value into_writer text (suc fuel) (cons (key_token key) (cons colon ts))
        ≡ found (entry m ms)
  unfolding expand_entries
  expand_entries-cons fuel key m ms ts e l h = rw (key_of-key_token key) (
      rw e (
        done-separator (expand_entries Value into_writer text fuel) m ms (tokens ms)
          (expand_entries-nil fuel l) h))

  expand_entries-tokens :
      (ms : Mutations Value into_writer) (fuel : ℕ)
      → AreEntries ms
      → sizes Value into_writer text (tokens ms) < fuel
      → expand_entries Value into_writer text fuel (tokens ms) ≡ found ms
  unfolding tokens
  expand_entries-tokens end fuel h l = expand_entries-nil fuel (omega arith)
  expand_entries-tokens (entry m ms) zero h l = absurd (omega arith)
  expand_entries-tokens (entry (compose inner) ms) (suc fuel) h l = absurd h.0
  expand_entries-tokens (entry (apply key op) ms) (suc fuel) h l =
      let rest = separator ms (tokens ms) in
      let room : 1 + sizes Value into_writer text rest < fuel =
        omega (arith, l, size-key_token key, sizes-op_tokens op rest) in
      expand_entries-cons fuel key (apply key op) ms (op_tokens op rest)
        (entry_of-op_tokens (expand_entries Value into_writer text fuel) key op rest)
        (omega (arith, room))
        (expand_entries-tokens ms fuel h.1 (omega (arith, room, sizes-separator ms)))
  expand_entries-tokens (entry (nested key inner) ms) (suc fuel) h l =
      let rest = separator ms (tokens ms) in
      let room : 1 + sizes Value into_writer text (tokens inner) + sizes Value into_writer text rest
          < fuel =
        omega (arith, l, size-key_token key) in
      expand_entries-cons fuel key (nested key inner) ms (cons (braces (tokens inner)) rest)
        (entry_of-braces (expand_entries Value into_writer text fuel) key inner (tokens inner) rest
          (expand_entries-tokens inner fuel h.0 (omega (arith, room))))
        (omega (arith, room))
        (expand_entries-tokens ms fuel h.1 (omega (arith, room, sizes-separator ms)))

  -- `mutation!` expands the tokens of a list of entries to the mutation that composes them:
  -- assignments, deletions behind `@`, and nested entries in braces, commas between them, and one
  -- behind the last of each list where `trailing` is set. The entries, at each depth, stand under
  -- keys.
  pub mutation-tokens :
      (ms : Mutations Value into_writer)
      → AreEntries ms
      → mutation Value into_writer text (cons (braces (tokens ms)) nil) ≡ found (compose ms)
  unfolding mutation
  mutation-tokens ms h =
      rw (expand_entries-tokens ms (suc (sizes Value into_writer text (tokens ms))) h (omega arith))
        refl
