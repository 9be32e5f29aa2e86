-- ===== src/Mutation/Writes.antt =====
-- The writes of a mutation, read off its tree.
use cdoc.Prelude.{
  ℕ, ◌+◌, ◌≤◌, ◌≡◌, refl, sym, ap, arith, List, [], ◌∷◌, ◌++◌, Bytes, length, take, take-append,
  Option, none, some, Result, ok, true,
}
use cdoc.Varint.{found}
use cdoc.Path.{delimiter, terminator_lww, is_valid, new_field}
use cdoc.Path.Lseq
use cdoc.Path.Write
use cdoc.Path.Write.{PathWriter, max_length, ensure_capacity, push_field, push_index, lww}
use cdoc.Mutation.{
  Segment, Error, write, truncate, Op, Mutation, Mutations, value_bytes, for_each_internal,
  for_each_loop, for_each, fractional_index, apply, nested, compose, delete, assign, end, entry,
}

abbrev pub segment_bytes : Segment → Bytes
segment_bytes (Segment.field f) = delimiter ∷ f
segment_bytes (fractional_index i) = delimiter ∷ i

-- What the writer counts for a segment.
abbrev pub counted : Segment → ℕ
counted (Segment.field f) = 1 + length f
counted (fractional_index i) = length i

abbrev pub IsSegment : Segment → Type 0
IsSegment (Segment.field f) = is_valid f ≡ true
IsSegment (fractional_index i) = Lseq.new i ≡ found i

write_lem :
    (segment : Segment) (w : PathWriter)
    → IsSegment segment
    → w.written + 1 + counted segment ≤ max_length
    → write segment w
      ≡ ok (record {
        writer = w.writer ++ segment_bytes segment;
        written = w.written + counted segment;
      })
unfolding write push_field push_index ensure_capacity new_field
write_lem (Segment.field f) w v h = rw v (ground arith)
write_lem (fractional_index i) w v h = rw v (ground arith)

whole : (b : Bytes) → take (length b) b ≡ b
whole [] = refl
whole (x ∷ b) = ap (λ l. x ∷ l) (whole b)

module _ (Value : Type 0) (into_writer : Value → Option Bytes) where
  abbrev pub encoded : Op Value into_writer → Bytes
  encoded delete = []
  encoded (assign value) = elim (into_writer value) [ none ↦ [] | some buf ↦ buf ]

  -- The keys and values of a mutation under the path `base`: a path for each `apply`, made of the
  -- segments above it and its own.
  unfoldable mutual
    pub writes : Bytes → Mutation Value into_writer → List (Bytes × Bytes)
    writes base (apply segment op) =
        ((base ++ segment_bytes segment) ++ delimiter ∷ terminator_lww ∷ [], encoded op) ∷ []
    writes base (nested segment ms) = all_writes (base ++ segment_bytes segment) ms
    writes base (compose ms) = all_writes base ms

    pub all_writes : Bytes → Mutations Value into_writer → List (Bytes × Bytes)
    all_writes base end = []
    all_writes base (entry m ms) = writes base m ++ all_writes base ms

  -- What the writer counts for all segments of a mutation.
  unfoldable mutual
    pub total : Mutation Value into_writer → ℕ
    total (apply segment op) = counted segment
    total (nested segment ms) = counted segment + all_total ms
    total (compose ms) = all_total ms

    pub all_total : Mutations Value into_writer → ℕ
    all_total end = 0
    all_total (entry m ms) = total m + all_total ms

  unfoldable mutual
    pub IsValid : Mutation Value into_writer → Type 0
    IsValid (apply segment op) =
        IsSegment segment × (value_bytes Value into_writer op ≡ ok (encoded op))
    IsValid (nested segment ms) = IsSegment segment × AreValid ms
    IsValid (compose ms) = AreValid ms

    pub AreValid : Mutations Value into_writer → Type 0
    AreValid end = Unit
    AreValid (entry m ms) = IsValid m × AreValid ms

  -- Where the writer stands after a mutation: behind its first segment.
  abbrev left : Bytes → Mutation Value into_writer → Bytes
  left base (apply segment op) = base ++ segment_bytes segment
  left base (nested segment ms) = base ++ segment_bytes segment
  left base (compose ms) = base

  truncate-left :
      (base : Bytes) (n : ℕ) (m : Mutation Value into_writer)
      → truncate (length base) (record { writer = left base m; written = n })
        ≡ record { writer = base; written = n }
  unfolding truncate
  truncate-left base n (apply segment op) = rw (take-append base (segment_bytes segment)) refl
  truncate-left base n (nested segment ms) = rw (take-append base (segment_bytes segment)) refl
  truncate-left base n (compose ms) = rw (whole base) refl

  module _ {S : Type 0} (g : Bytes → Bytes → S → S) where
    -- The calls of `g` for a list of writes, in its order.
    abbrev pub fold_writes : List (Bytes × Bytes) → S → S
    fold_writes [] s = s
    fold_writes ((k, v) ∷ es) s = fold_writes es (g k v s)

    fold_writes-append :
        (xs ys : List (Bytes × Bytes)) (s : S)
        → fold_writes (xs ++ ys) s ≡ fold_writes ys (fold_writes xs s)
    fold_writes-append [] ys s = refl
    fold_writes-append ((k, v) ∷ xs) ys s = fold_writes-append xs ys (g k v s)

    abbrev call : Bytes → Bytes → S → Result Error S
    call k v s = ok (g k v s)

    same_ok :
        {s s' : S} {base : Bytes} {n n' : ℕ}
        → s ≡ s'
        → n ≡ n'
        → ◌≡◌ {A = Result Error (S × PathWriter)}
            (ok (s, record { writer = base; written = n }))
            (ok (s', record { writer = base; written = n' }))
    same_ok e h = rw e (rw h refl)

    mutual
      unfolding writes total IsValid for_each_internal lww

      for_each_internal_lem :
          (m : Mutation Value into_writer) (s : S) (base : Bytes) (n : ℕ)
          → IsValid m
          → n + 1 + total m ≤ max_length
          → for_each_internal Value into_writer call m s (record { writer = base; written = n })
            ≡ ok (
              fold_writes (writes base m) s,
              record { writer = left base m; written = n + total m },
            )
      for_each_internal_lem (apply segment op) s base n v h =
          rw (write_lem segment (record { writer = base; written = n }) v.0 h) (rw v.1 refl)
      for_each_internal_lem (nested segment ms) s base n v h =
          rw (write_lem segment (record { writer = base; written = n }) v.0 (omega arith)) (
            rw
              (for_each_loop_lem ms s (base ++ segment_bytes segment) (n + counted segment) v.1
                (omega arith))
              (same_ok refl (omega arith)))
      for_each_internal_lem (compose ms) s base n v h = for_each_loop_lem ms s base n v h

      for_each_loop_lem :
          (ms : Mutations Value into_writer) (s : S) (base : Bytes) (n : ℕ)
          → AreValid ms
          → n + 1 + all_total ms ≤ max_length
          → for_each_loop Value into_writer call
              (length base)
              ms
              s
              (record { writer = base; written = n })
            ≡ ok (
              fold_writes (all_writes base ms) s,
              record { writer = base; written = n + all_total ms },
            )
      for_each_loop_lem end s base n v h = same_ok refl (omega arith)
      for_each_loop_lem (entry m ms) s base n v h =
          rw (for_each_internal_lem m s base n v.0 (omega arith)) (
            rw (truncate-left base (n + total m) m) (
              rw
                (for_each_loop_lem ms (fold_writes (writes base m) s) base (n + total m) v.1
                  (omega arith))
                (same_ok (sym (fold_writes-append (writes base m) (all_writes base ms) s))
                  (omega arith))))

    -- `for_each` ends without an error and calls its function, which here always succeeds, with
    -- the keys and values that are read off the tree, in their order. The fields and indexes are
    -- valid, the values can be encoded, and one more than what the path writer counts for all
    -- segments together is within the limit of a path.
    pub for_each_lem :
        (m : Mutation Value into_writer) (s : S)
        → IsValid m
        → 1 + total m ≤ max_length
        → for_each Value into_writer (λ k v s'. ok (g k v s')) m s
          ≡ ok (fold_writes (writes [] m) s)
    unfolding for_each Write.new
    for_each_lem m s v h = rw (for_each_internal_lem m s [] 0 v h) refl
