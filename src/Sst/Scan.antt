-- ===== src/Sst/Scan.antt =====
-- `SSTableReader::scan_prefix` on the blocks of a sorted table.
use cdoc.Prelude.{
  ℕ, ◌≡◌, refl, sym, ap, ◌∙◌, List, [], ◌∷◌, ◌++◌, Bytes, drop, append-nil, cmp, ◌≺◌, eq_of_cmp,
  if◌then◌else◌, not, ◌&&◌, Bool, true, false, Bool-cases, Ordering, Ordering-cases, inl, inr,
  subst, lt, eq, gt,
}
use cdoc.BTreeMap.{Entries, keep}
use cdoc.BTreeMap.Sorted.{IsSorted}
use cdoc.BTreeMap.Joined.{
  AreBelow, AreBelow-trans, IsAbove-front, IsAbove-back, IsSorted-back, front-AreBelow, keep-append,
}
use cdoc.Sst.Prefix.{starts_with}
use cdoc.Sst.PrefixOrder.{keep-IsAbove, keep-AreBelow}
use cdoc.Sst.Read.{
  SsTableReader, at, before, binary_search, beyond, scan_entries, scan_blocks, scan_from,
  start_block, scan_prefix,
}
use cdoc.Sst.Layout.{concat}
use cdoc.Sst.Blocks.{Blocks}
use cdoc.Sst.Search.{either_block, from, binary_search-from, binary_search-pick}

-- The entries with the prefix.
abbrev pub with_prefix : Bytes → Entries → Entries
with_prefix prefix m = keep (λ k. starts_with k prefix) m

and_true : (a b : Bool) → not a && b ≡ true → (a ≡ false) × (b ≡ true)
and_true true b h = cc
and_true false b h = (refl, h)

-- A block: its entries with the prefix are pushed, and where the loop returns, none is left behind it.
scan_entries-with_prefix :
    (prefix : Bytes) (es m : Entries)
    → IsSorted (es ++ m)
    → ((scan_entries prefix es).0 ≡ with_prefix prefix es)
      × ((scan_entries prefix es).1 ≡ true → with_prefix prefix m ≡ [])
unfolding scan_entries
scan_entries-with_prefix prefix [] m h = (refl, λ e. cc)
scan_entries-with_prefix prefix ((k, v) ∷ es) m h =
    let rest = scan_entries-with_prefix prefix es m h.1 in
    elim (Bool-cases (starts_with k prefix)) [
      | inl e ↦ rw e (ap (λ l. (k, v) ∷ l) rest.0, rest.1)
      | inr e ↦ elim (Bool-cases (beyond prefix k)) [
        | inl far ↦ rw far (
            rw e (
              sym (keep-IsAbove prefix k es far (IsAbove-front k es m h.0)),
              λ done. keep-IsAbove prefix k m far (IsAbove-back k es m h.0),
            ))
        | inr near ↦ rw near (rw e (rest.0, rest.1))
      ]
    ]

-- What a block adds to the entries of the blocks behind it.
scan_entries-join :
    (prefix : Bytes) (es m more : Entries)
    → IsSorted (es ++ m)
    → more ≡ with_prefix prefix m
    → (if (scan_entries prefix es).1
        then (scan_entries prefix es).0
        else (scan_entries prefix es).0 ++ more)
      ≡ with_prefix prefix (es ++ m)
scan_entries-join prefix es m more h rest =
    let block = scan_entries-with_prefix prefix es m h in
    let parts = keep-append (λ k. starts_with k prefix) es m in
    elim (Bool-cases (scan_entries prefix es).1) [
      | inl done ↦ rw done (
          block.0
          ∙ sym (
              parts
              ∙ ap (λ l. with_prefix prefix es ++ l) (block.1 done)
              ∙ append-nil (with_prefix prefix es)))
      | inr goes_on ↦
          rw goes_on
            (ap (λ l. l ++ more) block.0 ∙ ap (λ l. with_prefix prefix es ++ l) rest ∙ sym parts)
    ]

scan_blocks-with_prefix :
    (r : SsTableReader) (prefix : Bytes) (index : List (Bytes × ℕ)) (bs : List Entries)
    → Blocks r index bs
    → IsSorted (concat bs)
    → scan_blocks r prefix index ≡ with_prefix prefix (concat bs)
unfolding scan_blocks
scan_blocks-with_prefix r prefix [] [] h sorted = refl
scan_blocks-with_prefix r prefix [] (b ∷ bs) h sorted = absurd h
scan_blocks-with_prefix r prefix (x ∷ index) [] h sorted = absurd h
scan_blocks-with_prefix r prefix (x ∷ index) ([] ∷ bs) h sorted = absurd h.0
scan_blocks-with_prefix r prefix ((k, offset) ∷ index) (((j, v) ∷ es) ∷ bs) h sorted =
    let b : Entries = (j, v) ∷ es in
    let more = scan_blocks-with_prefix r prefix index bs h.2 (IsSorted-back b (concat bs) sorted) in
    rw h.1 (elim (Bool-cases (not (starts_with k prefix) && beyond prefix k)) [
      | inl far ↦
          let first : (starts_with j prefix ≡ false) × (beyond prefix j ≡ true) =
            subst (λ i. (starts_with i prefix ≡ false) × (beyond prefix i ≡ true)) h.0
              (and_true (starts_with k prefix) (beyond prefix k) far) in
          rw far (rw first.0 (sym (keep-IsAbove prefix j (es ++ concat bs) first.1 sorted.0)))
      | inr near ↦
          rw near (scan_entries-join prefix b (concat bs) (scan_blocks r prefix index) sorted more)
    ])

scan_from-with_prefix :
    (r : SsTableReader) (prefix : Bytes) (index : List (Bytes × ℕ)) (bs : List Entries)
    → Blocks r index bs
    → IsSorted (concat bs)
    → scan_from r prefix index ≡ with_prefix prefix (concat bs)
unfolding scan_from
scan_from-with_prefix r prefix [] [] h sorted = refl
scan_from-with_prefix r prefix [] (b ∷ bs) h sorted = absurd h
scan_from-with_prefix r prefix (x ∷ index) [] h sorted = absurd h
scan_from-with_prefix r prefix ((k, offset) ∷ index) (b ∷ bs) h sorted = rw h.1 (
    scan_entries-join prefix b (concat bs) (scan_blocks r prefix index) sorted
      (scan_blocks-with_prefix r prefix index bs h.2 (IsSorted-back b (concat bs) sorted)))

-- From the block on that the binary search gives, the earlier blocks being without the prefix.
scan_from-from :
    (r : SsTableReader) (prefix : Bytes) (x : Bytes × ℕ) (index : List (Bytes × ℕ)) (p : Entries)
    (bs : List Entries)
    → Blocks r (x ∷ index) (p ∷ bs)
    → IsSorted (p ++ concat bs)
    → scan_from r prefix (from x prefix index) ≡ with_prefix prefix (p ++ concat bs)
scan_from-from r prefix x [] p bs h sorted =
    scan_from-with_prefix r prefix (x ∷ []) (p ∷ bs) h sorted
scan_from-from r prefix x ((k, offset) ∷ index) p [] h sorted = absurd h.2
scan_from-from r prefix x ((k, offset) ∷ index) p ([] ∷ bs) h sorted = absurd h.2.0
scan_from-from r prefix x ((k, offset) ∷ index) p (((j, v) ∷ es) ∷ bs) h sorted =
    let b : Entries = (j, v) ∷ es in
    let later = IsSorted-back p (b ++ concat bs) sorted in
    let below = front-AreBelow p j v (es ++ concat bs) sorted in
    let pick : (o : Ordering)
        → cmp k prefix ≡ o
        → scan_from r prefix (from x prefix ((k, offset) ∷ index))
          ≡ scan_from r prefix (
              either_block o (x ∷ (k, offset) ∷ index) ((k, offset) ∷ index)
                (from (k, offset) prefix index)) =
      λ o e.
        ap
          (λ c. scan_from r prefix (
            either_block c (x ∷ (k, offset) ∷ index) ((k, offset) ∷ index)
              (from (k, offset) prefix index)))
          e in
    let skip : AreBelow prefix p
        → with_prefix prefix (b ++ concat bs) ≡ with_prefix prefix (p ++ (b ++ concat bs)) =
      λ low. sym (
        keep-append (λ i. starts_with i prefix) p (b ++ concat bs)
        ∙ ap (λ l. l ++ with_prefix prefix (b ++ concat bs)) (keep-AreBelow prefix p low)) in
    elim (Ordering-cases (cmp k prefix)) [
      | inl e ↦
          pick lt e
          ∙ scan_from-from r prefix (k, offset) index b bs h.2 later
          ∙ skip (AreBelow-trans j prefix p below (subst (λ i. i ≺ prefix) h.2.0 e))
      | inr (inl e) ↦
          pick eq e
          ∙ scan_from-with_prefix r prefix ((k, offset) ∷ index) (b ∷ bs) h.2 later
          ∙ skip (subst (λ i. AreBelow i p) (sym h.2.0 ∙ eq_of_cmp k prefix e) below)
      | inr (inr e) ↦
          pick gt e ∙ scan_from-with_prefix r prefix (x ∷ (k, offset) ∷ index) (p ∷ b ∷ bs) h sorted
    ]

scan_from-search :
    (r : SsTableReader) (prefix : Bytes) (index : List (Bytes × ℕ)) (bs : List Entries)
    → Blocks r index bs
    → IsSorted (concat bs)
    → scan_from r prefix (drop (start_block (binary_search 0 prefix index)) index)
      ≡ with_prefix prefix (concat bs)
unfolding start_block
scan_from-search r prefix [] [] h sorted = unfold binary_search scan_from in refl
scan_from-search r prefix [] (b ∷ bs) h sorted = absurd h
scan_from-search r prefix (x ∷ index) [] h sorted = absurd h
scan_from-search r prefix ((k, offset) ∷ index) (b ∷ bs) h sorted =
    let whole = (k, offset) ∷ index in
    let pick : (o : Ordering)
        → cmp k prefix ≡ o
        → scan_from r prefix (drop (start_block (binary_search 0 prefix whole)) whole)
          ≡ scan_from r prefix (
              drop (start_block (either_block o (before 0) (at 0) (binary_search 1 prefix index)))
                whole) =
      λ o e.
        ap (λ n. scan_from r prefix (drop (start_block n) whole))
          (binary_search-pick prefix k offset index o e) in
    elim (Ordering-cases (cmp k prefix)) [
      | inl e ↦
          pick lt e
          ∙ ap (scan_from r prefix) (binary_search-from whole 0 (k, offset) prefix index refl)
          ∙ scan_from-from r prefix (k, offset) index b bs h sorted
      | inr (inl e) ↦ pick eq e ∙ scan_from-with_prefix r prefix whole (b ∷ bs) h sorted
      | inr (inr e) ↦ pick gt e ∙ scan_from-with_prefix r prefix whole (b ∷ bs) h sorted
    ]

-- The scan gives the entries of the table with the prefix, in their order.
pub scan_prefix-with_prefix :
    (r : SsTableReader) (prefix : Bytes) (bs : List Entries)
    → Blocks r r.block_index bs
    → IsSorted (concat bs)
    → scan_prefix prefix r ≡ with_prefix prefix (concat bs)
unfolding scan_prefix
scan_prefix-with_prefix r prefix bs h sorted = scan_from-search r prefix r.block_index bs h sorted
