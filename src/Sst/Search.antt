-- ===== src/Sst/Search.antt =====
-- `SSTableReader::get` behind the filter: the search in the index and in the block.
use cdoc.Prelude.{
  ℕ, zero, suc, ◌+◌, ◌≡◌, refl, sym, ap, ◌∙◌, arith, List, [], ◌∷◌, ◌++◌, Bytes, drop, append-nil,
  cmp, cmp_refl, ◌≺◌, eq_of_cmp, lt_of_gt, gt_of_lt, Ordering-cases, inl, inr, subst, Ordering, lt,
  eq, gt,
}
use cdoc.BTreeMap
use cdoc.BTreeMap.{Entries}
use cdoc.BTreeMap.Sorted.{IsSorted, IsAbove, IsAbove-trans}
use cdoc.BTreeMap.Lookup.{get-IsAbove}
use cdoc.BTreeMap.Joined.{
  AreBelow, AreBelow-trans, IsSorted-front, IsSorted-back, IsAbove-back, front-AreBelow,
  get-append_below, get-append_above,
}
use cdoc.Sst.Read.{
  SsTableReader, at, before, binary_search, decode_blocks, decode_block, find_key, get_in,
  start_block,
}
use cdoc.Sst.Layout.{concat}
use cdoc.Sst.Blocks.{Blocks}

drop-suc {ℓ} :
    {A : Type ℓ} (i : ℕ) (xs ys : List A) (x : A) → drop i xs ≡ x ∷ ys → drop (suc i) xs ≡ ys
drop-suc zero [] ys x h = cc
drop-suc zero (z ∷ zs) ys x h = cc
drop-suc (suc i) [] ys x h = cc
drop-suc (suc i) (z ∷ zs) ys x h = drop-suc i zs ys x h

abbrev pub either_block {ℓ} : {A : Type ℓ} → Ordering → A → A → A → A
either_block gt here next later = here
either_block eq here next later = next
either_block lt here next later = later

-- The index from the block on that may hold `key`; the block of the entry `x` begins below `key`.
abbrev pub from : Bytes × ℕ → Bytes → List (Bytes × ℕ) → List (Bytes × ℕ)
from x key [] = x ∷ []
from x key ((k, offset) ∷ index) =
    either_block (cmp k key) (x ∷ (k, offset) ∷ index) ((k, offset) ∷ index)
      (from (k, offset) key index)

-- The binary search from the entry number `i + 1` on ends at that block.
pub binary_search-from :
    (all : List (Bytes × ℕ)) (i : ℕ) (x : Bytes × ℕ) (key : Bytes) (index : List (Bytes × ℕ))
    → drop i all ≡ x ∷ index
    → drop (start_block (binary_search (suc i) key index)) all ≡ from x key index
unfolding start_block binary_search
binary_search-from all i x key [] h = h
binary_search-from all i x key ((k, offset) ∷ index) h =
    let here : drop (suc i) all ≡ (k, offset) ∷ index = drop-suc i all ((k, offset) ∷ index) x h in
    let next : suc i + 1 ≡ suc (suc i) = omega arith in
    let more =
      ap (λ n. drop (start_block (binary_search n key index)) all) next
      ∙ binary_search-from all (suc i) (k, offset) key index here in
    ground (arith, h, here, more)

get_in-start_block :
    (r : SsTableReader) (key : Bytes) (i : ℕ) (index : List (Bytes × ℕ))
    → get_in r key (binary_search (suc i) key index)
      ≡ find_key key (decode_block r (start_block (binary_search (suc i) key index)))
unfolding get_in start_block binary_search
get_in-start_block r key i [] = refl
get_in-start_block r key i ((k, offset) ∷ index) =
    let next : suc i + 1 ≡ suc (suc i) = omega arith in
    let more =
      ap (λ n. get_in r key (binary_search n key index)) next
      ∙ get_in-start_block r key (suc i) index
      ∙ ap (λ n. find_key key (decode_block r (start_block (binary_search n key index))))
          (sym next) in
    ground (arith, more)

-- In a sorted block the first match is what the map has.
find_key-get : (key : Bytes) (m : Entries) → IsSorted m → find_key key m ≡ BTreeMap.get key m
unfolding find_key BTreeMap.get
find_key-get key [] h = refl
find_key-get key ((k, v) ∷ m) h = ground (
  arith,
  find_key-get key m h.1,
  get-IsAbove key m,
  IsAbove-trans key k m,
  h.0,
  lt_of_gt k key,
  lt_of_gt key k,
  gt_of_lt k key,
  gt_of_lt key k,
  eq_of_cmp k key,
  eq_of_cmp key k,
  cmp_refl k,
)

-- A block behind which the map goes on with the key `k`.
find_key-decode_blocks :
    (r : SsTableReader) (key : Bytes) (x : Bytes × ℕ) (index : List (Bytes × ℕ)) (p : Entries)
    (bs : List Entries)
    → Blocks r (x ∷ index) (p ∷ bs)
    → IsSorted (p ++ concat bs)
    → find_key key (decode_blocks r (from x key index)) ≡ BTreeMap.get key (p ++ concat bs)
unfolding decode_blocks
find_key-decode_blocks r key (k, offset) [] p [] h sorted =
    rw h.1 (rw (append-nil p) (find_key-get key p (IsSorted-front p [] sorted)))
find_key-decode_blocks r key x [] p (b ∷ bs) h sorted = absurd h.2
find_key-decode_blocks r key x ((k, offset) ∷ index) p [] h sorted = absurd h.2
find_key-decode_blocks r key x ((k, offset) ∷ index) p ([] ∷ bs) h sorted = absurd h.2.0
find_key-decode_blocks r key (k₀, offset₀) ((k, offset) ∷ index) p (((j, v) ∷ es) ∷ bs) h sorted =
    let b : Entries = (j, v) ∷ es in
    let later = IsSorted-back p (b ++ concat bs) sorted in
    let below = front-AreBelow p j v (es ++ concat bs) sorted in
    let more = find_key-decode_blocks r key (k, offset) index b bs h.2 later in
    let pick : (o : Ordering)
        → cmp k key ≡ o
        → find_key key (decode_blocks r (from (k₀, offset₀) key ((k, offset) ∷ index)))
          ≡ find_key key (
              decode_blocks r (
                either_block o ((k₀, offset₀) ∷ (k, offset) ∷ index) ((k, offset) ∷ index)
                  (from (k, offset) key index))) =
      λ o e.
        ap
          (λ c. find_key key (
            decode_blocks r (
              either_block c ((k₀, offset₀) ∷ (k, offset) ∷ index) ((k, offset) ∷ index)
                (from (k, offset) key index))))
          e in
    elim (Ordering-cases (cmp k key)) [
      | inl e ↦
          pick lt e
          ∙ (more
              ∙ sym (
                  get-append_below key p (b ++ concat bs)
                    (AreBelow-trans j key p below (subst (λ i. i ≺ key) h.2.0 e))))
      | inr (inl e) ↦
          let same : j ≡ key = sym h.2.0 ∙ eq_of_cmp k key e in
          let above : IsAbove key (concat bs) =
            subst (λ i. IsAbove i (concat bs)) same (IsAbove-back j es (concat bs) later.0) in
          pick eq e
          ∙ (ap (find_key key) h.2.1
              ∙ find_key-get key b (IsSorted-front b (concat bs) later)
              ∙ sym (get-append_above key b (concat bs) above)
              ∙ sym
                  (get-append_below key p (b ++ concat bs) (subst (λ i. AreBelow i p) same below)))
      | inr (inr e) ↦
          let less : key ≺ j = subst (λ i. key ≺ i) h.2.0 (lt_of_gt k key e) in
          pick gt e
          ∙ (ap (find_key key) h.1
              ∙ find_key-get key p (IsSorted-front p (b ++ concat bs) sorted)
              ∙ sym (
                  get-append_above key p (b ++ concat bs)
                    (less, IsAbove-trans key j (es ++ concat bs) less later.0)))
    ]

pub binary_search-pick :
    (key k : Bytes) (offset : ℕ) (index : List (Bytes × ℕ)) (o : Ordering)
    → cmp k key ≡ o
    → binary_search 0 key ((k, offset) ∷ index)
      ≡ either_block o (before 0) (at 0) (binary_search 1 key index)
unfolding binary_search
binary_search-pick key k offset index lt e = ground (arith, e)
binary_search-pick key k offset index eq e = ground (arith, e)
binary_search-pick key k offset index gt e = ground (arith, e)

get_in-search :
    (r : SsTableReader) (key : Bytes) (index : List (Bytes × ℕ)) (bs : List Entries)
    → r.block_index ≡ index
    → Blocks r index bs
    → IsSorted (concat bs)
    → get_in r key (binary_search 0 key index) ≡ BTreeMap.get key (concat bs)
unfolding get_in binary_search decode_block decode_blocks BTreeMap.get
get_in-search r key [] [] i h sorted = refl
get_in-search r key [] (b ∷ bs) i h sorted = absurd h
get_in-search r key (x ∷ index) [] i h sorted = absurd h
get_in-search r key (x ∷ index) ([] ∷ bs) i h sorted = absurd h.0
get_in-search r key ((k, offset) ∷ index) (((j, v) ∷ es) ∷ bs) i h sorted =
    let b : Entries = (j, v) ∷ es in
    let pick : (o : Ordering)
        → cmp k key ≡ o
        → get_in r key (binary_search 0 key ((k, offset) ∷ index))
          ≡ get_in r key (either_block o (before 0) (at 0) (binary_search 1 key index)) =
      λ o e. ap (get_in r key) (binary_search-pick key k offset index o e) in
    elim (Ordering-cases (cmp k key)) [
      | inl e ↦
          pick lt e
          ∙ (get_in-start_block r key 0 index
              ∙ ap (λ l. find_key key (decode_blocks r l))
                  (binary_search-from r.block_index 0 (k, offset) key index i)
              ∙ find_key-decode_blocks r key (k, offset) index b bs h sorted)
      | inr (inl e) ↦
          let same : j ≡ key = sym h.0 ∙ eq_of_cmp k key e in
          let above : IsAbove key (concat bs) =
            subst (λ i. IsAbove i (concat bs)) same (IsAbove-back j es (concat bs) sorted.0) in
          pick eq e
          ∙ (ap (λ l. find_key key (decode_blocks r l)) i
              ∙ ap (find_key key) h.1
              ∙ find_key-get key b (IsSorted-front b (concat bs) sorted)
              ∙ sym (get-append_above key b (concat bs) above))
      | inr (inr e) ↦
          let less : key ≺ j = subst (λ i. key ≺ i) h.0 (lt_of_gt k key e) in
          pick gt e
          ∙ (sym (
              get-IsAbove key (b ++ concat bs)
                (less, IsAbove-trans key j (es ++ concat bs) less sorted.0)))
    ]

-- The search finds what the map of all blocks has.
pub get_in-binary_search :
    (r : SsTableReader) (key : Bytes) (bs : List Entries)
    → Blocks r r.block_index bs
    → IsSorted (concat bs)
    → get_in r key (binary_search 0 key r.block_index) ≡ BTreeMap.get key (concat bs)
get_in-binary_search r key bs h sorted = get_in-search r key r.block_index bs refl h sorted
