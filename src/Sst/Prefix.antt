-- ===== src/Sst/Prefix.antt =====
-- `prefix_successor`, of src/sst/memtable.rs and, letter for letter, of src/sst/read.rs; and
-- `starts_with` of byte strings.
use cdoc.Prelude.{
  ℕ, ◌+◌, ◌<◌, [], ◌∷◌, ◌++◌, Bytes, AreBytes, ◌≡◌, refl, ap, ◌∙◌, arith, Option, none, some, Bool,
  true, false, ◌&&◌, ◌==◌, ltb, if◌then◌else◌, cmp, is_lt, Bool-cases, inl, inr,
}
use mathlib.Core.List.{reverse, reverse-append, reverse-cons}
use cdoc.BTreeMap.{in_range}

unfoldable pub starts_with : Bytes → Bytes → Bool
starts_with k [] = true
starts_with [] (b ∷ p) = false
starts_with (c ∷ k) (b ∷ p) = c == b && starts_with k p

-- The loop, on the bytes from the last one on: `last_mut`, or `pop` and another round.
unfoldable pub increment_last : Bytes → Option Bytes
increment_last [] = none
increment_last (last ∷ succ) =
    if ltb last 0xff then some ((last + 1) ∷ succ) else increment_last succ

abbrev pub map_reverse : Option Bytes → Option Bytes
map_reverse none = none
map_reverse (some r) = some (reverse r)

unfoldable pub prefix_successor : Bytes → Option Bytes
unfolding increment_last
prefix_successor prefix = map_reverse (increment_last (reverse prefix))

-- The same from the front.
abbrev pub bump_head : ℕ → Option Bytes → Option Bytes
bump_head b (some succ) = some (b ∷ succ)
bump_head b none = if ltb b 0xff then some ((b + 1) ∷ []) else none

unfoldable pub successor : Bytes → Option Bytes
successor [] = none
successor (b ∷ p) = bump_head b (successor p)

map_reverse-increment_last :
    (r : Bytes) (b : ℕ)
    → map_reverse (increment_last (r ++ b ∷ [])) ≡ bump_head b (map_reverse (increment_last r))
unfolding increment_last
map_reverse-increment_last [] b = ground arith
map_reverse-increment_last (last ∷ r) b = elim (Bool-cases (ltb last 0xff)) [
  | inl less ↦ rw less (ap (λ (l : Bytes). some l) (reverse-append ((last + 1) ∷ r) (b ∷ [])))
  | inr full ↦ rw full (map_reverse-increment_last r b)
]

pub prefix_successor-eq : (p : Bytes) → prefix_successor p ≡ successor p
unfolding prefix_successor successor
prefix_successor-eq [] = refl
prefix_successor-eq (b ∷ p) =
    rw (reverse-cons b p)
      (map_reverse-increment_last (reverse p) b ∙ ap (bump_head b) (prefix_successor-eq p))

cmp_nil : (k : Bytes) → is_lt (cmp k []) ≡ false
unfolding cmp
cmp_nil [] = refl
cmp_nil (c ∷ k) = refl

head_in_range :
    (b c : ℕ) (p k : Bytes) (o : Option Bytes)
    → b < 256
    → c < 256
    → in_range p o k ≡ starts_with k p
    → in_range (b ∷ p) (bump_head b o) (c ∷ k) ≡ starts_with (c ∷ k) (b ∷ p)
unfolding starts_with cmp
head_in_range b c p k none hb hc h = ground (arith, cmp_nil k)
head_in_range b c p k (some succ) hb hc h = ground arith

in_range-successor :
    (p k : Bytes) → AreBytes p → AreBytes k → in_range p (successor p) k ≡ starts_with k p
unfolding successor starts_with cmp
in_range-successor [] [] hp hk = refl
in_range-successor [] (c ∷ k) hp hk = refl
in_range-successor (b ∷ p) [] hp hk = ground arith
in_range-successor (b ∷ p) (c ∷ k) hp hk =
    head_in_range b c p k (successor p) hp.0 hk.0 (in_range-successor p k hp.1 hk.1)

-- A key is in the range from the prefix to its successor exactly where it starts with the prefix;
-- both are bytes.
pub in_range-prefix_successor :
    (p k : Bytes) → AreBytes p → AreBytes k → in_range p (prefix_successor p) k ≡ starts_with k p
in_range-prefix_successor p k hp hk = rw (prefix_successor-eq p) (in_range-successor p k hp hk)
