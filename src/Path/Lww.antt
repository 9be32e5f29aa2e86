-- ===== src/Path/Lww.antt =====
-- src/path/lww.rs: the header of a last-write-wins register, and the merge of two registers.
-- The cast `ref_from_prefix` is generated by zerocopy for the packed header: it is a parameter.
use cdoc.Prelude.{
  ◌<◌, ◌≤◌, inl, inr, refl, ap, List, [], ◌∷◌, ◌++◌, All, ◌≡◌, ◌≢◌, ◌⊎◌, arith, Option, none, some,
  Bytes, Result, ok, err, ◌>>=◌, ok_or, compare, Ordering, lt, eq, gt, and_then, if◌then◌else◌,
  Bool, true, false,
}
use cdoc.Hlc.{Timestamp}
use cdoc.Pid.{Pid}

pub record LwwHeader : Type 0 where
  pub timestamp : Timestamp
  pub pid : Pid

-- `crate::Error::ZeroCopy`
pub data MergeError : Type 0 where
  zero_copy : MergeError

-- The derived order: the fields one after the other.
unfoldable pub cmp_header : LwwHeader → LwwHeader → Ordering
cmp_header a b = and_then (compare a.timestamp b.timestamp) (compare a.pid b.pid)

abbrev pub is_gt : Ordering → Bool
is_gt gt = true
is_gt eq = false
is_gt lt = false

-- By time, and at the same time by process.
abbrev pub IsEarlier : LwwHeader → Bytes × LwwHeader → Type 0
IsEarlier h (bytes, r) =
    (r.timestamp < h.timestamp) ⊎ ((r.timestamp ≡ h.timestamp) × (r.pid < h.pid))

abbrev pub IsNotLater : LwwHeader → Bytes × LwwHeader → Type 0
IsNotLater h (bytes, r) =
    (r.timestamp < h.timestamp) ⊎ ((r.timestamp ≡ h.timestamp) × (r.pid ≤ h.pid))

module _ (ref_from_prefix : Bytes → Option (LwwHeader × Bytes)) where
  unfoldable pub merge : Bytes → Bytes → Result MergeError Bytes
  unfolding cmp_header
  merge left right = do
    (left_header, _) ← ok_or (ref_from_prefix left) zero_copy
    (right_header, _) ← ok_or (ref_from_prefix right) zero_copy
    if is_gt (cmp_header left_header right_header) then ok left else ok right

  -- The header of `bytes` is `h`.
  abbrev pub HasHeader : Bytes → LwwHeader → Type 0
  HasHeader bytes h = (rest : Bytes) × (ref_from_prefix bytes ≡ some (h, rest))

  -- The merge of two registers is the left one, and then the right one is earlier; or it is the
  -- right one, and then the left one is not later.
  merge_compares :
      (left right : Bytes) (l r : LwwHeader)
      → HasHeader left l
      → HasHeader right r
      → ((merge left right ≡ ok left) × IsEarlier l (right, r))
        ⊎ ((merge left right ≡ ok right) × IsNotLater r (left, l))
  unfolding merge
  merge_compares left right l r (x, hl) (y, hr) = ground arith

  -- A register merged with the ones behind it, one after the other.
  unfoldable pub merge_all : Bytes → List (Bytes × LwwHeader) → Result MergeError Bytes
  merge_all first [] = ok first
  merge_all first (r ∷ rest) = merge first r.0 >>= λ m. merge_all m rest

  abbrev AreRegisters : List (Bytes × LwwHeader) → Type 0
  AreRegisters = All (λ (r : Bytes × LwwHeader). HasHeader r.0 r.1)

  -- The first register is the latest, or one behind it is.
  merge_all_cases :
      (first : Bytes) (h : LwwHeader) (rest : List (Bytes × LwwHeader))
      → HasHeader first h
      → AreRegisters rest
      → ((merge_all first rest ≡ ok first) × All (IsEarlier h) rest)
        ⊎ ((w : Bytes × LwwHeader) × (before : List (Bytes × LwwHeader)) × (after : List
              (Bytes × LwwHeader))
            × (rest ≡ before ++ w ∷ after)
            × (merge_all first rest ≡ ok w.0)
            × IsNotLater w.1 (first, h)
            × All (IsNotLater w.1) before
            × All (IsEarlier w.1) after)
  unfolding merge_all
  merge_all_cases first h [] hf hr = inl (refl, tt)
  merge_all_cases first h (r ∷ rest) hf hr = elim (merge_compares first r.0 h r.1 hf hr.0) [
    | inl (e, older) ↦ elim (merge_all_cases first h rest hf hr.1) [
      | inl (m, a) ↦ inl (rw e m, (older, a))
      | inr (w, before, after, s, m, le, b, a) ↦
          inr
            (w, r ∷ before, after, ap (λ l. r ∷ l) s, rw e m, le, (ground (arith, older, le), b), a)
    ]
    | inr (e, le) ↦ elim (merge_all_cases r.0 r.1 rest hr.0 hr.1) [
      | inl (m, a) ↦ inr (r, [], rest, refl, rw e m, le, tt, a)
      | inr (w, before, after, s, m, le', b, a) ↦
          inr
            (w, r ∷ before, after, ap (λ l. r ∷ l) s, rw e m, ground (arith, le, le'), (le', b), a)
    ]
  ]

  -- Where a register is merged with the ones behind it, one after the other, the result is the
  -- last of those registers that are the latest: the ones before it have an earlier timestamp, or
  -- the same one and a process identifier that is not larger; the ones behind it have an earlier
  -- timestamp, or the same one and a smaller process identifier. All of them have headers.
  pub merge_all_latest :
      (first : Bytes) (h : LwwHeader) (rest : List (Bytes × LwwHeader))
      → HasHeader first h
      → AreRegisters rest
      → (w : Bytes × LwwHeader) × (before : List (Bytes × LwwHeader)) × (after : List
          (Bytes × LwwHeader))
        × ((first, h) ∷ rest ≡ before ++ w ∷ after)
        × (merge_all first rest ≡ ok w.0)
        × All (IsNotLater w.1) before
        × All (IsEarlier w.1) after
  merge_all_latest first h rest hf hr = elim (merge_all_cases first h rest hf hr) [
    | inl (m, a) ↦ ((first, h), [], rest, refl, m, tt, a)
    | inr (w, before, after, s, m, le, b, a) ↦
        (w, (first, h) ∷ before, after, ap (λ l. (first, h) ∷ l) s, m, (le, b), a)
  ]

  -- Two registers with different headers merge to the same one in either order.
  pub merge_comm :
      (left right : Bytes) (l r : LwwHeader)
      → HasHeader left l
      → HasHeader right r
      → l ≢ r
      → merge left right ≡ merge right left
  unfolding merge
  merge_comm left right l r (x, hl) (y, hr) ne = ground arith

  -- Three registers merge to the same one however they are grouped, equal headers included.
  pub merge_assoc :
      (a b c : Bytes) (x y z : LwwHeader)
      → HasHeader a x
      → HasHeader b y
      → HasHeader c z
      → (merge a b >>= λ m. merge m c) ≡ (merge b c >>= λ m. merge a m)
  unfolding merge
  merge_assoc a b c x y z (p, hx) (q, hy) (r, hz) = ground arith

  -- A register merged with one that has the same header gives the second: the values decide nothing.
  pub merge_tie :
      (left right : Bytes) (h : LwwHeader)
      → HasHeader left h
      → HasHeader right h
      → merge left right ≡ ok right
  unfolding merge
  merge_tie left right h (x, hl) (y, hr) = ground arith

  -- An input that is no register makes the merge fail, on either side.
  pub merge_error :
      (left right : Bytes)
      → (ref_from_prefix left ≡ none) ⊎ (ref_from_prefix right ≡ none)
      → merge left right ≡ err zero_copy
  unfolding merge
  merge_error left right h = ground arith
