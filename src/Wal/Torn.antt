-- ===== src/Wal/Torn.antt =====
-- A crash that leaves only a part of what was written behind the last commit.
use cdoc.Prelude.{
  ℕ, zero, suc, ◌≤◌, ◌<◌, ◌≡◌, refl, sym, ap, ◌∙◌, arith, [], ◌∷◌, ◌++◌, Bytes, length, take, drop,
  append-nil, length-append, take-append-drop, length-drop, Option, Option-cases, none, some, Bool,
  true, false, if◌then◌else◌, inl, inr, ◌==◌, not, ℕ-cases, lt→ltb, le→not-ltb,
}
use cdoc.Varint.LittleEndian.{of_le}
use Prim.Native.Nat.{bit_and}
use mathlib.Core.Option.{some-injective}
use cdoc.Varint.BigEndian.{of_be}
use cdoc.Zerocopy.{Zerocopy}
use cdoc.Crc32.{Crc32}
use cdoc.Wal.{
  commit_bit, WalRecord, record_bytes, read_raw, read_exact, read_data, read_timestamp, ◌>>=◌,
}
use cdoc.Wal.Replay.{IsRecord, read_raw-record_bytes}

pub take-left : (n : ℕ) (x y : Bytes) → n ≤ length x → take n (x ++ y) ≡ take n x
take-left zero x y h = refl
take-left (suc n) [] y h = absurd (omega arith)
take-left (suc n) (b ∷ x) y h = ap (λ l. b ∷ l) (take-left n x y (omega arith))

drop-left : (n : ℕ) (x y : Bytes) → n ≤ length x → drop n (x ++ y) ≡ drop n x ++ y
drop-left zero x y h = refl
drop-left (suc n) [] y h = absurd (omega arith)
drop-left (suc n) (b ∷ x) y h = drop-left n x y (omega arith)

-- A reader that takes from a longer input what it took from a shorter one.
abbrev more : {A : Type 0} → Bytes → Option (A × Bytes) → Option (A × Bytes)
more y none = none
more y (some r) = some (r.0, r.1 ++ y)

abbrev IsMonotone : {A : Type 0} → (Bytes → Option (A × Bytes)) → Type 0
IsMonotone {A} p = (x y : Bytes) (r : A × Bytes) → p x ≡ some r → p (x ++ y) ≡ some (r.0, r.1 ++ y)

return-IsMonotone : {A : Type 0} (a : A) → IsMonotone (λ x. some (a, x))
return-IsMonotone a x y r h = ap (more y) h

bind-some :
    {A B : Type 0} (p : Bytes → Option (A × Bytes)) (q : A → Bytes → Option (B × Bytes))
    → ((a : A) → IsMonotone (q a))
    → (x y : Bytes) (o : Option (A × Bytes)) (r : B × Bytes) → p (x ++ y) ≡ more y o
    → (o >>= (λ l. q l.0 l.1)) ≡ some r
    → (p (x ++ y) >>= (λ l. q l.0 l.1)) ≡ some (r.0, r.1 ++ y)
bind-some p q hq x y none r e h = absurd (cc h)
bind-some p q hq x y (some l) r e h = rw e (hq l.0 l.1 y r h)

none-bind :
    {A B : Type 0} (o : Option A) (f : A → Option B) (r : B) → o ≡ none → (o >>= f) ≡ some r → ⊥
none-bind none f r e h = cc h
none-bind (some a) f r e h = cc e

bind-IsMonotone :
    {A B : Type 0} (p : Bytes → Option (A × Bytes)) (q : A → Bytes → Option (B × Bytes))
    → IsMonotone p
    → ((a : A) → IsMonotone (q a))
    → IsMonotone (λ x. p x >>= (λ l. q l.0 l.1))
bind-IsMonotone p q hp hq x y r h = elim (Option-cases (p x)) [
  | inl e ↦ absurd (none-bind (p x) (λ l. q l.0 l.1) r e h)
  | inr (l, e) ↦
      bind-some p q hq x y (some l) r (hp x y l e) (sym (ap (λ o. o >>= (λ l. q l.0 l.1)) e) ∙ h)
]

if-IsMonotone :
    {A : Type 0} (b : Bool) (p q : Bytes → Option (A × Bytes))
    → IsMonotone p
    → IsMonotone q
    → IsMonotone (λ x. if b then p x else q x)
if-IsMonotone true p q hp hq = hp
if-IsMonotone false p q hp hq = hq

read_exact-IsMonotone : (n : ℕ) → IsMonotone (read_exact n)
unfolding read_exact
read_exact-IsMonotone n x y r h = elim (ℕ-cases (length x) n) [
  | inl l ↦
      let cut : none ≡ some r =
        sym (ap (λ b. if b then none else some (take n x, drop n x)) (lt→ltb (length x) n l)) ∙ h in
      absurd (cc cut)
  | inr l ↦
      let kept : some (take n x, drop n x) ≡ some r =
        sym (ap (λ b. if b then none else some (take n x, drop n x)) (le→not-ltb (length x) n l))
        ∙ h in
      rw (le→not-ltb (length (x ++ y)) n (omega (arith, length-append x y)))
        (rw (take-left n x y l) (rw (drop-left n x y l) (ap (more y) kept)))
]

module _ (uninit : ℕ → Bytes) where
  read_data-IsMonotone : (k v : ℕ) → IsMonotone (read_data uninit k v)
  unfolding read_data
  read_data-IsMonotone k v =
      if-IsMonotone (k == 0) (λ x. some (([], uninit v), x)) _ (return-IsMonotone ([], uninit v))
        (bind-IsMonotone (read_exact k) _ (read_exact-IsMonotone k) (λ key.
          bind-IsMonotone (read_exact v) (λ value x. some ((key, value), x))
            (read_exact-IsMonotone v) (λ value. return-IsMonotone (key, value))))

  read_timestamp-IsMonotone : (b : Bool) → IsMonotone (read_timestamp b)
  unfolding read_timestamp
  read_timestamp-IsMonotone true =
      bind-IsMonotone (read_exact 8) (λ a x. some (some (of_be a), x)) (read_exact-IsMonotone 8)
        (λ a. return-IsMonotone (some (of_be a)))
  read_timestamp-IsMonotone false = return-IsMonotone none

  read_raw-IsMonotone : IsMonotone (read_raw uninit)
  unfolding read_raw
  read_raw-IsMonotone = bind-IsMonotone (read_exact 2) _ (read_exact-IsMonotone 2) (λ b.
      bind-IsMonotone (read_exact 2) _ (read_exact-IsMonotone 2) (λ b'.
        bind-IsMonotone (read_data uninit (bit_and (of_le b) 0x7fff) (of_le b')) _
          (read_data-IsMonotone (bit_and (of_le b) 0x7fff) (of_le b'))
          (λ d.
            bind-IsMonotone (read_timestamp (not (bit_and (of_le b) commit_bit == 0))) _
              (read_timestamp-IsMonotone (not (bit_and (of_le b) commit_bit == 0)))
              (λ t.
                bind-IsMonotone (read_exact 4) _ (read_exact-IsMonotone 4)
                  (λ c. return-IsMonotone _)))))

  module _ (unset : uninit 0 ≡ []) (crc : Crc32) (z : Zerocopy) where
    -- A record that is cut off is not read.
    pub read_raw-torn :
        (c : ℕ) (r : WalRecord) (n : ℕ)
        → IsRecord r
        → n < length (record_bytes crc z c r.key r.value r.timestamp)
        → read_raw uninit (take n (record_bytes crc z c r.key r.value r.timestamp)) ≡ none
    read_raw-torn c r n h l =
        let bytes = record_bytes crc z c r.key r.value r.timestamp in
        elim (Option-cases (read_raw uninit (take n bytes))) [
          | inl e ↦ e
          | inr (raw, e) ↦
              let longer : read_raw uninit (take n bytes ++ drop n bytes)
                  ≡ some (raw.0, raw.1 ++ drop n bytes) =
                read_raw-IsMonotone (take n bytes) (drop n bytes) raw e in
              let whole = read_raw-record_bytes uninit unset crc z c r [] h in
              let same =
                sym whole
                ∙ (ap (read_raw uninit) (append-nil bytes ∙ sym (take-append-drop n bytes))
                    ∙ longer) in
              let rest : [] ≡ raw.1 ++ drop n bytes = ap (λ p. p.1) (some-injective _ _ same) in
              absurd (
                omega
                  (arith, ap length rest, length-append raw.1 (drop n bytes), length-drop n bytes))
        ]
