-- ===== src/Wal/Crash.antt =====
-- A crash that loses a part of what was written behind the last commit.
use cdoc.Prelude.{
  ℕ, zero, suc, ◌-◌, ◌≤◌, ◌<◌, ◌+◌, ◌≡◌, refl, sym, ap, ◌∙◌, arith, List, [], ◌∷◌, ◌++◌, Bytes,
  length, length-append, take, append_assoc, All-append, subst, none, some, Bool, true, false, All,
  inl, inr, ℕ-cases,
}
use cdoc.Zerocopy.{Zerocopy}
use cdoc.Crc32.{Crc32}
use cdoc.Wal.{WalRecord, create, is_some, record_bytes, replay, read_raw}
use cdoc.Wal.Replay.{IsRecord}
use cdoc.Wal.Log.{hold, committed, roll, encode, replay-encode}
use cdoc.Wal.Writer.{
  Op, logged, AreRecords, encode-append, encode-snoc, rolled, apply, apply-IsLog, create-IsLog,
  logged-All, All-front, read_raw-nil, committed-committed,
}
use cdoc.Wal.Torn.{read_raw-torn, take-left}

abbrev IsPending : WalRecord → Type 0
IsPending r = is_some r.timestamp ≡ false

-- A log is its committed records and records without a timestamp.
record Split (rs : List WalRecord) : Type 0 where
  tail : List WalRecord
  split : rs ≡ committed rs ++ tail
  pending : All IsPending tail

hold-split :
    (r : WalRecord) (b : Bool) (rs cs tail : List WalRecord)
    → is_some r.timestamp ≡ b
    → rs ≡ cs ++ tail
    → All IsPending tail
    → (t : List WalRecord) × (r ∷ rs ≡ hold r b cs ++ t) × All IsPending t
unfolding hold
hold-split r true rs cs tail p e h = (tail, ap (λ l. r ∷ l) e, h)
hold-split r false rs [] tail p e h = (r ∷ tail, ap (λ l. r ∷ l) e, (p, h))
hold-split r false rs (x ∷ cs) tail p e h = (tail, ap (λ l. r ∷ l) e, h)

log-Split : (rs : List WalRecord) → Split rs
unfolding committed
log-Split [] = record { tail = []; split = refl; pending = tt }
log-Split (r ∷ rs) =
    let s = log-Split rs in
    let t = hold-split r (is_some r.timestamp) rs (committed rs) s.tail refl s.split s.pending in
    record { tail = t.0; split = t.1; pending = t.2 }

committed-pending : (ps : List WalRecord) → All IsPending ps → committed ps ≡ []
unfolding committed hold
committed-pending [] h = refl
committed-pending (r ∷ ps) h = rw h.0 (rw (committed-pending ps h.1) refl)

committed-append_pending :
    (rs ps : List WalRecord) → All IsPending ps → committed (rs ++ ps) ≡ committed rs
unfolding committed
committed-append_pending [] ps h = committed-pending ps h
committed-append_pending (r ∷ rs) ps h =
    ap (hold r (is_some r.timestamp)) (committed-append_pending rs ps h)

take-nil : (n : ℕ) → take {A = ℕ} n [] ≡ []
take-nil zero = refl
take-nil (suc n) = refl

take-beyond : (n : ℕ) (x y : Bytes) → length x ≤ n → take n (x ++ y) ≡ x ++ take (n - length x) y
take-beyond n [] y h = ap (λ m. take m y) (omega arith)
take-beyond zero (b ∷ x) y h = absurd (omega arith)
take-beyond (suc n) (b ∷ x) y h =
    ap (λ l. b ∷ l) (take-beyond n x y (omega arith)) ∙ ap (λ m. b ∷ (x ++ take m y)) (omega arith)

All-drop : (xs ys : List WalRecord) → All IsRecord (xs ++ ys) → All IsRecord ys
All-drop [] ys h = h
All-drop (x ∷ xs) ys h = All-drop xs ys h.1

module _ (crc : Crc32) (z : Zerocopy) (uninit : ℕ → Bytes) (unset : uninit 0 ≡ []) where
  -- The first `n` bytes of the pending records are some of these and bytes that are not read.
  record Cut (c : ℕ) (ps : List WalRecord) (n : ℕ) : Type 0 where
    kept : List WalRecord
    torn : Bytes
    cut : take n (encode crc z c ps) ≡ encode crc z c kept ++ torn
    unreadable : read_raw uninit torn ≡ none
    kept_pending : All IsPending kept
    kept_records : All IsRecord kept

  log-Cut : (c : ℕ) (ps : List WalRecord) (n : ℕ) → All IsPending ps → All IsRecord ps → Cut c ps n
  unfolding encode
  log-Cut c [] n p h = record {
    kept = [];
    torn = [];
    cut = take-nil n;
    unreadable = read_raw-nil uninit;
    kept_pending = tt;
    kept_records = tt;
  }
  log-Cut c (r ∷ ps) n p h =
      let bytes = record_bytes crc z c r.key r.value r.timestamp in
      let rest = encode crc z (roll crc z c r) ps in
      let s = log-Cut (roll crc z c r) ps (n - length bytes) p.1 h.1 in
      elim (ℕ-cases n (length bytes)) [
        | inl l ↦ record {
          kept = [];
          torn = take n bytes;
          cut = take-left n bytes rest (omega arith);
          unreadable = read_raw-torn uninit unset crc z c r n h.0 l;
          kept_pending = tt;
          kept_records = tt;
        }
        | inr l ↦ record {
          kept = r ∷ s.kept;
          torn = s.torn;
          cut =
              take-beyond n bytes rest l
              ∙ (ap (λ x. bytes ++ x) s.cut
                  ∙ sym (append_assoc bytes (encode crc z (roll crc z c r) s.kept) s.torn));
          unreadable = s.unreadable;
          kept_pending = (p.0, s.kept_pending);
          kept_records = (h.0, s.kept_records);
        }
      ]

  pub replay-take :
      (rs : List WalRecord) (n : ℕ)
      → All IsRecord rs
      → length (encode crc z 0 (committed rs)) ≤ n
      → replay crc z uninit (take n (encode crc z 0 rs)) ≡ some (committed rs)
  replay-take rs n h l =
      let cs = committed rs in
      let s = log-Split rs in
      let records : All IsRecord (cs ++ s.tail) = subst (All IsRecord) s.split h in
      let c' = rolled crc z 0 cs in
      let m = n - length (encode crc z 0 cs) in
      let t = log-Cut c' s.tail m s.pending (All-drop cs s.tail records) in
      let cut_is : take n (encode crc z 0 rs) ≡ encode crc z 0 (cs ++ t.kept) ++ t.torn =
        ap (λ l. take n (encode crc z 0 l)) s.split
        ∙ (ap (take n) (encode-append crc z 0 cs s.tail)
            ∙ (take-beyond n (encode crc z 0 cs) (encode crc z c' s.tail) l
                ∙ (ap (λ x. encode crc z 0 cs ++ x) t.cut
                    ∙ (sym (append_assoc (encode crc z 0 cs) (encode crc z c' t.kept) t.torn)
                        ∙ ap (λ x. x ++ t.torn) (sym (encode-append crc z 0 cs t.kept)))))) in
      ap (replay crc z uninit) cut_is
      ∙ (replay-encode crc z uninit unset (cs ++ t.kept) t.torn
            (All-append IsRecord cs t.kept (All-front cs s.tail records) t.kept_records)
            t.unreadable
          ∙ ap some (committed-append_pending cs t.kept t.kept_pending ∙ committed-committed rs))

  -- The same where a further record is being written and is not there in full.
  pub replay-take_last :
      (rs : List WalRecord) (r : WalRecord) (n : ℕ)
      → All IsRecord rs
      → IsRecord r
      → length (encode crc z 0 (committed rs)) ≤ n
      → n < length (encode crc z 0 (rs ++ r ∷ []))
      → replay crc z uninit (take n (encode crc z 0 (rs ++ r ∷ []))) ≡ some (committed rs)
  replay-take_last rs r n h hr l u =
      let log = encode crc z 0 rs in
      let bytes = record_bytes crc z (rolled crc z 0 rs) r.key r.value r.timestamp in
      let file_is : encode crc z 0 (rs ++ r ∷ []) ≡ log ++ bytes = encode-snoc crc z rs r in
      let cut = ap (take n) file_is in
      let more : n < length log + length bytes =
        omega (arith, u, ap length file_is, length-append log bytes) in
      elim (ℕ-cases n (length log)) [
        | inl below ↦
            ap (replay crc z uninit) (cut ∙ take-left n log bytes (omega arith))
            ∙ replay-take rs n h l
        | inr above ↦
            ap (replay crc z uninit) (cut ∙ take-beyond n log bytes above)
            ∙ replay-encode crc z uninit unset rs (take (n - length log) bytes) h (
                read_raw-torn uninit unset crc z (rolled crc z 0 rs) r (n - length log) hr
                  (omega arith))
      ]

  -- A crash that leaves the file of the log at any length from the last commit on: `replay`
  -- returns the committed records, those up to the last timestamp of the list that the calls
  -- describe. The log was filled from the empty one by `write_record`, `truncate_to_last_commit`
  -- and `reset` in any order, with records that the format can hold; unset memory of no bytes is
  -- empty.
  pub replay-take-apply :
      (ops : List Op) (n : ℕ)
      → AreRecords ops
      → (apply crc z create ops).last_commit_pos ≤ n
      → replay crc z uninit (take n (apply crc z create ops).file)
        ≡ some (committed (logged [] ops))
  replay-take-apply ops n h l =
      let i = apply-IsLog crc z create [] ops (create-IsLog crc z) in
      ap (λ f. replay crc z uninit (take n f)) i.file_is
      ∙ replay-take (logged [] ops) n (logged-All [] ops tt h) (omega (arith, i.pos_is))
