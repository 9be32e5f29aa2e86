-- ===== src/Wal/Writer.antt =====
-- The methods that write to the log, against the list of its records.
use cdoc.Prelude.{
  ℕ, ◌≡◌, refl, sym, ap, ◌∙◌, List, [], ◌∷◌, ◌++◌, Bytes, length, take, append_assoc, append-nil,
  take-append, Option, none, some, Bool, true, false, All, All-append, ◌⊎◌, inl, inr,
}
use cdoc.Zerocopy.{Zerocopy}
use cdoc.Crc32.{Crc32}
use cdoc.Hlc.{Timestamp}
use cdoc.Wal.{
  WriteAheadLog, WalRecord, create, truncate_to_last_commit, reset, write_record, is_some,
  record_bytes, replay, read_raw, read_exact,
}
use cdoc.Wal.Replay.{IsRecord}
use cdoc.Wal.Log.{hold, committed, roll, encode, replay-encode}

-- What the methods do to the list of records. A `write_commit` is a write with a timestamp.
pub data Op : Type 0 where
  write : WalRecord → Op
  truncate : Op
  clear : Op

abbrev pub logged : List WalRecord → List Op → List WalRecord
logged rs [] = rs
logged rs (Op.write r ∷ ops) = logged (rs ++ r ∷ []) ops
logged rs (Op.truncate ∷ ops) = logged (committed rs) ops
logged rs (Op.clear ∷ ops) = logged [] ops

abbrev pub AreRecords : List Op → Type 0
AreRecords [] = Unit
AreRecords (Op.write r ∷ ops) = IsRecord r × AreRecords ops
AreRecords (Op.truncate ∷ ops) = AreRecords ops
AreRecords (Op.clear ∷ ops) = AreRecords ops

pub read_raw-nil : (uninit : ℕ → Bytes) → read_raw uninit [] ≡ none
unfolding read_raw read_exact
read_raw-nil uninit = refl

-- The records behind the last commit.
hold-pending :
    (r : WalRecord) (b : Bool) (rs cs : List WalRecord)
    → (tail : List WalRecord) × (rs ≡ cs ++ tail)
    → (tail : List WalRecord) × (r ∷ rs ≡ hold r b cs ++ tail)
unfolding hold
hold-pending r true rs cs (tail, e) = (tail, ap (λ l. r ∷ l) e)
hold-pending r false rs [] (tail, e) = (r ∷ rs, refl)
hold-pending r false rs (x ∷ cs) (tail, e) = (tail, ap (λ l. r ∷ l) e)

pub pending : (rs : List WalRecord) → (tail : List WalRecord) × (rs ≡ committed rs ++ tail)
unfolding committed
pending [] = ([], refl)
pending (r ∷ rs) = hold-pending r (is_some r.timestamp) rs (committed rs) (pending rs)

hold-append :
    (x : WalRecord) (b : Bool) (rs : List WalRecord) (r : WalRecord)
    → hold x b (rs ++ r ∷ []) ≡ x ∷ (rs ++ r ∷ [])
unfolding hold
hold-append x true rs r = refl
hold-append x false [] r = refl
hold-append x false (y ∷ rs) r = refl

hold-true : {r : WalRecord} {rs : List WalRecord} → hold r true rs ≡ r ∷ rs
unfolding hold
hold-true = refl

hold-nil : (r : WalRecord) → hold r false [] ≡ []
unfolding hold
hold-nil r = refl

pub committed-append_some :
    (rs : List WalRecord) (r : WalRecord)
    → is_some r.timestamp ≡ true
    → committed (rs ++ r ∷ []) ≡ rs ++ r ∷ []
unfolding committed
committed-append_some [] r h = rw h (hold-true)
committed-append_some (x ∷ rs) r h =
    ap (hold x (is_some x.timestamp)) (committed-append_some rs r h)
    ∙ hold-append x (is_some x.timestamp) rs r

pub committed-append_none :
    (rs : List WalRecord) (r : WalRecord)
    → is_some r.timestamp ≡ false
    → committed (rs ++ r ∷ []) ≡ committed rs
unfolding committed
committed-append_none [] r h = rw h (hold-nil r)
committed-append_none (x ∷ rs) r h =
    ap (hold x (is_some x.timestamp)) (committed-append_none rs r h)

pub All-front : (xs ys : List WalRecord) → All IsRecord (xs ++ ys) → All IsRecord xs
All-front [] ys h = tt
All-front (x ∷ xs) ys h = (h.0, All-front xs ys h.1)

committed-hold :
    (r : WalRecord) (b : Bool) (cs : List WalRecord)
    → is_some r.timestamp ≡ b
    → committed cs ≡ cs
    → committed (hold r b cs) ≡ hold r b cs
unfolding committed hold
committed-hold r true cs e h = rw e (rw h refl)
committed-hold r false [] e h = refl
committed-hold r false (x ∷ xs) e h = rw e (rw h refl)

pub committed-committed : (rs : List WalRecord) → committed (committed rs) ≡ committed rs
unfolding committed
committed-committed [] = refl
committed-committed (r ∷ rs) =
    committed-hold r (is_some r.timestamp) (committed rs) refl (committed-committed rs)

pub committed-All : (rs : List WalRecord) → All IsRecord rs → All IsRecord (committed rs)
committed-All rs h = All-front (committed rs) (pending rs).0 (rw (← (pending rs).1) h)

pub logged-All :
    (rs : List WalRecord) (ops : List Op)
    → All IsRecord rs
    → AreRecords ops
    → All IsRecord (logged rs ops)
logged-All rs [] l h = l
logged-All rs (Op.write r ∷ ops) l h =
    logged-All (rs ++ r ∷ []) ops (All-append IsRecord rs (r ∷ []) l (h.0, tt)) h.1
logged-All rs (Op.truncate ∷ ops) l h = logged-All (committed rs) ops (committed-All rs l) h
logged-All rs (Op.clear ∷ ops) l h = logged-All [] ops tt h

module _ (crc : Crc32) (z : Zerocopy) where
  abbrev pub rolled : ℕ → List WalRecord → ℕ
  rolled c [] = c
  rolled c (r ∷ rs) = rolled (roll crc z c r) rs

  pub encode-append :
      (c : ℕ) (xs ys : List WalRecord)
      → encode crc z c (xs ++ ys) ≡ encode crc z c xs ++ encode crc z (rolled c xs) ys
  unfolding encode
  encode-append c [] ys = refl
  encode-append c (x ∷ xs) ys =
      let bytes = record_bytes crc z c x.key x.value x.timestamp in
      ap (λ l. bytes ++ l) (encode-append (roll crc z c x) xs ys)
      ∙ sym (
          append_assoc bytes (encode crc z (roll crc z c x) xs)
            (encode crc z (rolled (roll crc z c x) xs) ys))

  rolled-append :
      (c : ℕ) (rs : List WalRecord) (r : WalRecord)
      → rolled c (rs ++ r ∷ []) ≡ roll crc z (rolled c rs) r
  rolled-append c [] r = refl
  rolled-append c (x ∷ rs) r = rolled-append (roll crc z c x) rs r

  rolled-hold :
      (c : ℕ) (r : WalRecord) (b : Bool) (cs : List WalRecord)
      → is_some r.timestamp ≡ b
      → (cs ≡ []) ⊎ (rolled (roll crc z c r) cs ≡ 0)
      → (hold r b cs ≡ []) ⊎ (rolled c (hold r b cs) ≡ 0)
  unfolding hold
  rolled-hold c r true [] e h = inr (rw e refl)
  rolled-hold c r true (x ∷ xs) e h = inr (elim h [ inl n ↦ absurd (cc n) | inr p ↦ p ])
  rolled-hold c r false [] e h = inl refl
  rolled-hold c r false (x ∷ xs) e h = inr (elim h [ inl n ↦ absurd (cc n) | inr p ↦ p ])

  rolled-committed :
      (c : ℕ) (rs : List WalRecord) → (committed rs ≡ []) ⊎ (rolled c (committed rs) ≡ 0)
  unfolding committed
  rolled-committed c [] = inl refl
  rolled-committed c (r ∷ rs) =
      rolled-hold c r (is_some r.timestamp) (committed rs) refl
        (rolled-committed (roll crc z c r) rs)

  -- The log holds the records `rs`.
  pub record IsLog (w : WriteAheadLog) (rs : List WalRecord) : Type 0 where
    pub file_is : w.file ≡ encode crc z 0 rs
    pub pos_is : w.last_commit_pos ≡ length (encode crc z 0 (committed rs))
    pub crc_is : w.rolling_crc ≡ rolled 0 rs

  pub encode-snoc :
      (rs : List WalRecord) (r : WalRecord)
      → encode crc z 0 (rs ++ r ∷ [])
        ≡ encode crc z 0 rs ++ record_bytes crc z (rolled 0 rs) r.key r.value r.timestamp
  unfolding encode
  encode-snoc rs r =
      encode-append 0 rs (r ∷ [])
      ∙ ap (λ l. encode crc z 0 rs ++ l)
          (append-nil (record_bytes crc z (rolled 0 rs) r.key r.value r.timestamp))

  pub write_record-IsLog :
      (w : WriteAheadLog) (rs : List WalRecord) (key value : Bytes) (t : Option Timestamp)
      → IsLog w rs
      → IsLog
          (write_record crc z key value t w)
          (rs ++ record { key = key; value = value; timestamp = t } ∷ [])
  unfolding write_record
  write_record-IsLog w rs key value none h =
      let r : WalRecord = record { key = key; value = value; timestamp = none } in
      record {
        file_is = rw h.file_is (rw h.crc_is (sym (encode-snoc rs r)));
        pos_is = rw (committed-append_none rs r refl) h.pos_is;
        crc_is = rw (rolled-append 0 rs r) (rw h.crc_is refl);
      }
  write_record-IsLog w rs key value (some ts) h =
      let r : WalRecord = record { key = key; value = value; timestamp = some ts } in
      let file : w.file ++ record_bytes crc z w.rolling_crc key value (some ts)
          ≡ encode crc z 0 (rs ++ r ∷ []) =
        rw h.file_is (rw h.crc_is (sym (encode-snoc rs r))) in
      record {
        file_is = file;
        pos_is = rw (committed-append_some rs r refl) (ap length file);
        crc_is = rw (rolled-append 0 rs r) refl;
      }

  front :
      (rs : List WalRecord)
      → take (length (encode crc z 0 (committed rs))) (encode crc z 0 rs)
        ≡ encode crc z 0 (committed rs)
  front rs =
      let cs = committed rs in
      let tail = (pending rs).0 in
      ap (λ l. take (length (encode crc z 0 cs)) (encode crc z 0 l)) (pending rs).1
      ∙ (ap (take (length (encode crc z 0 cs))) (encode-append 0 cs tail)
          ∙ take-append (encode crc z 0 cs) (encode crc z (rolled 0 cs) tail))

  pub truncate-IsLog :
      (w : WriteAheadLog) (rs : List WalRecord)
      → IsLog w rs
      → IsLog (truncate_to_last_commit w) (committed rs)
  unfolding truncate_to_last_commit
  truncate-IsLog w rs h = record {
    file_is = rw h.file_is (rw h.pos_is (front rs));
    pos_is = rw (committed-committed rs) h.pos_is;
    crc_is = elim (rolled-committed 0 rs) [ inl e ↦ rw e refl | inr e ↦ sym e ];
  }

  pub reset-IsLog : (w : WriteAheadLog) → IsLog (reset w) []
  unfolding reset encode committed
  reset-IsLog w = record { file_is = refl; pos_is = refl; crc_is = refl }

  pub create-IsLog : IsLog create []
  unfolding create encode committed
  create-IsLog = record { file_is = refl; pos_is = refl; crc_is = refl }

  abbrev pub apply : WriteAheadLog → List Op → WriteAheadLog
  apply w [] = w
  apply w (Op.write r ∷ ops) = apply (write_record crc z r.key r.value r.timestamp w) ops
  apply w (Op.truncate ∷ ops) = apply (truncate_to_last_commit w) ops
  apply w (Op.clear ∷ ops) = apply (reset w) ops

  pub apply-IsLog :
      (w : WriteAheadLog) (rs : List WalRecord) (ops : List Op)
      → IsLog w rs
      → IsLog (apply w ops) (logged rs ops)
  apply-IsLog w rs [] h = h
  apply-IsLog w rs (Op.write r ∷ ops) h =
      apply-IsLog (write_record crc z r.key r.value r.timestamp w) (rs ++ r ∷ []) ops
        (write_record-IsLog w rs r.key r.value r.timestamp h)
  apply-IsLog w rs (Op.truncate ∷ ops) h =
      apply-IsLog (truncate_to_last_commit w) (committed rs) ops (truncate-IsLog w rs h)
  apply-IsLog w rs (Op.clear ∷ ops) h = apply-IsLog (reset w) [] ops (reset-IsLog w)

  -- Whatever sequence of `write_record`, `truncate_to_last_commit` and `reset` filled a new log,
  -- `replay` of its file ends, and returns the committed records of the list that the sequence
  -- describes. The records are such that the format can hold them; unset memory of no bytes is
  -- empty.
  pub replay-apply :
      (uninit : ℕ → Bytes)
      → uninit 0 ≡ []
      → (ops : List Op) → AreRecords ops
      → replay crc z uninit (apply create ops).file ≡ some (committed (logged [] ops))
  replay-apply uninit unset ops h =
      let l = apply-IsLog create [] ops create-IsLog in
      let file = encode crc z 0 (logged [] ops) in
      ap (replay crc z uninit) (l.file_is ∙ sym (append-nil file))
      ∙ replay-encode crc z uninit unset (logged [] ops) [] (logged-All [] ops tt h)
          (read_raw-nil uninit)
