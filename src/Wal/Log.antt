-- ===== src/Wal/Log.antt =====
-- The log as the list of the records written to it, and what `replay` makes of them.
use cdoc.Prelude.{
  ℕ, zero, suc, ◌+◌, ◌≤◌, ◌<◌, ◌≡◌, refl, ap, ◌∙◌, arith, List, [], ◌∷◌, ◌++◌, Bytes, length, take,
  append_assoc, length-append, Option, none, some, Bool, true, false, if◌then◌else◌, All, eq→==,
  Bool-cases, inl, inr,
}
use cdoc.Varint.LittleEndian.{le_bytes}
use cdoc.Zerocopy.{Zerocopy}
use cdoc.Crc32.{Crc32}
use cdoc.Wal.{
  WalRecord, read_raw, is_some, checksum, record_bytes, replay_round, replay_loop, replay,
}
use cdoc.Wal.Replay.{IsRecord, read_raw-record_bytes}

-- What of the log is committed: the records up to the last one that has a timestamp.
unfoldable pub hold : WalRecord → Bool → List WalRecord → List WalRecord
hold r true rs = r ∷ rs
hold r false [] = []
hold r false (x ∷ xs) = r ∷ x ∷ xs

unfoldable pub committed : List WalRecord → List WalRecord
unfolding hold
committed [] = []
committed (r ∷ rs) = hold r (is_some r.timestamp) (committed rs)

unfoldable settled : List WalRecord → ℕ → List WalRecord → List WalRecord
settled acc n [] = take n acc
settled acc n (x ∷ xs) = acc ++ (x ∷ xs)

whole : (xs : List WalRecord) → take (length xs) xs ≡ xs
whole [] = refl
whole (x ∷ xs) = ap (λ l. x ∷ l) (whole xs)

take-within : (n : ℕ) (xs ys : List WalRecord) → n ≤ length xs → take n (xs ++ ys) ≡ take n xs
take-within zero xs ys h = refl
take-within (suc n) [] ys h = absurd (omega arith)
take-within (suc n) (x ∷ xs) ys h = ap (λ l. x ∷ l) (take-within n xs ys (omega arith))

settled-nil : (cs : List WalRecord) → settled [] 0 cs ≡ cs
unfolding settled
settled-nil [] = refl
settled-nil (x ∷ xs) = refl

settled-true :
    (acc : List WalRecord) (n : ℕ) (r : WalRecord) (cs : List WalRecord)
    → settled (acc ++ r ∷ []) (length (acc ++ r ∷ [])) cs ≡ settled acc n (r ∷ cs)
unfolding settled
settled-true acc n r [] = whole (acc ++ r ∷ [])
settled-true acc n r (x ∷ xs) = append_assoc acc (r ∷ []) (x ∷ xs)

settled-false :
    (acc : List WalRecord) (n : ℕ) (r : WalRecord) (cs : List WalRecord)
    → n ≤ length acc
    → settled (acc ++ r ∷ []) n cs ≡ settled acc n (hold r false cs)
unfolding settled hold
settled-false acc n r [] h = take-within n acc (r ∷ []) h
settled-false acc n r (x ∷ xs) h = append_assoc acc (r ∷ []) (x ∷ xs)

module _ (crc : Crc32) (z : Zerocopy) where
  -- The checksum that the next record starts from.
  abbrev pub roll : ℕ → WalRecord → ℕ
  roll c r = if is_some r.timestamp then 0 else checksum crc z c r.key r.value r.timestamp

  -- The file of a log.
  unfoldable pub encode : ℕ → List WalRecord → Bytes
  encode c [] = []
  encode c (r ∷ rs) = record_bytes crc z c r.key r.value r.timestamp ++ encode (roll c r) rs

  length-record_bytes :
      (c : ℕ) (r : WalRecord) → 0 < length (record_bytes crc z c r.key r.value r.timestamp)
  unfolding record_bytes le_bytes
  length-record_bytes c r = omega arith

  round_lem :
      (k : Bytes → List WalRecord → ℕ → ℕ → Option (List WalRecord)) (acc : List WalRecord)
      (n c : ℕ) (r : WalRecord) (rest : Bytes)
      → replay_round crc z k acc n c (
          some (
            record {
              key = r.key;
              value = r.value;
              timestamp = r.timestamp;
              verify_crc = checksum crc z c r.key r.value r.timestamp;
            },
            rest,
          ))
        ≡ (if is_some r.timestamp
            then k rest (acc ++ r ∷ []) (length (acc ++ r ∷ [])) 0
            else k rest (acc ++ r ∷ []) n (checksum crc z c r.key r.value r.timestamp))
  round_lem k acc n c r rest =
      let sum = checksum crc z c r.key r.value r.timestamp in rw (eq→== sum sum refl) refl

  module _ (uninit : ℕ → Bytes) (unset : uninit 0 ≡ []) where
    replay_loop-suc :
        (fuel : ℕ) (bs : Bytes) (acc : List WalRecord) (n c : ℕ)
        → 0 < length bs
        → replay_loop crc z uninit (suc fuel) bs acc n c
          ≡ replay_round crc z (replay_loop crc z uninit fuel) acc n c (read_raw uninit bs)
    unfolding replay_loop
    replay_loop-suc fuel [] acc n c h = absurd (omega arith)
    replay_loop-suc fuel (b ∷ bs) acc n c h = refl

    replay_loop-unreadable :
        (fuel : ℕ) (tail : Bytes) (acc : List WalRecord) (n c : ℕ)
        → 0 < fuel
        → read_raw uninit tail ≡ none
        → replay_loop crc z uninit fuel tail acc n c ≡ some (take n acc)
    unfolding replay_loop
    replay_loop-unreadable zero tail acc n c f h = absurd (omega arith)
    replay_loop-unreadable (suc fuel) [] acc n c f h = refl
    replay_loop-unreadable (suc fuel) (b ∷ bs) acc n c f h = rw h refl

    replay_loop-encode :
        (fuel : ℕ) (rs acc : List WalRecord) (n c : ℕ) (tail : Bytes)
        → All IsRecord rs
        → read_raw uninit tail ≡ none
        → n ≤ length acc
        → length (encode c rs) < fuel
        → replay_loop crc z uninit fuel (encode c rs ++ tail) acc n c
          ≡ some (settled acc n (committed rs))
    unfolding encode settled committed
    replay_loop-encode zero rs acc n c tail h u l f = absurd (omega arith)
    replay_loop-encode (suc fuel) [] acc n c tail h u l f =
        replay_loop-unreadable (suc fuel) tail acc n c (omega arith) u
    replay_loop-encode (suc fuel) (r ∷ rs) acc n c tail h u l f =
        let bytes = record_bytes crc z c r.key r.value r.timestamp in
        let rest = encode (roll c r) rs in
        let whole_length = length-append bytes rest in
        let all_length = length-append bytes (rest ++ tail) in
        let positive = length-record_bytes c r in
        let sum = checksum crc z c r.key r.value r.timestamp in
        let size : Bool → ℕ = λ b. length (encode (if b then 0 else sum) rs) in
        rw (append_assoc bytes rest tail) (
          rw (replay_loop-suc fuel (bytes ++ (rest ++ tail)) acc n c (omega arith)) (
            rw (read_raw-record_bytes uninit unset crc z c r (rest ++ tail) h.0) (
              rw (round_lem (replay_loop crc z uninit fuel) acc n c r (rest ++ tail))
                (elim (Bool-cases (is_some r.timestamp)) [
                  | inl e ↦ rw e (
                      replay_loop-encode fuel rs (acc ++ r ∷ []) (length (acc ++ r ∷ [])) 0 tail h.1
                        u (omega arith) (omega (arith, ap size e))
                      ∙ ap some (settled-true acc n r (committed rs)))
                  | inr e ↦ rw e (
                      replay_loop-encode fuel rs (acc ++ r ∷ []) n sum tail h.1 u
                        (omega (arith, length-append acc (r ∷ []))) (omega (arith, ap size e))
                      ∙ ap some (settled-false acc n r (committed rs) l))
                ]))))

    -- `replay` reads the log in front of anything that cannot be read as a record.
    pub replay-encode :
        (rs : List WalRecord) (tail : Bytes)
        → All IsRecord rs
        → read_raw uninit tail ≡ none
        → replay crc z uninit (encode 0 rs ++ tail) ≡ some (committed rs)
    unfolding replay
    replay-encode rs tail h u =
        replay_loop-encode (length (encode 0 rs ++ tail) + 1) rs [] 0 0 tail h u (omega arith)
          (omega (arith, length-append (encode 0 rs) tail))
        ∙ ap some (settled-nil (committed rs))
