-- ===== src/Wal/Replay.antt =====
-- `replay` reads back what `write_record` wrote.
use Prim.Native.Nat.{bit_and}
use cdoc.Prelude.{
  ℕ, ◌%◌, ◌^◌, ◌<◌, ◌≡◌, refl, arith, [], ◌∷◌, ◌++◌, Bytes, length, append_assoc, length-append,
  take-append, drop-append, Option, none, some, le→not-ltb, ◌==◌, not, ◌⊎◌, inl, inr,
}
use native.Mathlib.Nat.{mod-eq_of_lt}
use cdoc.Varint.BigEndian.{length-be_bytes, of_be-be_bytes}
use cdoc.Varint.LittleEndian.{le_bytes, length-le_bytes, of_le-le_bytes}
use cdoc.Zerocopy.{Zerocopy}
use cdoc.Crc32.{Crc32}
use cdoc.Hlc.{Timestamp}
use cdoc.Wal.{
  WalRecord, commit_bit, read_exact, read_data, read_timestamp, read_raw, is_some, update_timestamp,
  checksum, timestamp_bytes, length_word, record_bytes,
}
use cdoc.Wal.Bits.{bit_or-commit, bit_and-clear, bit_and-marked}

-- A record that the format can hold: the key below 2 ^ 15 bytes, the value below 2 ^ 16, and no
-- value without a key.
pub record IsRecord (r : WalRecord) : Type 0 where
  pub key_fits : length r.key < 2 ^ 15
  pub value_fits : length r.value < 2 ^ 16
  pub keyed : (0 < length r.key) ⊎ (r.value ≡ [])
  pub stamped : (ts : Timestamp) → r.timestamp ≡ some ts → ts < 2 ^ 64

read_exact-append :
    (n : ℕ) (a rest : Bytes) → length a ≡ n → read_exact n (a ++ rest) ≡ some (a, rest)
unfolding read_exact
read_exact-append n a rest h = rw (← h) (
    rw (
      le→not-ltb (length (a ++ rest)) (length a) (omega (arith, length-append a rest)),
      take-append a rest,
      drop-append a rest,
    ))

module _ (crc : Crc32) (z : Zerocopy) where
  length_word_lem :
      (key : Bytes) (t : Option Timestamp)
      → length key < 2 ^ 15
      → (length_word crc z key t < 2 ^ 16)
        × (bit_and (length_word crc z key t) 0x7fff ≡ length key)
        × (not (bit_and (length_word crc z key t) commit_bit == 0) ≡ is_some t)
  length_word_lem key none h =
      let small : length key % 2 ^ 16 ≡ length key = omega arith in
      rw small (ground (arith, bit_and-clear (length key) (omega arith)))
  length_word_lem key (some ts) h =
      let small : length key % 2 ^ 16 ≡ length key = omega arith in
      rw small (
        rw (bit_or-commit (length key) (omega arith))
          (ground (arith, bit_and-marked (length key) (omega arith))))

  checksum_u32 :
      (c : ℕ) (key value : Bytes) (t : Option Timestamp) → checksum crc z c key value t < 2 ^ 32
  unfolding checksum
  checksum_u32 c key value t =
      crc.finalize_u32
        (update_timestamp crc z (crc.update (crc.update (crc.new_with_initial c) key) value) t)

  length-timestamp_bytes : (ts : Timestamp) → length (z.as_bytes 8 ts) ≡ 8
  length-timestamp_bytes ts = rw (z.as_bytes_lem 8 ts) (length-be_bytes 8 ts)

  read_timestamp-bytes :
      (t : Option Timestamp) (rest : Bytes)
      → ((ts : Timestamp) → t ≡ some ts → ts < 2 ^ 64)
      → read_timestamp (is_some t) (timestamp_bytes crc z t ++ rest) ≡ some (t, rest)
  unfolding read_timestamp
  read_timestamp-bytes none rest h = refl
  read_timestamp-bytes (some ts) rest h =
      rw (read_exact-append 8 (z.as_bytes 8 ts) rest (length-timestamp_bytes ts))
        (rw (z.as_bytes_lem 8 ts) (rw (of_be-be_bytes 8 ts (h ts refl))))

module _ (uninit : ℕ → Bytes) (unset : uninit 0 ≡ []) where
  read_data-bytes :
      (key value rest : Bytes)
      → (0 < length key) ⊎ (value ≡ [])
      → read_data uninit (length key) (length value) (key ++ (value ++ rest))
        ≡ some ((key, value), rest)
  unfolding read_data
  read_data-bytes [] value rest (inl p) = absurd (omega arith)
  read_data-bytes [] value rest (inr e) = rw e (rw unset)
  read_data-bytes (b ∷ key) value rest k =
      rw (read_exact-append (length (b ∷ key)) (b ∷ key) (value ++ rest) refl)
        (rw (read_exact-append (length value) value rest refl) (ground arith))

  module _ (crc : Crc32) (z : Zerocopy) where
    fields :
        (c : ℕ) (r : WalRecord) (rest : Bytes)
        → record_bytes crc z c r.key r.value r.timestamp ++ rest
          ≡ le_bytes 2 (length_word crc z r.key r.timestamp)
            ++ (le_bytes 2 (length r.value % 2 ^ 16)
                ++ (r.key
                    ++ (r.value
                        ++ (timestamp_bytes crc z r.timestamp
                            ++ (le_bytes 4 (checksum crc z c r.key r.value r.timestamp) ++ rest)))))
    unfolding record_bytes
    fields c r rest = simp append_assoc

    -- What `write_record` appended is read as one record, with the checksum that was written.
    pub read_raw-record_bytes :
        (c : ℕ) (r : WalRecord) (rest : Bytes)
        → IsRecord r
        → read_raw uninit (record_bytes crc z c r.key r.value r.timestamp ++ rest)
          ≡ some (
            record {
              key = r.key;
              value = r.value;
              timestamp = r.timestamp;
              verify_crc = checksum crc z c r.key r.value r.timestamp;
            },
            rest,
          )
    unfolding read_raw
    read_raw-record_bytes c r rest h =
        let word = length_word crc z r.key r.timestamp in
        let sum = checksum crc z c r.key r.value r.timestamp in
        let l = length_word_lem crc z r.key r.timestamp h.key_fits in
        let small : length r.value % 2 ^ 16 ≡ length r.value = mod-eq_of_lt h.value_fits in
        let tail = timestamp_bytes crc z r.timestamp ++ (le_bytes 4 sum ++ rest) in
        let body = r.key ++ (r.value ++ tail) in
        rw (fields c r rest) (
          rw small (
            rw
              (read_exact-append 2 (le_bytes 2 word) (le_bytes 2 (length r.value) ++ body)
                (length-le_bytes 2 word))
              (rw (of_le-le_bytes 2 word l.0) (
                rw
                  (read_exact-append 2 (le_bytes 2 (length r.value)) body
                    (length-le_bytes 2 (length r.value)))
                  (rw (of_le-le_bytes 2 (length r.value) (omega (arith, h.value_fits))) (
                    rw l.1 (
                      rw (read_data-bytes r.key r.value tail h.keyed) (
                        rw l.2 (
                          rw
                            (read_timestamp-bytes crc z r.timestamp (le_bytes 4 sum ++ rest)
                              h.stamped)
                            (rw (read_exact-append 4 (le_bytes 4 sum) rest (length-le_bytes 4 sum))
                              (rw (
                                of_le-le_bytes 4 sum
                                  (checksum_u32 crc z c r.key r.value r.timestamp)))))))))))))
