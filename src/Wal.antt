-- ===== src/Wal.antt =====
-- src/wal/mod.rs: the write-ahead log. The file is its bytes, and the position in it is its end:
-- every method writes there or cuts the file there. The operating system's errors are left out.
mod Bits
pub mod Replay
pub mod Log
pub mod Writer
pub mod Torn
pub mod Crash
use Prim.Native.Nat.{bit_or, bit_and}
use cdoc.Prelude.{
  ℕ, zero, suc, ◌+◌, ◌%◌, ◌^◌, ◌==◌, List, [], ◌∷◌, ◌++◌, Bytes, length, take, drop, ltb, Option,
  none, some, Bool, true, false, if◌then◌else◌, not,
}
use cdoc.Varint.BigEndian.{of_be}
use cdoc.Varint.LittleEndian.{le_bytes, of_le}
use cdoc.Zerocopy.{Zerocopy}
use cdoc.Crc32.{Crc32}
use cdoc.Hlc.{Timestamp}

pub record WriteAheadLog : Type 0 where
  pub file : Bytes
  pub last_commit_pos : ℕ
  pub rolling_crc : ℕ

pub record WalRecord : Type 0 where
  pub key : Bytes
  pub value : Bytes
  pub timestamp : Option Timestamp

-- `COMMIT_BIT`
abbrev pub commit_bit : ℕ
commit_bit = 2 ^ 15

unfoldable pub create : WriteAheadLog
create = record { file = []; last_commit_pos = 0; rolling_crc = 0 }

-- `truncate_to_last_commit`: `set_len`, and a seek to the new end.
unfoldable pub truncate_to_last_commit : WriteAheadLog → WriteAheadLog
truncate_to_last_commit w = record w { file = take w.last_commit_pos w.file; rolling_crc = 0 }

unfoldable pub reset : WriteAheadLog → WriteAheadLog
reset w = record { file = []; last_commit_pos = 0; rolling_crc = 0 }

-- `read_exact`: the bytes read and the bytes behind them, or an error.
unfoldable pub read_exact : ℕ → Bytes → Option (Bytes × Bytes)
read_exact n rest = if ltb (length rest) n then none else some (take n rest, drop n rest)

infixl 5 ◌>>=◌
abbrev pub ◌>>=◌ {ℓ κ} : {A : Type ℓ} {B : Type κ} → Option A → (A → Option B) → Option B
none >>= f = none
some a >>= f = f a

-- A record as it stands in the file.
pub record Raw : Type 0 where
  pub key : Bytes
  pub value : Bytes
  pub timestamp : Option Timestamp
  pub verify_crc : ℕ

unfoldable pub read_timestamp : Bool → Bytes → Option (Option Timestamp × Bytes)
read_timestamp is_commit rest =
    if is_commit
    then (do (buf, rest') ← read_exact 8 rest; some (some (of_be buf), rest'))
    else some (none, rest)

module _ (uninit : ℕ → Bytes) where
  -- Key and value are read only where the key's length is not 0. A value that is not read is
  -- memory that nobody has set: `uninit` gives its bytes.
  unfoldable pub read_data : ℕ → ℕ → Bytes → Option ((Bytes × Bytes) × Bytes)
  read_data key_len value_len rest =
      if key_len == 0 then some (([], uninit value_len), rest) else (do
        (key, rest') ← read_exact key_len rest
        (value, rest'') ← read_exact value_len rest'
        some ((key, value), rest''))

  -- One record of `replay`, up to the comparison of the checksums; `none` stands for `break`.
  unfoldable pub read_raw : Bytes → Option (Raw × Bytes)
  read_raw rest = do
    (buf2, rest₁) ← read_exact 2 rest
    let raw_len = of_le buf2
    let is_commit = not (bit_and raw_len commit_bit == 0)
    let key_len = bit_and raw_len 0x7fff
    (buf2', rest₂) ← read_exact 2 rest₁
    let value_len = of_le buf2'
    ((key, value), rest₃) ← read_data key_len value_len rest₂
    (timestamp, rest₄) ← read_timestamp is_commit rest₃
    (buf, rest₅) ← read_exact 4 rest₄
    some (record { key = key; value = value; timestamp = timestamp; verify_crc = of_le buf }, rest₅)

abbrev pub is_some {ℓ} : {A : Type ℓ} → Option A → Bool
is_some none = false
is_some (some a) = true

module _ (crc : Crc32) (z : Zerocopy) where
  open crc use {Hasher, new_with_initial, update, finalize}

  abbrev pub update_timestamp : Hasher → Option Timestamp → Hasher
  update_timestamp h none = h
  update_timestamp h (some ts) = update h (z.as_bytes 8 ts)

  -- The checksum of a record, started from the checksum of the records before it.
  unfoldable pub checksum : ℕ → Bytes → Bytes → Option Timestamp → ℕ
  checksum rolling_crc key value timestamp =
      finalize
        (update_timestamp (update (update (new_with_initial rolling_crc) key) value) timestamp)

  abbrev pub timestamp_bytes : Option Timestamp → Bytes
  timestamp_bytes none = []
  timestamp_bytes (some ts) = z.as_bytes 8 ts

  -- `key.len() as u16`, with the commit bit.
  abbrev pub length_word : Bytes → Option Timestamp → ℕ
  length_word key none = length key % 2 ^ 16
  length_word key (some ts) = bit_or (length key % 2 ^ 16) commit_bit

  -- The bytes that `write_record` appends.
  unfoldable pub record_bytes : ℕ → Bytes → Bytes → Option Timestamp → Bytes
  unfolding checksum
  record_bytes rolling_crc key value commit =
      le_bytes 2 (length_word key commit)
      ++ le_bytes 2 (length value % 2 ^ 16)
      ++ key
      ++ value
      ++ timestamp_bytes commit
      ++ le_bytes 4 (checksum rolling_crc key value commit)

  unfoldable pub write_record : Bytes → Bytes → Option Timestamp → WriteAheadLog → WriteAheadLog
  unfolding record_bytes
  write_record key value commit w =
      let file = w.file ++ record_bytes w.rolling_crc key value commit in
      elim commit [
        | none ↦ record w { file = file; rolling_crc = checksum w.rolling_crc key value none }
        | some ts ↦ record w { file = file; last_commit_pos = length file; rolling_crc = 0 }
      ]

  unfoldable pub write_commit : Timestamp → WriteAheadLog → WriteAheadLog
  unfolding write_record
  write_commit ts w = write_record [] [] (some ts) w

  -- The loop of `replay`: `records` so far, how many of them are committed, and the checksum. A
  -- file that ends, a record that is cut off and a wrong checksum each end it.
  abbrev pub replay_round :
      (Bytes → List WalRecord → ℕ → ℕ → Option (List WalRecord))
      → List WalRecord
      → ℕ
      → ℕ
      → Option (Raw × Bytes)
      → Option (List WalRecord)
  replay_round k records last_commit_pos rolling_crc none = some (take last_commit_pos records)
  replay_round k records last_commit_pos rolling_crc (some (raw, rest)) =
      let sum = checksum rolling_crc raw.key raw.value raw.timestamp in
      let records' =
        records ++ record { key = raw.key; value = raw.value; timestamp = raw.timestamp } ∷ [] in
      let more =
        if is_some raw.timestamp
        then k rest records' (length records') 0
        else k rest records' last_commit_pos sum in
      if sum == raw.verify_crc then more else some (take last_commit_pos records)

  -- Fuel: a round takes a byte at least. `none` stands for a loop that runs out of it.
  unfoldable pub replay_loop :
      (ℕ → Bytes) → ℕ → Bytes → List WalRecord → ℕ → ℕ → Option (List WalRecord)
  replay_loop uninit zero rest records last_commit_pos rolling_crc = none
  replay_loop uninit (suc fuel) [] records last_commit_pos rolling_crc =
      some (take last_commit_pos records)
  replay_loop uninit (suc fuel) (b ∷ bs) records last_commit_pos rolling_crc =
      replay_round (replay_loop uninit fuel) records last_commit_pos rolling_crc
        (read_raw uninit (b ∷ bs))

  unfoldable pub replay : (ℕ → Bytes) → Bytes → Option (List WalRecord)
  unfolding replay_loop
  replay uninit file = replay_loop uninit (length file + 1) file [] 0 0
