-- ===== src/Hlc/Display.antt =====
-- src/hlc.rs: `impl Display for Timestamp`, the text that the crate `chrono` makes of a time in
-- milliseconds by the format `%+`, ISO 8601 with as many digits of the second as it has.
use cdoc.Prelude.{◌<◌, ◌++◌, Bytes, length, Bool, true, ◌≡◌, ◌≺◌}
use cdoc.Hlc.{Timestamp}

-- Texts of times with years of four digits are ordered as the times are, whatever follows them.
pub record Display : Type 0 where
  -- `DateTime::from_timestamp_millis` has a time for the number; on the others `unwrap` panics.
  pub is_time : Timestamp → Bool
  pub fmt : Timestamp → Bytes
  pub limit : Timestamp
  pub is_time_lt : (ts : Timestamp) → ts < limit → is_time ts ≡ true
  pub fmt_some : (ts : Timestamp) → 0 < length (fmt ts)
  pub fmt_lt : (a b : Timestamp) (s t : Bytes) → a < b → b < limit → (fmt a ++ s) ≺ (fmt b ++ t)
