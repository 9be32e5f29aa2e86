-- ===== src/Hlc/Precision.antt =====
-- Timestamps of system times, and back.
use cdoc.Prelude.{ℕ, ◌+◌, ◌^◌, ◌<◌, ◌≤◌, ◌≡◌, refl, arith}
use cdoc.Hlc.{Timestamp, mask, from_millis, into_millis, serialize, sync, visit_u64}

-- A time goes back by less than 256 milliseconds, and stays where it is the second time.
pub into_millis-from_millis :
    (millis : ℕ)
    → millis < 2 ^ 64
    → (into_millis (from_millis millis) ≤ millis)
      × (millis < into_millis (from_millis millis) + 256)
      × (from_millis (into_millis (from_millis millis)) ≡ from_millis millis)
unfolding into_millis from_millis mask
into_millis-from_millis millis h = (omega arith, omega arith, omega arith)

-- A timestamp that is serialized is read back, and the reader's counter is not below it.
pub visit_u64-serialize :
    (counter : ℕ) (timestamp : Timestamp)
    → ((visit_u64 counter (serialize timestamp)).1 ≡ timestamp)
      × (timestamp ≤ (visit_u64 counter (serialize timestamp)).0)
unfolding visit_u64 serialize sync
visit_u64-serialize counter timestamp = (refl, omega arith)
