-- ===== src/Hlc.antt =====
-- src/hlc.rs: hybrid logical timestamps and the global counter behind them.
-- A timestamp is the number in its `BE64`. The system clock is an input, in milliseconds.
pub mod Monotonic
pub mod Progress
pub mod Precision
pub mod Display
use cdoc.Prelude.{
  ℕ, ◌+◌, ◌*◌, ◌/◌, ◌%◌, ◌^◌, max, Option, none, some, List, [], ◌∷◌, ◌==◌, if◌then◌else◌,
}

abbrev pub Timestamp : Type 0
Timestamp = ℕ

-- `& Self::MASK`, with `MASK = !0xff`: the lowest eight bits are cleared.
unfoldable pub mask : ℕ → ℕ
mask millis = millis / 256 * 256

-- `Timestamp::from(SystemTime)` and `from(chrono::DateTime)`: `as_millis() as u64`, masked.
unfoldable pub from_millis : ℕ → Timestamp
unfolding mask
from_millis millis = mask (millis % 2 ^ 64)

-- `From<Timestamp> for SystemTime`, in milliseconds since the epoch.
unfoldable pub into_millis : Timestamp → ℕ
into_millis timestamp = timestamp

-- `serialize_u64(self.0.get())`
unfoldable pub serialize : Timestamp → ℕ
serialize timestamp = timestamp

-- `masked.max(latest) + 1`
unfoldable pub proposal : ℕ → ℕ → Timestamp
unfolding mask
proposal latest millis = (max (mask (millis % 2 ^ 64)) latest + 1) % 2 ^ 64

-- A thread inside `now`: not there, or past `COUNTER.load` with the value that it read.
pub data Thread : Type 0 where
  idle : Thread
  loaded : ℕ → Thread

-- `COUNTER`, the threads by number, and the timestamps that `now` has returned, newest first.
pub record State : Type 0 where
  pub counter : ℕ
  pub thread : ℕ → Thread
  pub issued : List Timestamp

abbrev pub init : State
init = record { counter = 0; thread = λ _. idle; issued = [] }

unfoldable pub set_thread : (ℕ → Thread) → ℕ → Thread → ℕ → Thread
set_thread threads t local u = if u == t then local else threads u

-- The atomic accesses. A round of the loop in `now` is a `load` and, with the clock's reading of
-- that round, a `compare_exchange`; `sync` is one `fetch_max`.
pub data Event : Type 0 where
  load : ℕ → Event
  compare_exchange : ℕ → ℕ → Event
  fetch_max : Timestamp → Event

-- On success `now` returns, on failure it starts another round. The return of a timestamp is taken
-- together with the exchange that made it, so `issued` has the order of the exchanges.
exchange : State → ℕ → ℕ → Thread → State
unfolding set_thread proposal
exchange s t millis idle = s
exchange s t millis (loaded latest) =
    let next = proposal latest millis in
    let threads = set_thread s.thread t idle in
    if s.counter == latest
    then record { counter = next; thread = threads; issued = next ∷ s.issued }
    else record s { thread = threads }

unfoldable pub step : State → Event → State
unfolding exchange set_thread
step s (load t) = record s { thread = set_thread s.thread t (loaded s.counter) }
step s (compare_exchange t millis) = exchange s t millis (s.thread t)
step s (fetch_max timestamp) = record s { counter = max s.counter timestamp }

unfoldable pub run : State → List Event → State
run s [] = s
run s (e ∷ es) = run (step s e) es

-- `now` without interference: the new counter and the timestamp.
unfoldable pub now : ℕ → ℕ → ℕ × Timestamp
unfolding proposal
now counter millis = (proposal counter millis, proposal counter millis)

-- `sync`: the new counter, and the timestamp that is returned, which is the counter before.
unfoldable pub sync : ℕ → Timestamp → ℕ × Timestamp
sync counter timestamp = (max counter timestamp, counter)

-- `visit_u64` of the deserializer.
unfoldable pub visit_u64 : ℕ → ℕ → ℕ × Timestamp
unfolding sync
visit_u64 counter value = ((sync counter value).0, value)
