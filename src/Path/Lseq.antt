-- ===== src/Path/Lseq.antt =====
-- src/path/lseq.rs: fractional indices, byte strings of segments `(PID, u32)`.
pub mod Codec
pub mod FromBytes
pub mod Between
pub mod Order
use cdoc.Prelude.{
  ℕ, zero, suc, ◌+◌, ◌-◌, ◌%◌, ◌^◌, List, [], ◌∷◌, ◌++◌, Bool, true, false, Option, none, some,
  Bytes, length, take, drop, compare, Ordering, and_then, is_lt, ◌==◌, if◌then◌else◌,
}
use cdoc.Varint.{Parsed, found, absent, panic, stuck, ◌>>=◌, read_from, write}
use cdoc.Pid
use cdoc.Pid.{Pid, IsPid, IsU32}

pub record Segment : Type 0 where
  pub pid : Pid
  pub seq : ℕ

abbrev pub IsSegment : Segment → Type 0
IsSegment s = IsPid s.pid × IsU32 s.seq

-- `Segment::MAX`
abbrev pub max_segment : Segment
max_segment = record { pid = 2 ^ 32 - 1; seq = 2 ^ 32 - 1 }

-- The derived order.
abbrev pub cmp_segment : Segment → Segment → Ordering
cmp_segment a b = and_then (compare a.pid b.pid) (compare a.seq b.seq)

-- `?` on an `Option`
abbrev pub try_some {ℓ} : {A : Type ℓ} → Option A → Parsed A
try_some none = absent
try_some (some a) = found a

-- `Segment::parse`: the segment and the bytes behind it.
unfoldable pub parse : Bytes → Parsed (Segment × Bytes)
parse bytes = do
  (raw, n) ← read_from 4 bytes
  pid ← try_some (Pid.new raw)
  let bytes' = drop n bytes
  (seq, m) ← read_from 4 bytes'
  found (record { pid = pid; seq = seq }, drop m bytes')

-- `Segment::write`
unfoldable pub write_segment : Segment → Bytes
write_segment s = write 4 s.pid ++ write 4 s.seq

-- `Segments::next`: at the end, or at what is no segment, the iterator keeps its bytes.
abbrev pub step_segments : Bytes → Parsed (Segment × Bytes) → Parsed (Option Segment × Bytes)
step_segments bytes (found (segment, rest)) = found (some segment, rest)
step_segments bytes absent = found (none, bytes)
step_segments bytes panic = panic
step_segments bytes stuck = stuck

unfoldable pub next : Bytes → Parsed (Option Segment × Bytes)
next bytes = step_segments bytes (parse bytes)

-- The loop over all segments of `is_valid`: what the iterator is left with.
unfoldable pub drain : ℕ → Bytes → Parsed Bytes
drain zero bytes = stuck
drain (suc fuel) bytes =
    next bytes >>= λ (segment, rest). elim segment [ none ↦ found rest | some _ ↦ drain fuel rest ]

abbrev is_empty : Bytes → Bool
is_empty [] = true
is_empty (b ∷ bs) = false

-- Every segment takes a byte at least, so `length buf + 1` rounds are enough.
unfoldable pub is_valid : Bytes → Parsed Bool
unfolding drain
is_valid buf = drain (length buf + 1) buf >>= λ rest. found (is_empty rest)

-- `FractionalIndex::new`
unfoldable pub new : Bytes → Parsed Bytes
unfolding is_valid
new buf = is_valid buf >>= λ valid. if valid then found buf else absent

-- The loop of `from_bytes`: `i` counts the bytes taken. A PID that cannot be read, or that is 0,
-- ends it; a sequence number that cannot be read makes the whole call return `None`.
-- `k` is the rest of the loop.
abbrev pub from_bytes_seq : (ℕ → Bytes → Parsed ℕ) → ℕ → Bytes → ℕ → Option Pid → Parsed ℕ
from_bytes_seq k i b n none = found i
from_bytes_seq k i b n (some _) =
    read_from 4 (drop n b) >>= λ (_, m). k (i + n + m) (drop m (drop n b))

abbrev pub from_bytes_pid : (ℕ → Bytes → Parsed ℕ) → ℕ → Bytes → Parsed (ℕ × ℕ) → Parsed ℕ
from_bytes_pid k i b absent = found i
from_bytes_pid k i b panic = panic
from_bytes_pid k i b stuck = stuck
from_bytes_pid k i b (found (pid, n)) = from_bytes_seq k i b n (Pid.new pid)

unfoldable pub from_bytes_loop : ℕ → ℕ → Bytes → Parsed ℕ
from_bytes_loop zero i b = stuck
from_bytes_loop (suc fuel) i [] = found i
from_bytes_loop (suc fuel) i (x ∷ xs) =
    from_bytes_pid (from_bytes_loop fuel) i (x ∷ xs) (read_from 4 (x ∷ xs))

-- The index, and the number of bytes that it takes.
unfoldable pub from_bytes : Bytes → Parsed (Bytes × ℕ)
unfolding from_bytes_loop
from_bytes bytes = from_bytes_loop (length bytes + 1) 0 bytes >>= λ i.
    if i == 0 then absent else found (take i bytes, i)

-- The local variables of `write_fractional_index`, and what it has written.
pub record Cursor : Type 0 where
  pub lower : Option Segment
  pub lo : Bytes
  pub higher : Option Segment
  pub hi : Bytes
  pub diffed : Bool
  pub written : Bytes

-- `lower = lo.next(); higher = hi.next();`
unfoldable pub advance : Cursor → Parsed Cursor
advance c = do
  (lower, lo) ← next c.lo
  (higher, hi) ← next c.hi
  found (record c { lower = lower; lo = lo; higher = higher; hi = hi })

unfoldable pub emit : Segment → Cursor → Cursor
emit s c = record c { written = c.written ++ write_segment s }

-- `Segment::new(l.pid, l.seq + 1)`
abbrev pub successor : Segment → Segment
successor l = record l { seq = (l.seq + 1) % 2 ^ 32 }

abbrev pub pair {ℓ} : {A : Type ℓ} → Option A → Option A → Option (A × A)
pair (some a) (some b) = some (a, b)
pair (some a) none = none
pair none b = none

-- `while let Some(l) = &lower && let Some(h) = &higher`
unfoldable pub first_loop : ℕ → Pid → Cursor → Parsed Cursor
first_loop zero pid c = stuck
first_loop (suc fuel) pid c = elim (pair c.lower c.higher) [
  | none ↦ found c
  | some (l, h) ↦
      let n = successor l in
      let descent = advance (emit l c) >>= first_loop fuel pid in
      if is_lt (cmp_segment n h)
      then (if n.pid == pid then found (record (emit n c) { diffed = true }) else descent)
      else descent
]

abbrev pub unwrap_or {ℓ} : {A : Type ℓ} → Option A → A → A
unwrap_or none d = d
unwrap_or (some a) d = a

-- `let min = Segment::new(pid, 1)`
abbrev pub min_segment : Pid → Segment
min_segment pid = record { pid = pid; seq = 1 }

-- One round of `while !diffed`, up to the two calls of `next`.
unfoldable pub second_round : Pid → Cursor → Cursor
second_round pid c =
    let l = unwrap_or c.lower (min_segment pid) in
    let h = unwrap_or c.higher max_segment in
    let n = successor l in
    if is_lt (cmp_segment n h) then record (emit n c) { diffed = true } else emit l c

unfoldable pub second_loop : ℕ → Pid → Cursor → Parsed Bytes
second_loop zero pid c = stuck
second_loop (suc fuel) pid c =
    let more = advance (second_round pid c) >>= second_loop fuel pid in
    if c.diffed then found c.written else more

-- Each round of a loop takes a segment of `lo` or of `hi`, but the last ones.
unfoldable pub write_fractional_index : Bytes → Bytes → Pid → Parsed Bytes
unfolding advance first_loop second_loop
write_fractional_index lo hi pid = do
  let fuel = length lo + length hi + 2
  start ←
      advance
        (record { lower = none; lo = lo; higher = none; hi = hi; diffed = false; written = [] })
  middle ← first_loop fuel pid start
  second_loop fuel pid middle

-- `FractionalIndex::between`: a missing neighbour is the empty index.
unfoldable pub between : Option Bytes → Option Bytes → Pid → Parsed Bytes
unfolding write_fractional_index
between prev next' pid = write_fractional_index (unwrap_or prev []) (unwrap_or next' []) pid
