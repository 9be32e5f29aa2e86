-- ===== src/Examples/Numbers.antt =====
-- Numbers, timestamps and registers.
use cdoc.Prelude.{
  ℕ, ◌+◌, ◌^◌, ◌<◌, List, [], ◌∷◌, ◌++◌, ◌≡◌, ◌↔◌, ap, ◌-◌, refl, arith, Bytes, length, All,
  compare, cmp, and_then, ok, ◌>>=◌, Option, some, none, ltb, take, ◌&&◌, if◌then◌else◌,
}
use cdoc.Varint.{found, absent, panic, read_from, write}
use cdoc.Varint.RoundTrip.{read_from-write, read_from-take-write}
use cdoc.Varint.BigEndian.{be_bytes}
use cdoc.Varint.Ordered.{cmp-write}
use cdoc.Hlc.{
  Timestamp, init, Event, load, compare_exchange, fetch_max, run, now, visit_u64, from_millis,
}
use cdoc.Hlc.Progress.{run-round}
use cdoc.Hlc.Monotonic.{IsDecreasing, IsWithin, run-IsDecreasing, run-visit_u64, now-visit_u64_iff}
use cdoc.Path.Lww.{
  LwwHeader, merge_all, IsEarlier, IsNotLater, merge, merge_all_latest, merge_comm, merge_assoc,
}

read_from-write_example :
    read_from 4 (write 8 300 ++ 9 ∷ [])
    ≡ (if ltb 300 (256 ^ 4) then found (300, length (write 8 300)) else absent)
read_from-write_example = read_from-write 4 8 300 (9 ∷ []) (omega arith)

read_from-take-write_example :
    read_from 4 (take 2 (write 8 300)) ≡ (if ltb 0 2 && ltb 300 (256 ^ 4) then panic else absent)
read_from-take-write_example =
    read_from-take-write 4 8 300 2 (omega arith) (unfold write be_bytes in omega arith)

cmp-write_example :
    cmp (write 4 300 ++ 1 ∷ []) (write 4 255 ++ 2 ∷ [])
    ≡ and_then (compare 300 255) (cmp (1 ∷ []) (2 ∷ []))
cmp-write_example = cmp-write 4 4 300 255 (1 ∷ []) (2 ∷ []) (omega arith) (omega arith)

-- Two threads that race, and a remote timestamp between them.
abbrev race : List Event
race =
    load 0
    ∷ load 1
    ∷ compare_exchange 0 1000
    ∷ fetch_max 2000
    ∷ compare_exchange 1 1000
    ∷ load 1
    ∷ compare_exchange 1 1000
    ∷ []

race-IsWithin : All (IsWithin 2000) race
race-IsWithin = ground arith

run-IsDecreasing_example : IsDecreasing ((run init race).counter + 1) (run init race).issued
run-IsDecreasing_example = run-IsDecreasing race 2000 race-IsWithin (omega arith)

run-visit_u64_example :
    (fresh : List Timestamp) × ((run (record init { counter = (visit_u64 0 1500).0 }) race).issued
      ≡ fresh ++ [])
    × All (λ (x : ℕ). (0 < x) × (1500 < x)) fresh
run-visit_u64_example =
    run-visit_u64 init 1500 race 2000 (omega arith) (omega arith) race-IsWithin (omega arith)

now-visit_u64_iff_example :
    let t = (now (visit_u64 700 (2 ^ 64 - 1)).0 1000).1 in
    ((700 < t) × (2 ^ 64 - 1 < t) × (from_millis 1000 < t))
    ↔ ((700 < 2 ^ 64 - 1) × (2 ^ 64 - 1 < 2 ^ 64 - 1))
now-visit_u64_iff_example =
    now-visit_u64_iff 700 (2 ^ 64 - 1) 1000 (omega arith) (omega arith) (omega arith)

-- A header of two bytes in place of the twelve.
abbrev two_bytes : Bytes → Option (LwwHeader × Bytes)
two_bytes (t ∷ p ∷ rest) = some (record { timestamp = t; pid = p }, rest)
two_bytes (t ∷ []) = none
two_bytes [] = none

abbrev header : ℕ → ℕ → LwwHeader
header t p = record { timestamp = t; pid = p }

-- A later register, one of the same header with another value, and two that are earlier.
abbrev registers : List (Bytes × LwwHeader)
registers =
    (5 ∷ 1 ∷ 66 ∷ [], header 5 1)
    ∷ (5 ∷ 1 ∷ 67 ∷ [], header 5 1)
    ∷ (4 ∷ 9 ∷ 68 ∷ [], header 4 9)
    ∷ (5 ∷ 0 ∷ 69 ∷ [], header 5 0)
    ∷ []

merge_all_latest_example :
    (w : Bytes × LwwHeader) × (before : List (Bytes × LwwHeader)) × (after : List
      (Bytes × LwwHeader))
    × ((4 ∷ 2 ∷ 65 ∷ [], header 4 2) ∷ registers ≡ before ++ w ∷ after)
    × (merge_all two_bytes (4 ∷ 2 ∷ 65 ∷ []) registers ≡ ok w.0)
    × All (IsNotLater w.1) before
    × All (IsEarlier w.1) after
merge_all_latest_example =
    merge_all_latest two_bytes (4 ∷ 2 ∷ 65 ∷ []) (header 4 2) registers (65 ∷ [], refl)
      ((66 ∷ [], refl), ((67 ∷ [], refl), ((68 ∷ [], refl), ((69 ∷ [], refl), tt))))

merge_comm_example :
    merge two_bytes (5 ∷ 1 ∷ 65 ∷ []) (4 ∷ 2 ∷ 66 ∷ [])
    ≡ merge two_bytes (4 ∷ 2 ∷ 66 ∷ []) (5 ∷ 1 ∷ 65 ∷ [])
merge_comm_example =
    merge_comm two_bytes (5 ∷ 1 ∷ 65 ∷ []) (4 ∷ 2 ∷ 66 ∷ []) (header 5 1) (header 4 2)
      (65 ∷ [], refl) (66 ∷ [], refl) (λ e. cc (ap (λ h. h.timestamp) e))

merge_assoc_example :
    (merge two_bytes (5 ∷ 1 ∷ []) (4 ∷ 2 ∷ []) >>= λ m. merge two_bytes m (5 ∷ 1 ∷ 7 ∷ []))
    ≡ (merge two_bytes (4 ∷ 2 ∷ []) (5 ∷ 1 ∷ 7 ∷ []) >>= λ m. merge two_bytes (5 ∷ 1 ∷ []) m)
merge_assoc_example =
    merge_assoc two_bytes (5 ∷ 1 ∷ []) (4 ∷ 2 ∷ []) (5 ∷ 1 ∷ 7 ∷ []) (header 5 1) (header 4 2)
      (header 5 1) ([], refl) ([], refl) (7 ∷ [], refl)

-- Thread 1 returns while thread 0 is in its round.
abbrev others : List Event
others = load 1 ∷ compare_exchange 1 1000 ∷ load 1 ∷ []

run-round_example :
    length init.issued < length (run init (load 0 ∷ others ++ compare_exchange 0 1000 ∷ [])).issued
run-round_example = run-round init 0 1000 others (ground arith)
