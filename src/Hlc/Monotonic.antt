-- ===== src/Hlc/Monotonic.antt =====
-- Timestamps only grow, whatever threads and remote timestamps do in between.
use cdoc.Prelude.{
  ℕ, ◌+◌, ◌-◌, ◌^◌, ◌≤◌, ◌<◌, ◌≡◌, ◌↔◌, refl, sym, arith, max, List, [], ◌∷◌, length, All,
  All-append, All-imp, ◌++◌, ◌∙◌, ap, append_assoc, append-nil, ◌==◌, ◌⊎◌, inl, inr, Bool-cases,
}
use cdoc.Hlc.{
  Timestamp, mask, from_millis, proposal, Thread, idle, loaded, State, init, Event, load,
  compare_exchange, fetch_max, exchange, step, run, now, sync, visit_u64,
}

-- Newest first, each below the one before it, and all below `top`.
abbrev pub IsDecreasing : ℕ → List Timestamp → Type 0
IsDecreasing top [] = Unit {0}
IsDecreasing top (t ∷ ts) = (t < top) × IsDecreasing t ts

-- The clock's readings and the remote timestamps stay at or below `b`.
abbrev pub IsWithin : ℕ → Event → Type 0
IsWithin b (load t) = Unit {0}
IsWithin b (compare_exchange t millis) = millis ≤ b
IsWithin b (fetch_max timestamp) = timestamp ≤ b

IsDecreasing-mono : (a b : ℕ) (ts : List Timestamp) → a ≤ b → IsDecreasing a ts → IsDecreasing b ts
IsDecreasing-mono a b [] le h = tt
IsDecreasing-mono a b (t ∷ ts) le h = (omega arith, h.1)

-- Where nothing wraps, a proposal lies above the counter that was read.
pub proposal_bounds :
    (latest millis c : ℕ)
    → latest ≤ c
    → millis ≤ c
    → c + 1 < 2 ^ 64
    → (latest < proposal latest millis) × (proposal latest millis ≤ c + 1)
unfolding proposal mask
proposal_bounds latest millis c hl hm hc = omega arith

-- One step from a counter at most `c`: the counter does not fall, and stays at most `c + 1`; and a
-- timestamp that the step issues lies above the old counter and is the new one.
record Advances (s t : State) (c : ℕ) : Type 0 where
  grows : s.counter ≤ t.counter
  bounded : t.counter ≤ c + 1
  issues : (t.issued ≡ s.issued) ⊎ ((t.issued ≡ t.counter ∷ s.issued) × (s.counter < t.counter))

exchange-Advances :
    (s : State) (t millis c : ℕ) (local : Thread)
    → s.counter ≤ c
    → millis ≤ c
    → c + 1 < 2 ^ 64
    → Advances s (exchange s t millis local) c
unfolding exchange
exchange-Advances s t millis c idle hs hm hc = ground arith
exchange-Advances s t millis c (loaded latest) hs hm hc = elim (Bool-cases (s.counter == latest)) [
  | inl same ↦ ground (arith, proposal_bounds s.counter millis c hs hm hc)
  | inr other ↦ ground arith
]

step-Advances :
    (s : State) (e : Event) (c : ℕ)
    → s.counter ≤ c
    → IsWithin c e
    → c + 1 < 2 ^ 64
    → Advances s (step s e) c
unfolding step
step-Advances s (load t) c hs he hc = ground arith
step-Advances s (compare_exchange t millis) c hs he hc =
    exchange-Advances s t millis c (s.thread t) hs he hc
step-Advances s (fetch_max timestamp) c hs he hc = ground arith

IsWithin-mono : (a b : ℕ) (e : Event) → a ≤ b → IsWithin a e → IsWithin b e
IsWithin-mono a b (load t) le h = tt
IsWithin-mono a b (compare_exchange t millis) le h = omega arith
IsWithin-mono a b (fetch_max timestamp) le h = omega arith

-- What a run issues, newest first, on top of what was issued before.
pub record Run (s t : State) (b : ℕ) : Type 0 where
  pub fresh : List Timestamp
  pub issued : t.issued ≡ fresh ++ s.issued
  pub above : All (λ (x : ℕ). s.counter < x) fresh
  pub falling : IsDecreasing (t.counter + 1) fresh
  pub grows : s.counter ≤ t.counter

IsDecreasing-snoc :
    (top x : ℕ) (ts : List Timestamp)
    → x < top
    → IsDecreasing top ts
    → All (λ (y : ℕ). x < y) ts
    → IsDecreasing top (ts ++ x ∷ [])
IsDecreasing-snoc top x [] lt h a = (lt, tt)
IsDecreasing-snoc top x (t ∷ ts) lt h a = (h.0, IsDecreasing-snoc t x ts a.0 h.1 a.1)

step-Run : (s m t : State) (c b : ℕ) → Advances s m c → Run m t b → Run s t b
step-Run s m t c b a r = elim a.issues [
  | inl same ↦ record {
    fresh = r.fresh;
    issued = r.issued ∙ ap (λ (l : List Timestamp). r.fresh ++ l) same;
    above = All-imp (λ x h. omega (arith, a.grows)) r.fresh r.above;
    falling = r.falling;
    grows = omega (arith, a.grows, r.grows);
  }
  | inr (new, more) ↦ record {
    fresh = r.fresh ++ m.counter ∷ [];
    issued =
        r.issued
        ∙ ap (λ (l : List Timestamp). r.fresh ++ l) new
        ∙ sym (append_assoc r.fresh (m.counter ∷ []) s.issued);
    above =
        All-append (λ (x : ℕ). s.counter < x) r.fresh (m.counter ∷ [])
          (All-imp (λ x h. omega (arith, a.grows)) r.fresh r.above) (more, tt);
    falling =
        IsDecreasing-snoc (t.counter + 1) m.counter r.fresh (omega (arith, r.grows)) r.falling
          r.above;
    grows = omega (arith, a.grows, r.grows);
  }
]

run-step :
    (s : State) (e : Event) (es : List Event) (b : ℕ)
    → Run s (run (step s e) es) b
    → Run s (run s (e ∷ es)) b
unfolding run
run-step s e es b r = r

pub run-Run :
    (s : State) (es : List Event) (b c : ℕ)
    → b ≤ c
    → s.counter ≤ c
    → All (IsWithin b) es
    → c + length es < 2 ^ 64
    → Run s (run s es) b
run-Run s [] b c hb hs h hc =
    unfold run in
    record { fresh = []; issued = refl; above = tt; falling = tt; grows = omega arith }
run-Run s (e ∷ es) b c hb hs h hc = run-step s e es b (
    step-Run s (step s e) (run (step s e) es) c b
      (step-Advances s e c hs (IsWithin-mono b c e hb h.0) (omega arith))
      (run-Run (step s e) es b (c + 1) (omega arith)
        ((step-Advances s e c hs (IsWithin-mono b c e hb h.0) (omega arith)).bounded) h.1
        (omega arith)))

-- From the start, in any interleaving of the atomic accesses of `now` and `sync` by any threads,
-- the timestamps that `now` returned ascend strictly in the order of their returns, and none is
-- above the counter. The numbers from outside are at most `b`, and `b` with the number of accesses
-- is below 2 ^ 64.
pub run-IsDecreasing :
    (es : List Event) (b : ℕ)
    → All (IsWithin b) es
    → b + length es < 2 ^ 64
    → IsDecreasing ((run init es).counter + 1) (run init es).issued
run-IsDecreasing es b h hb =
    let r = run-Run init es b b (omega arith) (omega arith) h hb in
    rw (r.issued, append-nil) r.falling

-- After `visit_u64` read the remote number `value`, each timestamp that any thread is given is
-- above `value` and above the counter at that time, in any interleaving. The counter, `value` and
-- the numbers from outside are at most `b`, and `b` with the number of accesses is below 2 ^ 64.
pub run-visit_u64 :
    (s : State) (value : ℕ) (es : List Event) (b : ℕ)
    → s.counter ≤ b
    → value ≤ b
    → All (IsWithin b) es
    → b + length es < 2 ^ 64
    → let s' = record s { counter = (visit_u64 s.counter value).0 } in
      (fresh : List Timestamp) × ((run s' es).issued ≡ fresh ++ s.issued)
      × All (λ (x : ℕ). (s.counter < x) × (value < x)) fresh
unfolding visit_u64
run-visit_u64 s value es b hs hv h hb =
    let s' = record s { counter = max s.counter value } in
    let r = run-Run s' es b b (omega arith) (omega arith) h hb in
    (r.fresh, r.issued, All-imp (λ x lt. (omega arith, omega arith)) r.fresh r.above)

-- A timestamp of `now` without interference is the new counter, above the counter and above the
-- masked clock, by at most one above the larger of the counter and the clock, and not 255 or more
-- below the clock. Counter and clock are below 2 ^ 64 - 1.
pub now_bounds :
    (counter millis : ℕ)
    → counter < 2 ^ 64 - 1
    → millis < 2 ^ 64 - 1
    → (counter < (now counter millis).1)
      × ((now counter millis).0 ≡ (now counter millis).1)
      × ((now counter millis).1 ≤ max counter millis + 1)
      × (from_millis millis < (now counter millis).1)
      × (millis < (now counter millis).1 + 255)
unfolding now proposal from_millis mask
now_bounds counter millis hc hm = omega arith

-- After `visit_u64` read `value`, the next `now` without interference gives a timestamp above the
-- counter, above `value` and above the masked clock exactly where the counter and `value` are
-- below 2 ^ 64 - 1. The three numbers are below 2 ^ 64.
pub now-visit_u64_iff :
    (counter value millis : ℕ)
    → counter < 2 ^ 64
    → value < 2 ^ 64
    → millis < 2 ^ 64
    → let t = (now (visit_u64 counter value).0 millis).1 in
      ((counter < t) × (value < t) × (from_millis millis < t))
      ↔ ((counter < 2 ^ 64 - 1) × (value < 2 ^ 64 - 1))
unfolding now proposal visit_u64 sync from_millis mask
now-visit_u64_iff counter value millis hc hv hm = (
  λ h. (omega (arith, h.0, h.1), omega (arith, h.0, h.1)),
  λ h. (omega (arith, h.0, h.1), omega (arith, h.0, h.1), omega (arith, h.0, h.1)),
)

-- `sync` keeps the larger of the two, and hands back the counter before it, not the new one.
pub sync_lem :
    (counter timestamp : ℕ)
    → (counter ≤ (sync counter timestamp).0)
      × (timestamp ≤ (sync counter timestamp).0)
      × ((sync counter timestamp).1 ≡ counter)
unfolding sync
sync_lem counter timestamp = omega arith
