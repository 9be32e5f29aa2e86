-- ===== src/Hlc/Progress.antt =====
-- A round of the loop in `now`, among the atomic accesses of other threads.
use cdoc.Prelude.{
  ℕ, ◌<◌, ◌≤◌, ◌≡◌, refl, arith, List, [], ◌∷◌, ◌++◌, length, ◌==◌, false, ◌⊎◌, inl, inr,
  Bool-cases, eq→==,
}
use cdoc.Hlc.{
  Thread, idle, loaded, State, Event, load, compare_exchange, fetch_max, set_thread, exchange, step,
  run,
}

-- The rounds of threads other than `t`, and no `sync`.
abbrev pub IsOther : ℕ → Event → Type 0
IsOther t (load u) = (t == u) ≡ false
IsOther t (compare_exchange u millis) = (t == u) ≡ false
IsOther t (fetch_max timestamp) = ⊥

abbrev pub AreOther : ℕ → List Event → Type 0
AreOther t [] = Unit
AreOther t (e ∷ es) = IsOther t e × AreOther t es

-- The thread `t` has read `latest`, which is still the counter, or more than `n` timestamps are
-- issued.
record IsRound (s : State) (t latest n : ℕ) : Type 0 where
  reads : s.thread t ≡ loaded latest
  before : n ≤ length s.issued
  either : (s.counter ≡ latest) ⊎ (n < length s.issued)

load-IsRound : (s : State) (t : ℕ) → IsRound (step s (load t)) t s.counter (length s.issued)
unfolding step set_thread
load-IsRound s t = record {
  reads = rw (eq→== t t refl) refl;
  before = omega arith;
  either = inl refl;
}

exchange-IsRound :
    (s : State) (t latest n u millis : ℕ) (local : Thread)
    → (t == u) ≡ false
    → IsRound s t latest n
    → IsRound (exchange s u millis local) t latest n
unfolding exchange set_thread
exchange-IsRound s t latest n u millis idle other h = h
exchange-IsRound s t latest n u millis (loaded l) other h = elim (Bool-cases (s.counter == l)) [
  | inl same ↦ rw same (record {
    reads = rw other h.reads;
    before = omega (arith, h.before);
    either = inr (omega (arith, h.before));
  })
  | inr differs ↦
      rw differs (record { reads = rw other h.reads; before = h.before; either = h.either })
]

step-IsRound :
    (s : State) (t latest n : ℕ) (e : Event)
    → IsOther t e
    → IsRound s t latest n
    → IsRound (step s e) t latest n
unfolding step set_thread
step-IsRound s t latest n (load u) other h = record {
  reads = rw other h.reads;
  before = h.before;
  either = h.either;
}
step-IsRound s t latest n (compare_exchange u millis) other h =
    exchange-IsRound s t latest n u millis (s.thread u) other h
step-IsRound s t latest n (fetch_max timestamp) other h = absurd other

-- The round ends: with a timestamp for `t`, if nobody else was given one.
round_ends :
    (s : State) (t latest n millis : ℕ)
    → IsRound s t latest n
    → n < length (step s (compare_exchange t millis)).issued
unfolding step exchange
round_ends s t latest n millis h = rw h.reads (elim (Bool-cases (s.counter == latest)) [
  | inl same ↦ rw same (omega (arith, h.before))
  | inr differs ↦ rw differs (elim h.either [
    | inl e ↦ absurd (ground (arith, eq→== s.counter latest e, differs))
    | inr more ↦ more
  ])
])

run-IsRound :
    (s : State) (es : List Event) (t latest n millis : ℕ)
    → AreOther t es
    → IsRound s t latest n
    → n < length (run s (es ++ compare_exchange t millis ∷ [])).issued
unfolding run
run-IsRound s [] t latest n millis others h = round_ends s t latest n millis h
run-IsRound s (e ∷ es) t latest n millis others h =
    run-IsRound (step s e) es t latest n millis others.1 (step-IsRound s t latest n e others.0 h)

-- `now` is lock-free: from any state, if a thread loads the counter, other threads load it and
-- exchange it in any way, and the thread then does its exchange, at least one timestamp more than
-- before the load was returned, to it or to another thread. No `sync` comes between.
pub run-round :
    (s : State) (t millis : ℕ) (es : List Event)
    → AreOther t es
    → length s.issued < length (run s (load t ∷ es ++ compare_exchange t millis ∷ [])).issued
unfolding run
run-round s t millis es others =
    run-IsRound (step s (load t)) es t s.counter (length s.issued) millis others (load-IsRound s t)
