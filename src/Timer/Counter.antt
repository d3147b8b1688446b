-- ===== src/Timer/Counter.antt =====
-- What `counter` counts: the workers that have been counted in and not yet out.
use blockchain_messaging_sys.Prelude.{
  ℕ, ◌+◌, ◌≤◌, ◌≡◌, inl, inr, refl, ap, sym, subst, List, [], ◌∷◌, All, arith,
}
use blockchain_messaging_sys.Timer.{
  Kind, Pc, Timer, System, Event, next, move, perform, run, new_system,
}
use blockchain_messaging_sys.Timer.Totals.{
  total, total-append, All-le-total, Moved, Moved-le, move_cases, total-Moved,
}

-- Between `fetch_add` and `fetch_sub`.
abbrev pub counted : Pc → ℕ
counted (Pc.records _ _) = 1
counted Pc.timeout_starts = 1
counted Pc.timeout_wakes = 1
counted Pc.timeout_calls = 1
counted Pc.timeout_leaves = 1
counted Pc.interval_tests = 1
counted Pc.interval_wakes = 1
counted Pc.interval_calls = 1
counted Pc.leaves = 1
counted _ = 0

abbrev pub IsCounted : System → Type 0
IsCounted s = s.timer.counter ≡ total counted s.threads

-- A step changes the counter as it changes the number of counted threads, if it does not underflow.
next-counted :
    (t : Timer) (pc : Pc)
    → counted pc ≤ t.counter
    → (next t pc).timer.counter + counted pc
      ≡ t.counter + counted (next t pc).pc + total counted (next t pc).started
unfolding next
next-counted t (Pc.checks kind delay) h = ground arith
next-counted t (Pc.waits kind delay) h = ground arith
next-counted t (Pc.activates kind delay) h = omega arith
next-counted t (Pc.counts kind delay) h = omega arith
next-counted t (Pc.records Kind.timeout delay) h = omega arith
next-counted t (Pc.records Kind.interval delay) h = omega arith
next-counted t Pc.threw h = omega arith
next-counted t Pc.returned h = omega arith
next-counted t Pc.timeout_starts h = ground arith
next-counted t Pc.timeout_wakes h = ground arith
next-counted t Pc.timeout_calls h = omega arith
next-counted t Pc.timeout_leaves h = omega arith
next-counted t Pc.timeout_stops h = omega arith
next-counted t Pc.interval_tests h = ground arith
next-counted t Pc.interval_wakes h = ground arith
next-counted t Pc.interval_calls h = omega arith
next-counted t Pc.leaves h = omega arith
next-counted t Pc.finished h = omega arith

Moved-IsCounted :
    (t : Timer) (calls : ℕ) (pcs : List Pc) (s : System)
    → t.counter ≡ total counted pcs
    → Moved t calls pcs s
    → IsCounted s
Moved-IsCounted t calls pcs s h m = omega (
  arith,
  h,
  total-Moved counted m,
  ap (λ (u : Timer). u.counter) m.timer',
  next-counted t m.pc (omega (arith, h, Moved-le counted m)),
)

pub perform-IsCounted : (e : Event) (s : System) → IsCounted s → IsCounted (perform e s)
unfolding perform
perform-IsCounted (Event.enters kind delay) s h =
    omega (arith, h, total-append counted s.threads (Pc.checks kind delay ∷ []))
perform-IsCounted Event.stops s h = h
perform-IsCounted (Event.moves i) s h = elim (move_cases s.timer s.calls i s.threads) [
  | inl e ↦ subst IsCounted (sym e) h
  | inr m ↦ Moved-IsCounted s.timer s.calls s.threads (move s.timer s.calls i s.threads) h m
]

pub run-IsCounted : (es : List Event) (s : System) → IsCounted s → IsCounted (run es s)
unfolding run
run-IsCounted [] s h = h
run-IsCounted (e ∷ es) s h = run-IsCounted es (perform e s) (perform-IsCounted e s h)

-- However setTimeout, setInterval, stop and the workers interleave, also from several threads, the
-- counter is the number of workers that have been counted in and not out; where a worker is about
-- to count itself out the counter is above 0, so that it never falls below 0.
pub counter_lem :
    (es : List Event)
    → IsCounted (run es new_system)
      × All (λ pc. counted pc ≤ (run es new_system).timer.counter) (run es new_system).threads
counter_lem es =
    let h : IsCounted (run es new_system) = run-IsCounted es new_system refl in
    (
      h,
      subst (λ n. All (λ pc. counted pc ≤ n) (run es new_system).threads) (sym h)
          (All-le-total counted (run es new_system).threads),
    )
