-- ===== src/Timer/Stop.antt =====
-- What happens after `stop`: the workers end, and the callbacks with them.
use blockchain_messaging_sys.Prelude.{
  ℕ, zero, suc, ◌+◌, ◌*◌, ◌≤◌, ◌≡◌, ◌⊎◌, inl, inr, refl, ap, sym, subst, ◌∙◌, map, false, List, [],
  ◌∷◌, arith, length,
}
use blockchain_messaging_sys.Timer.{
  Pc, Timer, System, Event, next, move, perform, run, stop, new_system,
}
use blockchain_messaging_sys.Timer.Totals.{
  total, total-append, Moved, Moved-le, move_cases, total-Moved,
}
use blockchain_messaging_sys.Timer.Counter.{counted, IsCounted, perform-IsCounted, run-IsCounted}

-- A call of setTimeout or setInterval under way.
abbrev pub calling : Pc → ℕ
calling (Pc.checks _ _) = 1
calling (Pc.waits _ _) = 1
calling (Pc.activates _ _) = 1
calling (Pc.counts _ _) = 1
calling (Pc.records _ _) = 1
calling _ = 0

-- The steps that a worker of an inactive timer has left.
abbrev pub steps_left : Pc → ℕ
steps_left Pc.timeout_starts = 2
steps_left Pc.timeout_wakes = 2
steps_left Pc.timeout_calls = 3
steps_left Pc.timeout_leaves = 2
steps_left Pc.timeout_stops = 1
steps_left Pc.interval_tests = 2
steps_left Pc.interval_wakes = 2
steps_left Pc.interval_calls = 3
steps_left Pc.leaves = 1
steps_left _ = 0

-- Past its last test of `active`, before the callback.
abbrev pub ready : Pc → ℕ
ready Pc.timeout_calls = 1
ready Pc.interval_calls = 1
ready _ = 0

abbrev pub is_running : Pc → ℕ
is_running Pc.threw = 0
is_running Pc.returned = 0
is_running Pc.finished = 0
is_running _ = 1

-- Inactive, with no call under way.
abbrev pub IsStopped : System → Type 0
IsStopped s = (s.timer.active ≡ false) × (total calling s.threads ≡ 0)

record Quiet (t : Timer) (pc : Pc) : Type 0 where
  inactive : (next t pc).timer.active ≡ false
  silent : calling (next t pc).pc ≡ 0
  alone : (next t pc).started ≡ []
  fewer : steps_left (next t pc).pc + is_running pc ≤ steps_left pc
  bounded : (next t pc).calls + ready (next t pc).pc ≤ ready pc

next-Quiet : (t : Timer) (pc : Pc) → t.active ≡ false → calling pc ≡ 0 → Quiet t pc
unfolding next
next-Quiet t pc h c = ground arith

-- The thread i is running: its move is a step.
abbrev pub steps_at : ℕ → List Pc → ℕ
steps_at i [] = 0
steps_at zero (pc ∷ pcs) = is_running pc
steps_at (suc i) (pc ∷ pcs) = steps_at i pcs

move_left :
    (t : Timer) (calls i : ℕ) (pcs : List Pc)
    → t.active ≡ false
    → total calling pcs ≡ 0
    → total steps_left (move t calls i pcs).threads + steps_at i pcs ≤ total steps_left pcs
unfolding move
move_left t calls i [] h c = omega arith
move_left t calls zero (pc ∷ pcs) h c =
    let q : Quiet t pc = next-Quiet t pc h (omega arith) in
    omega (
      arith,
      q.fewer,
      ap (total steps_left) q.alone,
      total-append steps_left pcs (next t pc).started,
    )
move_left t calls (suc i) (pc ∷ pcs) h c = omega (arith, move_left t calls i pcs h (omega arith))

-- A step of a stopped timer's thread.
Moved-IsStopped :
    (s s' : System)
    → IsStopped s
    → Moved s.timer s.calls s.threads s'
    → IsStopped s' × (s'.calls + total ready s'.threads ≤ s.calls + total ready s.threads)
Moved-IsStopped s s' (inactive, silent) m =
    let q : Quiet s.timer m.pc =
      next-Quiet s.timer m.pc inactive (omega (arith, silent, Moved-le calling m)) in
    (
      (
        ap (λ (t : Timer). t.active) m.timer' ∙ q.inactive,
        omega (arith, silent, q.silent, ap (total calling) q.alone, total-Moved calling m),
      ),
      omega (arith, m.calls', q.bounded, ap (total ready) q.alone, total-Moved ready m),
    )

-- The moves of a schedule that are steps.
abbrev pub steps : List ℕ → System → ℕ
unfolding perform
steps [] s = 0
steps (i ∷ is) s = steps_at i s.threads + steps is (perform (Event.moves i) s)

abbrev pub moves : List ℕ → List Event
moves is = map Event.moves is

abbrev pub Quietens : System → System → Type 0
Quietens s s' = IsStopped s' × (s'.calls + total ready s'.threads ≤ s.calls + total ready s.threads)

perform-stopped : (i : ℕ) (s : System) → IsStopped s → Quietens s (perform (Event.moves i) s)
unfolding perform
perform-stopped i s h = elim (move_cases s.timer s.calls i s.threads) [
  | inl e ↦ subst (Quietens s) (sym e) (h, omega arith)
  | inr m ↦ Moved-IsStopped s (move s.timer s.calls i s.threads) h m
]

pub stopped_steps :
    (is : List ℕ) (s : System)
    → IsStopped s
    → Quietens s (run (moves is) s)
      × (steps is s + total steps_left (run (moves is) s).threads ≤ total steps_left s.threads)
unfolding run perform
stopped_steps [] s h = ((h, omega arith), omega arith)
stopped_steps (i ∷ is) s h =
    let (stopped, fewer) = perform-stopped i s h in
    let ((stopped', fewer'), left') = stopped_steps is (perform (Event.moves i) s) stopped in
    (
      (stopped', omega (arith, fewer, fewer')),
      omega (arith, left', move_left s.timer s.calls i s.threads h.0 h.1),
    )

steps_left-le : (pcs : List Pc) → total steps_left pcs ≤ 3 * length pcs
steps_left-le [] = omega arith
steps_left-le (pc ∷ pcs) = omega (arith, at_most pc, steps_left-le pcs)
  where
    at_most : (pc : Pc) → steps_left pc ≤ 3
    at_most pc = ground arith

counted-le : (pcs : List Pc) → total counted pcs ≤ total is_running pcs
counted-le [] = omega arith
counted-le (pc ∷ pcs) = omega (arith, one pc, counted-le pcs)
  where
    one : (pc : Pc) → counted pc ≤ is_running pc
    one pc = ground arith

-- Every thread has ended, or the thread i has a step to take.
running_cases : (pcs : List Pc) → (total is_running pcs ≡ 0) ⊎ ((i : ℕ) × (steps_at i pcs ≡ 1))
running_cases [] = inl refl
running_cases (pc ∷ pcs) = elim (one pc) [
  | inr e ↦ inr (0, e)
  | inl e ↦ elim (running_cases pcs) [
    | inl none_left ↦ inl (omega arith)
    | inr (i, e') ↦ inr (suc i, e')
  ]
]
  where
    one : (pc : Pc) → (is_running pc ≡ 0) ⊎ (is_running pc ≡ 1)
    one pc = ground arith

-- Whatever has happened to a timer, once it is stopped with no call of setTimeout or setInterval
-- under way: under every schedule of its threads there are at most three steps for each thread, the
-- callbacks made are at most those of the threads that had passed their last test, the timer stays
-- inactive, and at the end either every thread has ended and the counter is 0, so that a new call
-- need not wait, or some thread has a step to take.
pub stop_lem :
    (es : List Event) (is : List ℕ) (s : System)
    → s ≡ perform Event.stops (run es new_system)
    → total calling s.threads ≡ 0
    → (steps is s ≤ 3 * length s.threads)
      × ((run (moves is) s).calls ≤ s.calls + total ready s.threads)
      × ((run (moves is) s).timer.active ≡ false)
      × (((total is_running (run (moves is) s).threads ≡ 0)
            × ((run (moves is) s).timer.counter ≡ 0))
          ⊎ ((i : ℕ) × (steps_at i (run (moves is) s).threads ≡ 1)))
unfolding perform stop
stop_lem es is s e silent =
    let s' : System = run (moves is) s in
    let inactive : s.timer.active ≡ false = ap (λ (u : System). u.timer.active) e in
    let c : IsCounted s =
      subst IsCounted (sym e)
        (perform-IsCounted Event.stops (run es new_system) (run-IsCounted es new_system refl)) in
    let c' : IsCounted s' = run-IsCounted (moves is) s c in
    let ((stopped, fewer), left) = stopped_steps is s (inactive, silent) in
    (
      omega (arith, left, steps_left-le s.threads),
      omega (arith, fewer),
      stopped.0,
      elim (running_cases s'.threads) [
        | inl ended ↦ inl (ended, omega (arith, c', counted-le s'.threads, ended))
        | inr running ↦ inr running
      ],
    )
