-- ===== src/Timer.antt =====
-- common/utils/Timer.hpp: common::utils::Timer, and the threads that use it. Each access to `active`
-- and `counter`, which are atomic, is one step of one thread, and the threads take their steps in
-- any order. A sleep ends at the next step of its thread. The callback is what is counted.
pub mod Totals
pub mod Counter
pub mod Owner
pub mod Stop
pub mod LateStop
use blockchain_messaging_sys.Prelude.{
  ℕ, zero, suc, ◌+◌, ◌-◌, Bool, true, false, List, [], ◌∷◌, ◌++◌, ◌==◌, if◌then◌else◌,
}

-- `counter` is an `int`; see `Timer.Counter` for why it never falls below 0.
pub record Timer : Type 0 where
  pub counter : ℕ
  pub active : Bool
  pub time : ℕ

abbrev pub new_timer : Timer
new_timer = record { counter = 0; active = false; time = 0 }

-- setTimeout and setInterval
pub data Kind : Type 0 where
  timeout interval : Kind

-- Where a thread stands. A caller of setTimeout or setInterval checks whether the timer is active,
-- waits for the workers, activates and counts, and records the time and starts a worker.
pub data Pc : Type 0 where
  checks waits activates counts records : Kind → ℕ → Pc
  threw returned : Pc
  timeout_starts timeout_wakes timeout_calls timeout_leaves timeout_stops : Pc
  interval_tests interval_wakes interval_calls : Pc
  leaves finished : Pc

-- What a step does: the timer after it, where the thread stands then, the thread that it starts,
-- and how many callbacks it makes.
pub record Action : Type 0 where
  pub timer : Timer
  pub pc : Pc
  pub started : List Pc
  pub calls : ℕ

abbrev pub goes : Timer → Pc → Action
goes t pc = record { timer = t; pc = pc; started = []; calls = 0 }

-- stop
unfoldable pub stop : Timer → Timer
stop t = record t { active = false }

-- ~Timer, before its sleep
unfoldable pub destroy : Timer → Timer
unfolding stop
destroy t = if t.active then stop t else t

-- throwErrorIfTimerAlreadyStarted
unfoldable pub throw_error_if_timer_already_started : Timer → Kind → ℕ → Action
throw_error_if_timer_already_started t kind delay =
    if t.active then goes t Pc.threw else goes t (Pc.waits kind delay)

-- waitForPendingCallbacks, one round of its loop
unfoldable pub wait_for_pending_callbacks : Timer → Kind → ℕ → Action
wait_for_pending_callbacks t kind delay =
    if t.counter == 0 then goes t (Pc.activates kind delay) else goes t (Pc.waits kind delay)

-- The first step of a new worker.
abbrev pub worker : Kind → Pc
worker Kind.timeout = Pc.timeout_starts
worker Kind.interval = Pc.interval_tests

-- updateTimerState in three steps; with the last the worker's thread is started.
unfoldable pub update_timer_state : Timer → Pc → Action
update_timer_state t (Pc.activates kind delay) =
    goes (record t { active = true }) (Pc.counts kind delay)
update_timer_state t (Pc.counts kind delay) =
    goes (record t { counter = t.counter + 1 }) (Pc.records kind delay)
update_timer_state t (Pc.records kind delay) = record {
  timer = record t { time = delay };
  pc = Pc.returned;
  started = worker kind ∷ [];
  calls = 0;
}
update_timer_state t pc = goes t pc

-- `if (!active.load())`
abbrev pub tested : Timer → Pc → Action
tested t pc = if t.active then goes t pc else goes t Pc.leaves

-- One step of the lambda that setTimeout starts.
unfoldable pub timeout_step : Timer → Pc → Action
unfolding stop
timeout_step t Pc.timeout_starts = tested t Pc.timeout_wakes
timeout_step t Pc.timeout_wakes = tested t Pc.timeout_calls
timeout_step t Pc.timeout_calls = record {
  timer = t;
  pc = Pc.timeout_leaves;
  started = [];
  calls = 1;
}
timeout_step t Pc.timeout_leaves = goes (record t { counter = t.counter - 1 }) Pc.timeout_stops
timeout_step t Pc.timeout_stops = goes (stop t) Pc.finished
timeout_step t pc = goes t pc

-- One step of the lambda that setInterval starts.
unfoldable pub interval_step : Timer → Pc → Action
interval_step t Pc.interval_tests = tested t Pc.interval_wakes
interval_step t Pc.interval_wakes = tested t Pc.interval_calls
interval_step t Pc.interval_calls = record {
  timer = t;
  pc = Pc.interval_tests;
  started = [];
  calls = 1;
}
interval_step t pc = goes t pc

-- The step of a thread.
unfoldable pub next : Timer → Pc → Action
unfolding throw_error_if_timer_already_started wait_for_pending_callbacks update_timer_state
    timeout_step interval_step
next t (Pc.checks kind delay) = throw_error_if_timer_already_started t kind delay
next t (Pc.waits kind delay) = wait_for_pending_callbacks t kind delay
next t (Pc.activates kind delay) = update_timer_state t (Pc.activates kind delay)
next t (Pc.counts kind delay) = update_timer_state t (Pc.counts kind delay)
next t (Pc.records kind delay) = update_timer_state t (Pc.records kind delay)
next t Pc.threw = goes t Pc.threw
next t Pc.returned = goes t Pc.returned
next t Pc.timeout_starts = timeout_step t Pc.timeout_starts
next t Pc.timeout_wakes = timeout_step t Pc.timeout_wakes
next t Pc.timeout_calls = timeout_step t Pc.timeout_calls
next t Pc.timeout_leaves = timeout_step t Pc.timeout_leaves
next t Pc.timeout_stops = timeout_step t Pc.timeout_stops
next t Pc.interval_tests = interval_step t Pc.interval_tests
next t Pc.interval_wakes = interval_step t Pc.interval_wakes
next t Pc.interval_calls = interval_step t Pc.interval_calls
next t Pc.leaves = goes (record t { counter = t.counter - 1 }) Pc.finished
next t Pc.finished = goes t Pc.finished

-- A timer, the threads that have used it, and the callbacks made.
pub record System : Type 0 where
  pub timer : Timer
  pub threads : List Pc
  pub calls : ℕ

abbrev pub new_system : System
new_system = record { timer = new_timer; threads = []; calls = 0 }

-- A thread enters setTimeout or setInterval, some thread calls stop, or thread i takes a step.
pub data Event : Type 0 where
  enters : Kind → ℕ → Event
  stops : Event
  moves : ℕ → Event

-- The threads before the one that moves come back at the front.
abbrev pub behind : Pc → System → System
behind pc s = record s { threads = pc ∷ s.threads }

abbrev pub resume : Action → List Pc → ℕ → System
resume a rest calls = record {
  timer = a.timer;
  threads = a.pc ∷ (rest ++ a.started);
  calls = calls + a.calls;
}

unfoldable pub move : Timer → ℕ → ℕ → List Pc → System
unfolding next
move t calls i [] = record { timer = t; threads = []; calls = calls }
move t calls zero (pc ∷ rest) = resume (next t pc) rest calls
move t calls (suc i) (pc ∷ rest) = behind pc (move t calls i rest)

unfoldable pub perform : Event → System → System
unfolding stop move
perform (enters kind delay) s = record s { threads = s.threads ++ Pc.checks kind delay ∷ [] }
perform stops s = record s { timer = stop s.timer }
perform (moves i) s = move s.timer s.calls i s.threads

unfoldable pub run : List Event → System → System
unfolding perform
run [] s = s
run (e ∷ es) s = run es (perform e s)
