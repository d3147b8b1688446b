-- ===== src/Timer/LateStop.antt =====
-- The `stop()` at the end of setTimeout's worker comes after its `fetch_sub`.
use blockchain_messaging_sys.Prelude.{ℕ, ◌≤◌, ◌≡◌, refl, false, List, [], ◌∷◌, arith}
use blockchain_messaging_sys.Timer.{Kind, Pc, System, Event, perform, run, new_system}
use blockchain_messaging_sys.Timer.Owner.{IsOwned}
use blockchain_messaging_sys.Timer.Stop.{moves, stopped_steps}

-- One owner: a timeout is set (thread 0, worker 1) and its callback made; before the worker's last
-- step the owner stops the timer and sets an interval (thread 2, worker 3); then worker 1 stops.
abbrev pub late_stop_trace : ℕ → ℕ → List Event
late_stop_trace delay interval =
    Event.enters Kind.timeout delay
    ∷ Event.moves 0
    ∷ Event.moves 0
    ∷ Event.moves 0
    ∷ Event.moves 0
    ∷ Event.moves 0
    ∷ Event.moves 1
    ∷ Event.moves 1
    ∷ Event.moves 1
    ∷ Event.moves 1
    ∷ Event.stops
    ∷ Event.enters Kind.interval interval
    ∷ Event.moves 2
    ∷ Event.moves 2
    ∷ Event.moves 2
    ∷ Event.moves 2
    ∷ Event.moves 2
    ∷ Event.moves 1
    ∷ []

after_trace :
    (delay interval : ℕ)
    → run (late_stop_trace delay interval) new_system ≡ record {
      timer = record { counter = 1; active = false; time = interval };
      threads = Pc.returned ∷ Pc.finished ∷ Pc.returned ∷ Pc.interval_tests ∷ [];
      calls = 1;
    }
unfolding run perform
after_trace delay interval = refl

-- For all delays: one owner can set an interval without an error, after a timeout whose callback has
-- been made and after `stop`, and the late `stop()` of the timeout's worker ends the interval: under
-- every schedule of the threads the interval's callback is never made.
pub late_stop :
    (delay interval : ℕ) (is : List ℕ)
    → IsOwned (late_stop_trace delay interval) new_system
      × ((run (late_stop_trace delay interval) new_system).threads
          ≡ Pc.returned ∷ Pc.finished ∷ Pc.returned ∷ Pc.interval_tests ∷ [])
      × ((run (late_stop_trace delay interval) new_system).calls ≡ 1)
      × ((run (moves is) (run (late_stop_trace delay interval) new_system)).calls ≤ 1)
unfolding run perform
late_stop delay interval is =
    let s : System = run (late_stop_trace delay interval) new_system in
    let ((_, fewer), _) = stopped_steps is s (refl, refl) in
    ((refl, (refl, tt)), refl, refl, omega (arith, fewer))
