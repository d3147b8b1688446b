-- ===== src/Tests/Threads.antt =====
-- The timer and its threads, the timer wheel, a slot without its condition, and the storage's view.
use blockchain_messaging_sys.Prelude.{
  ℕ, ◌+◌, ◌*◌, ◌≤◌, ◌≡◌, ◌⊎◌, refl, true, false, List, [], ◌∷◌, All, Perm, none, Fault, fault,
  ℕ_discrete, find, arith, length,
}
use blockchain_messaging_sys.Redis.Samples.{sample_redis}
use blockchain_messaging_sys.Serialization.Samples.{sample_archive}
use blockchain_messaging_sys.Timer.{Kind, Pc, System, Event, perform, run, new_system}
use blockchain_messaging_sys.Timer.Totals.{total}
use blockchain_messaging_sys.Timer.Counter.{IsCounted, counted, counter_lem}
use blockchain_messaging_sys.Timer.Owner.{IsOwned, single_worker}
use blockchain_messaging_sys.Timer.Stop.{
  steps, moves, steps_at, calling, ready, is_running, stop_lem,
}
use blockchain_messaging_sys.Timer.LateStop.{late_stop_trace, late_stop}
use blockchain_messaging_sys.Storage.Sync.{init_conditions}
use blockchain_messaging_sys.Storage.View.{Call, calls}
use blockchain_messaging_sys.App.Consume.{signal}
use blockchain_messaging_sys.Slot.State.{Outcome, Moment, Slot}
use blockchain_messaging_sys.Slot.TimerWheel.{tick, new_wheel}
use blockchain_messaging_sys.Slot.TimerWheel.Live
use blockchain_messaging_sys.Slot.TimerWheel.Live.{call_all, ledger_of, live, tick-call_all}
use blockchain_messaging_sys.Slot.Waiters.{wait_for_inspection}
use blockchain_messaging_sys.Slot.Waiters.Missing.{looked_up, wait_without_condition}
use blockchain_messaging_sys.Tests.Samples.{
  second, voted, sample_block, storage_of, slot_of, one_block,
}

-- An interval is set by thread 0 and runs once in thread 1.
abbrev interval_run : List Event
interval_run =
    Event.enters Kind.interval 10
    ∷ Event.moves 0
    ∷ Event.moves 0
    ∷ Event.moves 0
    ∷ Event.moves 0
    ∷ Event.moves 0
    ∷ Event.moves 1
    ∷ Event.moves 1
    ∷ Event.moves 1
    ∷ []

one_call : (run interval_run new_system).calls ≡ 1
unfolding run perform
one_call = refl

counter_lem_example :
    IsCounted (run interval_run new_system)
    × All
        (λ pc. counted pc ≤ (run interval_run new_system).timer.counter)
        (run interval_run new_system).threads
counter_lem_example = counter_lem interval_run

interval_run-IsOwned : IsOwned interval_run new_system
unfolding perform
interval_run-IsOwned = (refl, tt)

single_worker_example : total counted (run interval_run new_system).threads ≤ 1
single_worker_example = single_worker interval_run interval_run-IsOwned

abbrev stopped : System
stopped = perform Event.stops (run interval_run new_system)

nobody_calls : total calling stopped.threads ≡ 0
unfolding run perform
nobody_calls = refl

stop_lem_example :
    (steps (1 ∷ 1 ∷ []) stopped ≤ 3 * length stopped.threads)
    × ((run (moves (1 ∷ 1 ∷ [])) stopped).calls ≤ stopped.calls + total ready stopped.threads)
    × ((run (moves (1 ∷ 1 ∷ [])) stopped).timer.active ≡ false)
    × (((total is_running (run (moves (1 ∷ 1 ∷ [])) stopped).threads ≡ 0)
          × ((run (moves (1 ∷ 1 ∷ [])) stopped).timer.counter ≡ 0))
        ⊎ ((i : ℕ) × (steps_at i (run (moves (1 ∷ 1 ∷ [])) stopped).threads ≡ 1)))
stop_lem_example = stop_lem interval_run (1 ∷ 1 ∷ []) stopped refl nobody_calls

late_stop_example :
    IsOwned (late_stop_trace 5 10) new_system
    × ((run (late_stop_trace 5 10) new_system).threads
        ≡ Pc.returned ∷ Pc.finished ∷ Pc.returned ∷ Pc.interval_tests ∷ [])
    × ((run (late_stop_trace 5 10) new_system).calls ≡ 1)
    × ((run (moves (3 ∷ 3 ∷ 3 ∷ [])) (run (late_stop_trace 5 10) new_system)).calls ≤ 1)
late_stop_example = late_stop 5 10 (3 ∷ 3 ∷ 3 ∷ [])

-- Three subscriptions, of which the second is cancelled.
abbrev wheel_calls : List (Live.Call ℕ)
wheel_calls =
    Live.Call.subscribes 7
    ∷ Live.Call.subscribes 8
    ∷ Live.Call.cancels 1
    ∷ Live.Call.subscribes 9
    ∷ []

tick-call_all_example :
    Perm (tick (call_all wheel_calls (new_wheel ℕ 500))) (live (ledger_of wheel_calls []))
tick-call_all_example = tick-call_all 500 wheel_calls (omega arith)

abbrev early_slot : Slot sample_redis
early_slot = record (slot_of false voted one_block) {
  node = record ((slot_of false voted one_block).node) {
    storage = record (storage_of voted) { conditions = []; synchronizations = [] };
  };
}

abbrev moment : Moment
moment = record { now = 1100; draws = []; deliveries = [] }

no_condition : find ℕ_discrete 2 early_slot.node.storage.conditions ≡ none
unfolding find
no_condition = refl

wait_without_condition_example :
    (wait_for_inspection sample_archive sample_redis moment early_slot
      ≡ Outcome.failed Fault.null_pointer)
    × (init_conditions 2 (looked_up 2 early_slot.node.storage)
        ≡ looked_up 2 early_slot.node.storage)
    × (signal 2 (looked_up 2 early_slot.node.storage) ≡ fault Fault.null_pointer)
wait_without_condition_example =
    wait_without_condition sample_archive sample_redis moment early_slot no_condition

abbrev storage_calls : List Call
storage_calls =
    Call.init_context 1000 second 2
    ∷ Call.set_contribution 1001 second 2 true
    ∷ Call.add_block 1002 second 2 (sample_block [])
    ∷ Call.mark_as_resolved 1003 second 2
    ∷ Call.is_resolved 1004 second 2
    ∷ Call.get_block 1005 second 2
    ∷ Call.clear_slot 2
    ∷ Call.is_resolved 1006 second 2
    ∷ []
