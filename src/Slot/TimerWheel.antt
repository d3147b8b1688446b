-- ===== src/Slot/TimerWheel.antt =====
-- node/src/slot/TimerWheel.hpp: slot::TimerWheel over common::utils::Timer. A method holds the mutex
-- from its start to its end and is one step; so is a tick, which holds it over all callbacks.
pub mod Live
pub mod Times
use blockchain_messaging_sys.Prelude.{
  ℕ, ◌+◌, ◌*◌, ◌%◌, ◌^◌, Bool, true, false, List, [], ◌∷◌, Map, emplace, remove, map, ℕ_discrete,
  Result, ok, fault, Fault,
}
use blockchain_messaging_sys.Itf.{slot_length, get_time_to_the_nearest_slot}
use blockchain_messaging_sys.Timer.{Kind, System, Event, new_system, perform}

-- TimerWheel::Subscription: equality and hash are those of the id. A moved-from one is detached.
pub record Subscription : Type 0 where
  pub id : ℕ
  pub is_attached : Bool

pub record TimerWheel (C : Type 0) : Type 0 where
  pub slot : ℕ
  pub timer : System
  pub callbacks : Map ℕ C
  pub counter : ℕ

-- The constructor's default is 500.
abbrev pub new_wheel : (C : Type 0) → ℕ → TimerWheel C
new_wheel C slot = record { slot = slot; timer = new_system; callbacks = []; counter = 0 }

-- The move constructor and the move assignment: the new subscription, and what is left.
unfoldable pub move_subscription : Subscription → Subscription × Subscription
move_subscription other = (other, record other { is_attached = false })

-- How long start() sleeps before it sets the interval.
unfoldable pub start_delay : ℕ → ℕ
unfolding get_time_to_the_nearest_slot
start_delay now = get_time_to_the_nearest_slot now + 1

-- When the k-th tick comes, `late` milliseconds after what start() and the sleeps of the interval add
-- up to: the sleep of start(), then one sleep of a slot's length before each tick.
unfoldable pub tick_time : ℕ → ℕ → ℕ → ℕ
unfolding start_delay
tick_time now k late = now + start_delay now + slot_length * (k + 1) + late

module _ {C : Type 0} where
  -- subscribe; `counter` is 64 bits wide.
  unfoldable pub subscribe : C → TimerWheel C → TimerWheel C × Subscription
  unfolding emplace
  subscribe callback w = (
    record w {
      callbacks = emplace ℕ_discrete w.counter callback w.callbacks;
      counter = (w.counter + 1) % 2 ^ 64;
    },
    record { id = w.counter; is_attached = true },
  )

  -- Subscription::unsubscribe and TimerWheel::unsubscribe
  unfoldable pub unsubscribe : Subscription → TimerWheel C → Result (TimerWheel C)
  unfolding remove
  unsubscribe s w = elim s.is_attached [
    | false ↦ fault Fault.null_pointer
    | true ↦ ok (record w { callbacks = remove ℕ_discrete s.id w.callbacks })
  ]

  -- The callback of the interval: the callbacks that it makes, in iteration order.
  unfoldable pub tick : TimerWheel C → List C
  tick w = map (λ entry. entry.1) w.callbacks

  -- start, after its sleep
  unfoldable pub start : TimerWheel C → TimerWheel C
  unfolding perform
  start w = record w { timer = perform (Event.enters Kind.interval w.slot) w.timer }

  -- stop
  unfoldable pub stop : TimerWheel C → TimerWheel C
  unfolding perform
  stop w = record w { timer = perform Event.stops w.timer }
