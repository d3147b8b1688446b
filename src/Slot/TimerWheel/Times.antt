-- ===== src/Slot/TimerWheel/Times.antt =====
-- In which slot a tick comes.
use blockchain_messaging_sys.Prelude.{ℕ, ◌+◌, ◌/◌, ◌≡◌, arith}
use blockchain_messaging_sys.Itf.{slot_length, get_slot, get_time_to_the_nearest_slot}
use blockchain_messaging_sys.Slot.TimerWheel.{start_delay, tick_time}

-- A wheel that is started at `now` makes its k-th tick in the slot k + 2 after that of `now`, and a
-- slot later for each full slot's length by which its lateness plus one millisecond exceeds that:
-- up to 498 milliseconds late the ticks meet each slot once, at 499 a slot is passed over.
pub get_slot-tick_time :
    (now k late : ℕ)
    → get_slot (tick_time now k late) ≡ get_slot now + 2 + k + (late + 1) / slot_length
unfolding get_slot tick_time start_delay get_time_to_the_nearest_slot
get_slot-tick_time now k late = omega arith
