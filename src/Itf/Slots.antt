-- ===== src/Itf/Slots.antt =====
-- The slot arithmetic of common/utils/Time.cpp and the equality of common/itf.
use blockchain_messaging_sys.Prelude.{
  ℕ, suc, ◌+◌, ◌*◌, ◌≤◌, ◌<◌, ◌≡◌, ◌↔◌, true, List, [], ◌∷◌, arith,
}
use blockchain_messaging_sys.Itf.{
  get_slot, get_time_to_the_nearest_slot, slot_length, Message, Block, BlockState, message_eq,
  block_eq, state_eq, messages_eq,
}

-- The wait that `getTimeToTheNearestSlot` computes is between 1 and 500 milliseconds, also at the
-- start of a slot; it ends exactly at the start of the next slot, and every shorter wait ends in the
-- current slot.
pub nearest_slot_boundary :
    (timestamp : ℕ)
    → (1 ≤ get_time_to_the_nearest_slot timestamp)
      × (get_time_to_the_nearest_slot timestamp ≤ slot_length)
      × (timestamp + get_time_to_the_nearest_slot timestamp
          ≡ suc (get_slot timestamp) * slot_length)
      × (get_slot (timestamp + get_time_to_the_nearest_slot timestamp) ≡ suc (get_slot timestamp))
      × ((early : ℕ)
          → early < get_time_to_the_nearest_slot timestamp
          → get_slot (timestamp + early) ≡ get_slot timestamp)
unfolding get_slot get_time_to_the_nearest_slot
nearest_slot_boundary timestamp =
    (omega arith, omega arith, omega arith, omega arith, λ early h. omega arith)

message_eq-eq : (m n : Message) → (message_eq m n ≡ true) ↔ (m ≡ n)
unfolding message_eq
message_eq-eq m n = ground arith

messages_eq-eq : (ms ns : List Message) → (messages_eq ms ns ≡ true) ↔ (ms ≡ ns)
unfolding messages_eq
messages_eq-eq [] [] = ground arith
messages_eq-eq [] (n ∷ ns) = ground arith
messages_eq-eq (m ∷ ms) [] = ground arith
messages_eq-eq (m ∷ ms) (n ∷ ns) = ground (arith, message_eq-eq n m, messages_eq-eq ms ns)

state_eq-eq : (s t : BlockState) → (state_eq s t ≡ true) ↔ (s ≡ t)
unfolding state_eq
state_eq-eq BlockState.pending BlockState.pending = ground arith
state_eq-eq BlockState.pending BlockState.completed = ground arith
state_eq-eq BlockState.completed BlockState.pending = ground arith
state_eq-eq BlockState.completed BlockState.completed = ground arith

-- `Block::operator==` holds of two blocks exactly when they are the same in every field, each
-- message included.
pub block_eq-eq : (b c : Block) → (block_eq b c ≡ true) ↔ (b ≡ c)
unfolding block_eq
block_eq-eq b c = ground (arith, state_eq-eq c.state b.state, messages_eq-eq c.messages b.messages)
