-- ===== src/Slot/Waiters/Missing.antt =====
-- A slot handler that runs before its slot's condition is there. `main` (node/src/App.cpp) starts
-- it from one callback of the timer wheel, the condition is made by another, and the order in which
-- the wheel's hash table makes its callbacks is unspecified.
use blockchain_messaging_sys.Prelude.{
  ℕ, ◌≡◌, refl, ◌∙◌, if_pos, Bool, true, false, none, some, ok, fault, Fault, ℕ_discrete, find,
  find-modify,
}
use blockchain_messaging_sys.Serialization.{Archive}
use blockchain_messaging_sys.Redis.{Redis}
use blockchain_messaging_sys.Storage.State.{ConsensusStorage}
use blockchain_messaging_sys.Storage.Sync.{
  init_conditions, get_slot_synchronization_context, store_synchronized,
}
use blockchain_messaging_sys.Storage.Queries.{are_all_contributors_confirmed}
use blockchain_messaging_sys.Storage.Queries.Answers.{are_all_contributors_confirmed-Answers}
use blockchain_messaging_sys.App.Consume.{signal}
use blockchain_messaging_sys.Slot.State.{Slot, Outcome, Moment}
use blockchain_messaging_sys.Slot.Wait.Laws.{ready_on, null_on}
use blockchain_messaging_sys.Slot.Waiters.{wait_for_inspection}

-- The storage after a look-up of the slot's condition.
abbrev pub looked_up : ℕ → ConsensusStorage → ConsensusStorage
looked_up slot s = (get_slot_synchronization_context slot s).0

pointer_missing :
    (slot : ℕ) (s : ConsensusStorage)
    → find ℕ_discrete slot s.conditions ≡ none
    → (get_slot_synchronization_context slot s).1 ≡ none
unfolding get_slot_synchronization_context
pointer_missing slot s e = rw e refl

find-looked_up :
    (slot : ℕ) (s : ConsensusStorage)
    → find ℕ_discrete slot s.conditions ≡ none
    → find ℕ_discrete slot (looked_up slot s).conditions ≡ some none
unfolding get_slot_synchronization_context
find-looked_up slot s e =
    find-modify ℕ_discrete slot slot none (λ p. p) s.conditions
    ∙ if_pos (ℕ_discrete slot slot) refl _ _
    ∙ rw e refl

-- A condition is not made where the null pointer already stands for one.
init_conditions-null :
    (slot : ℕ) (s : ConsensusStorage)
    → find ℕ_discrete slot s.conditions ≡ some none
    → init_conditions slot s ≡ s
unfolding init_conditions
init_conditions-null slot s e = rw (e, init_conditions) refl

signal-null :
    (slot : ℕ) (s : ConsensusStorage)
    → find ℕ_discrete slot s.conditions ≡ some none
    → signal slot s ≡ fault Fault.null_pointer
unfolding signal get_slot_synchronization_context store_synchronized
signal-null slot s e = rw e refl

module _ (archive : Archive) (redis : Redis) where
  -- An InspectionWaiter whose slot has no condition reads or writes through a null pointer, whether
  -- it would have waited or not. Its look-up leaves the null pointer under the slot, so that
  -- `initConditions` makes no condition afterwards, and every signal for the slot fails too.
  pub wait_without_condition :
      (m : Moment) (s : Slot redis)
      → find ℕ_discrete s.context.header.slot s.node.storage.conditions ≡ none
      → (wait_for_inspection archive redis m s ≡ Outcome.failed Fault.null_pointer)
        × (init_conditions s.context.header.slot (looked_up s.context.header.slot s.node.storage)
            ≡ looked_up s.context.header.slot s.node.storage)
        × (signal s.context.header.slot (looked_up s.context.header.slot s.node.storage)
            ≡ fault Fault.null_pointer)
  unfolding wait_for_inspection store_synchronized
  wait_without_condition m s e =
      let slot : ℕ = s.context.header.slot in
      let storage : ConsensusStorage = looked_up slot s.node.storage in
      let left : find ℕ_discrete slot storage.conditions ≡ some none =
        find-looked_up slot s.node.storage e in
      let (s2, b, answered, _, _, _, _) =
        are_all_contributors_confirmed-Answers m.now slot storage in
      (fails s2 b answered, init_conditions-null slot storage left, signal-null slot storage left)
    where
      fails :
          (s2 : ConsensusStorage) (b : Bool)
          → are_all_contributors_confirmed m.now s.context.header.slot
              (looked_up s.context.header.slot s.node.storage)
            ≡ ok (s2, b)
          → wait_for_inspection archive redis m s ≡ Outcome.failed Fault.null_pointer
      fails s2 true answered = rw (pointer_missing s.context.header.slot s.node.storage e) (
          rw
            (ready_on archive (are_all_contributors_confirmed m.now s.context.header.slot) none
              m.deliveries (looked_up s.context.header.slot s.node.storage) s2 answered)
            refl)
      fails s2 false answered = rw (pointer_missing s.context.header.slot s.node.storage e) (
          rw
            (null_on archive (are_all_contributors_confirmed m.now s.context.header.slot)
              m.deliveries (looked_up s.context.header.slot s.node.storage) s2 answered)
            refl)
