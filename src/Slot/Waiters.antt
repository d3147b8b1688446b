-- ===== src/Slot/Waiters.antt =====
-- The handlers that wait: InspectionWaiter, ElectionWaiter, ContributorsDataWaiter and
-- BroadcastWaiter. Each looks its slot's condition up once, before it tests or waits.
pub mod Ready
pub mod Missing
pub mod Frame
pub mod Arrival
pub mod Taken
pub mod Elected
pub mod Took
use blockchain_messaging_sys.Prelude.{
  ℕ, Bool, true, false, List, [], ◌∷◌, Option, Str, if◌then◌else◌, Result, ok, fault, Fault,
  ◌>>=◌ as bind,
}
use blockchain_messaging_sys.Serialization.{Archive}
use blockchain_messaging_sys.Redis.{Redis}
use blockchain_messaging_sys.Storage.State.{
  ConsensusStorage, mark_as_resolved, is_resolved, get_block,
}
use blockchain_messaging_sys.Storage.Sync.{
  get_slot_synchronization_context, store_synchronized, load_synchronized,
}
use blockchain_messaging_sys.Storage.Queries.{
  are_all_contributors_confirmed, are_all_election_values_present,
  is_all_contributors_data_collected, is_election_value_unique,
}
use blockchain_messaging_sys.Storage.Election.{remove_election_value_duplicates}
use blockchain_messaging_sys.Storage.Merge.{merge_contributors}
use blockchain_messaging_sys.Slot.State.{Slot, Outcome, of_result, ◌>>=◌, Delivery, Moment}
use blockchain_messaging_sys.Slot.Wait.{Predicate, lock, wait_until, wait_on}
use blockchain_messaging_sys.Slot.Steps.{notify_election}

-- How one round of the loop ends: the loop ends, or a new value has to be drawn.
pub data Round : Type 0 where
  finished : ConsensusStorage → List Delivery → Round
  duplicate : ConsensusStorage → List Delivery → Round

module _ (archive : Archive) (redis : Redis) where
  abbrev S : Type 0
  S = Slot redis

  abbrev with_storage : S → ConsensusStorage → S
  with_storage s storage = record s { node = record (s.node) { storage = storage } }

  -- InspectionWaiter::wait
  unfoldable pub wait_for_inspection : Moment → S → Outcome (S × List Delivery)
  unfolding get_slot_synchronization_context wait_on store_synchronized
      are_all_contributors_confirmed
  wait_for_inspection m s = do
    let slot = s.context.header.slot
    let (s1, pointer) = get_slot_synchronization_context slot s.node.storage
    (s2, later) ←
        wait_on pointer archive (are_all_contributors_confirmed m.now slot) m.deliveries s1
    s3 ← of_result (store_synchronized pointer false s2)
    Outcome.done (with_storage s s3, later)

  unique_if : ℕ → ℕ → Str → Result (ConsensusStorage × Bool) → Result (ConsensusStorage × Bool)
  unfolding is_election_value_unique
  unique_if now slot address (fault e) = fault e
  unique_if now slot address (ok (s, false)) = ok (s, false)
  unique_if now slot address (ok (s, true)) = ok (is_election_value_unique now address slot s)

  -- The negation of the loop's condition: all values are there, and the node's own is unique.
  unfoldable pub is_elected : ℕ → ℕ → Str → Predicate
  unfolding unique_if are_all_election_values_present
  is_elected now slot address s =
      unique_if now slot address (are_all_election_values_present now slot s)

  -- After the wait the node's value is tested. If it is unique the lock stays taken: the loop's
  -- condition is tested again, and `lock.lock()` would throw.
  after_wait : ℕ → ℕ → Str → ConsensusStorage → List Delivery → Outcome Round
  unfolding is_election_value_unique is_elected
  after_wait now slot address s later = elim (is_election_value_unique now address slot s).1 [
    | false ↦ Outcome.done (Round.duplicate (is_election_value_unique now address slot s).0 later)
    | true ↦ elim (is_elected now slot address (is_election_value_unique now address slot s).0) [
      | fault e ↦ Outcome.failed e
      | ok (s', true) ↦ Outcome.done (Round.finished s' later)
      | ok (s', false) ↦ Outcome.failed Fault.deadlock
    ]
  ]

  -- A round takes the lock of the condition's mutex, through its pointer, before it waits.
  election_round : ℕ → ℕ → Option ℕ → Str → List Delivery → ConsensusStorage → Outcome Round
  unfolding is_elected wait_until after_wait are_all_election_values_present
  election_round now slot pointer address deliveries s = elim (is_elected now slot address s) [
    | fault e ↦ Outcome.failed e
    | ok (s', true) ↦ Outcome.done (Round.finished s' deliveries)
    | ok (s', false) ↦ do
      locked ← lock pointer s'
      (s'', later) ← wait_until archive (are_all_election_values_present now slot) deliveries locked
      after_wait now slot address s'' later
  ]

  -- What ElectionWaiter does with a duplicate: reset the values, clear the flag, draw again.
  draw_again : ℕ → ℕ → Option ℕ → S → ConsensusStorage → Result S
  unfolding remove_election_value_duplicates store_synchronized notify_election
  draw_again now draw pointer s storage =
      bind
        (store_synchronized pointer false
          (remove_election_value_duplicates now s.context.header.slot storage))
        λ storage'. ok (notify_election archive redis now draw (with_storage s storage'))

  -- The loop of ElectionWaiter::wait takes a number of the generator in each round but the last.
  election_loop : ℕ → Option ℕ → List ℕ → List Delivery → S → Outcome (S × List Delivery)
  unfolding election_round draw_again
  election_loop now pointer [] deliveries s =
      elim (election_round now s.context.header.slot pointer
        s.context.node_configuration.self.address deliveries s.node.storage) [
          | Outcome.failed e ↦ Outcome.failed e
          | Outcome.blocked ↦ Outcome.blocked
          | Outcome.done (Round.finished s' later) ↦ Outcome.done (with_storage s s', later)
          | Outcome.done (Round.duplicate s' later) ↦ Outcome.blocked
        ]
  election_loop now pointer (draw ∷ draws) deliveries s =
      elim (election_round now s.context.header.slot pointer
        s.context.node_configuration.self.address deliveries s.node.storage) [
          | Outcome.failed e ↦ Outcome.failed e
          | Outcome.blocked ↦ Outcome.blocked
          | Outcome.done (Round.finished s' later) ↦ Outcome.done (with_storage s s', later)
          | Outcome.done (Round.duplicate s' later) ↦ elim (draw_again now draw pointer s s') [
            | fault e ↦ Outcome.failed e
            | ok next ↦ election_loop now pointer draws later next
          ]
        ]

  -- ElectionWaiter::wait
  unfoldable pub wait_for_election : Moment → S → Outcome (S × List Delivery)
  unfolding get_slot_synchronization_context election_loop
  wait_for_election m s =
      let (s1, pointer) = get_slot_synchronization_context s.context.header.slot s.node.storage in
      election_loop m.now pointer m.draws m.deliveries (with_storage s s1)

  -- ContributorsDataWaiter::wait
  unfoldable pub wait_for_contributors_data : Moment → S → Outcome (S × List Delivery)
  unfolding get_slot_synchronization_context wait_on is_all_contributors_data_collected
      merge_contributors mark_as_resolved store_synchronized
  wait_for_contributors_data m s =
      let slot = s.context.header.slot in
      let address = s.context.node_configuration.self.address in
      let (s1, pointer) = get_slot_synchronization_context slot s.node.storage in
      let waited : Outcome (S × List Delivery) = do
        (s2, later) ←
            wait_on pointer archive (is_all_contributors_data_collected m.now slot) m.deliveries s1
        (s3, block) ← of_result (merge_contributors m.now slot s2)
        s4 ← of_result (store_synchronized pointer false (mark_as_resolved m.now address slot s3))
        Outcome.done (
          record {
            context = record (s.context) { broadcast_block = block };
            node = record (s.node) { storage = s4 };
          },
          later,
        )
      in if s.context.is_validator then waited else Outcome.done (s, m.deliveries)

  resolved_if : ℕ → ℕ → Str → ConsensusStorage → Result Bool → Result (ConsensusStorage × Bool)
  unfolding is_resolved
  resolved_if now slot validator s (fault e) = fault e
  resolved_if now slot validator s (ok false) = ok (s, false)
  resolved_if now slot validator s (ok true) = ok (is_resolved now validator slot s)

  -- `isSynchronized.load() && isResolved(validator, slot)`
  pub broadcast_arrived : ℕ → ℕ → Str → Option ℕ → Predicate
  unfolding resolved_if load_synchronized
  broadcast_arrived now slot validator pointer s =
      resolved_if now slot validator s (load_synchronized pointer s)

  take_broadcast : Moment → Option ℕ → S → ConsensusStorage → Result S
  unfolding get_block store_synchronized
  take_broadcast m pointer s storage =
      let (s1, block) = get_block m.now s.context.validator s.context.header.slot storage in
      bind (store_synchronized pointer false s1) λ s2. ok (record {
        context = record (s.context) { broadcast_block = block };
        node = record (s.node) { storage = s2 };
      })

  -- BroadcastWaiter::wait
  unfoldable pub wait_for_broadcast : Moment → S → Outcome (S × List Delivery)
  unfolding get_slot_synchronization_context is_resolved wait_until broadcast_arrived take_broadcast
  wait_for_broadcast m s =
      let slot = s.context.header.slot in
      let validator = s.context.validator in
      let (s1, pointer) = get_slot_synchronization_context slot s.node.storage in
      let (s2, resolved) = is_resolved m.now validator slot s1 in
      let waited : Outcome (S × List Delivery) = do
        locked ← lock pointer s2
        (s3, later) ←
            wait_until archive (broadcast_arrived m.now slot validator pointer) m.deliveries locked
        s4 ← of_result (take_broadcast m pointer s s3)
        Outcome.done (s4, later)
      in let early : Outcome (S × List Delivery) = do
        s4 ← of_result (take_broadcast m pointer s s2)
        Outcome.done (s4, m.deliveries)
        in if s.context.is_validator
          then Outcome.done (s, m.deliveries)
          else if resolved
          then early
          else waited
