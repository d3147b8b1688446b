-- ===== src/Slot/Wait.antt =====
-- `condition.wait(lock, predicate)`: the predicate is tested first and after each message that the
-- node's consensus queue delivers: a wait whose every notification arrives. In the source the callback
-- takes no mutex, and a notification may be lost: `Threads` has the two threads step by step.
pub mod Laws
pub mod Threads
use blockchain_messaging_sys.Prelude.{
  ℕ, Option, none, some, Bool, true, false, List, [], ◌∷◌, Result, ok, fault, Fault,
}
use blockchain_messaging_sys.Serialization.{Archive}
use blockchain_messaging_sys.App.Consume.{on_consensus_message}
use blockchain_messaging_sys.Storage.State.{ConsensusStorage}
use blockchain_messaging_sys.Slot.State.{Delivery, Outcome}

abbrev pub Predicate : Type 0
Predicate = ConsensusStorage → Result (ConsensusStorage × Bool)

-- The storage when the wait ends, and the messages that come after.
unfoldable pub wait_until :
    Archive
    → Predicate
    → List Delivery
    → ConsensusStorage
    → Outcome (ConsensusStorage × List Delivery)
unfolding on_consensus_message
wait_until archive predicate [] s = elim (predicate s) [
  | fault e ↦ Outcome.failed e
  | ok (s', true) ↦ Outcome.done (s', [])
  | ok (s', false) ↦ Outcome.blocked
]
wait_until archive predicate (d ∷ ds) s = elim (predicate s) [
  | fault e ↦ Outcome.failed e
  | ok (s', true) ↦ Outcome.done (s', d ∷ ds)
  | ok (s', false) ↦ elim (on_consensus_message archive d.now d.text s') [
    | fault e ↦ Outcome.failed e
    | ok s'' ↦ wait_until archive predicate ds s''
  ]
]

-- `lock.lock()`, through the pointer to the slot's condition
abbrev pub lock : Option ℕ → ConsensusStorage → Outcome ConsensusStorage
lock (some _) s = Outcome.done s
lock none s = Outcome.failed Fault.null_pointer

-- The test before a wait, then the lock of the condition's mutex, through its pointer, and the wait.
unfoldable pub wait_on :
    Option ℕ
    → Archive
    → Predicate
    → List Delivery
    → ConsensusStorage
    → Outcome (ConsensusStorage × List Delivery)
unfolding wait_until
wait_on (some _) archive predicate ds s = wait_until archive predicate ds s
wait_on none archive predicate ds s = elim (predicate s) [
  | fault e ↦ Outcome.failed e
  | ok (s', true) ↦ Outcome.done (s', ds)
  | ok (s', false) ↦ Outcome.failed Fault.null_pointer
]

-- The messages that come while no handler waits.
unfoldable pub deliver_all : Archive → List Delivery → ConsensusStorage → Result ConsensusStorage
unfolding on_consensus_message
deliver_all archive [] s = ok s
deliver_all archive (d ∷ ds) s = elim (on_consensus_message archive d.now d.text s) [
  | fault e ↦ fault e
  | ok s' ↦ deliver_all archive ds s'
]
