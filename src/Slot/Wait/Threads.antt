-- ===== src/Slot/Wait/Threads.antt =====
-- A wait and the callback of the consensus queue as two threads. `condition.wait` tests its predicate
-- and then goes to sleep, with the condition's mutex taken in between. The callback of
-- node/src/App.cpp writes the storage and calls `notify_all` without that mutex, so that its steps
-- may come at any point. `notifies` also stands for a spurious wake-up.
use blockchain_messaging_sys.Prelude.{
  ℕ, zero, suc, Bool, true, false, List, [], ◌∷◌, Result, ok, ◌>>=◌, ◌≡◌, refl,
}
use blockchain_messaging_sys.Serialization.{Archive}
use blockchain_messaging_sys.App.Consume.{on_consensus_message}
use blockchain_messaging_sys.Storage.State.{ConsensusStorage}
use blockchain_messaging_sys.Slot.State.{Delivery}
use blockchain_messaging_sys.Slot.Wait.{Predicate}

-- Where the waiting thread stands: before a test, after a test that was false, asleep, or past the
-- wait.
pub data Waiter : Type 0 where
  tests falls_asleep asleep returned : Waiter

pub record Threads : Type 0 where
  pub storage : ConsensusStorage
  pub waiter : Waiter

-- The waiting thread takes a step; the callback handles a message; the callback notifies.
pub data Event : Type 0 where
  waits : Event
  delivers : Delivery → Event
  notifies : Event

module _ (archive : Archive) (predicate : Predicate) where
  after_test : ConsensusStorage × Bool → Threads
  after_test (s, true) = record { storage = s; waiter = Waiter.returned }
  after_test (s, false) = record { storage = s; waiter = Waiter.falls_asleep }

  -- A step of `condition.wait(lock, predicate)`.
  unfoldable pub wait_step : Waiter → ConsensusStorage → Result Threads
  unfolding after_test
  wait_step Waiter.tests s = predicate s >>= λ r. ok (after_test r)
  wait_step Waiter.falls_asleep s = ok (record { storage = s; waiter = Waiter.asleep })
  wait_step Waiter.asleep s = ok (record { storage = s; waiter = Waiter.asleep })
  wait_step Waiter.returned s = ok (record { storage = s; waiter = Waiter.returned })

  -- `notify_all`: whoever is asleep tests again.
  unfoldable pub woken : Waiter → Waiter
  woken Waiter.asleep = Waiter.tests
  woken Waiter.tests = Waiter.tests
  woken Waiter.falls_asleep = Waiter.falls_asleep
  woken Waiter.returned = Waiter.returned

  unfoldable pub step : Event → Threads → Result Threads
  unfolding wait_step woken on_consensus_message
  step Event.waits t = wait_step t.waiter t.storage
  step (Event.delivers d) t =
      on_consensus_message archive d.now d.text t.storage >>= λ s. ok (record t { storage = s })
  step Event.notifies t = ok (record t { waiter = woken t.waiter })

  unfoldable pub run : List Event → Threads → Result Threads
  unfolding step
  run [] t = ok t
  run (e ∷ es) t = step e t >>= run es

  abbrev pub waits_on : ℕ → List Event
  waits_on zero = []
  waits_on (suc n) = Event.waits ∷ waits_on n

  abbrev pub at_start : ConsensusStorage → Threads
  at_start s = record { storage = s; waiter = Waiter.tests }

  stays_asleep :
      (n : ℕ) (s : ConsensusStorage)
      → run (waits_on n) (record { storage = s; waiter = Waiter.asleep })
        ≡ ok (record { storage = s; waiter = Waiter.asleep })
  unfolding run step wait_step
  stays_asleep zero s = refl
  stays_asleep (suc n) s = stays_asleep n s

  -- A message makes a waiter's predicate true. If it is handled when the waiter is asleep, the
  -- notification wakes the waiter, which returns. If it is handled, notification included, between
  -- the waiter's test and its sleep, the notification is lost: the waiter sleeps over a storage for
  -- which the predicate is true, however many steps it takes.
  pub lost_wake_up :
      (d : Delivery) (n : ℕ) (s s1 s2 s3 : ConsensusStorage)
      → predicate s ≡ ok (s1, false)
      → on_consensus_message archive d.now d.text s1 ≡ ok s2
      → predicate s2 ≡ ok (s3, true)
      → (run
            (Event.waits ∷ Event.waits ∷ Event.delivers d ∷ Event.notifies ∷ Event.waits ∷ [])
            (at_start s)
          ≡ ok (record { storage = s3; waiter = Waiter.returned }))
        × (run
              (Event.waits ∷ Event.delivers d ∷ Event.notifies ∷ Event.waits ∷ waits_on n)
              (at_start s)
            ≡ ok (record { storage = s2; waiter = Waiter.asleep }))
  unfolding run step wait_step woken after_test
  lost_wake_up d n s s1 s2 s3 before handled after = (
    rw (before, wait_step) (rw handled (rw (after, wait_step) refl)),
    rw (before, wait_step) (rw handled (stays_asleep n s2)),
  )
