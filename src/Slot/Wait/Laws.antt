-- ===== src/Slot/Wait/Laws.antt =====
-- What holds when a wait on a condition variable ends.
use blockchain_messaging_sys.Prelude.{
  ℕ, Option, none, some, Fault, ◌≡◌, ◌↔◌, refl, ap, subst, ◌∙◌, Bool, true, false, List, [], ◌∷◌,
  ◌++◌, Result, ok, fault,
}
use blockchain_messaging_sys.Serialization.{Archive}
use blockchain_messaging_sys.App.Consume.{on_consensus_message}
use blockchain_messaging_sys.Storage.State.{ConsensusStorage}
use blockchain_messaging_sys.Slot.State.{Delivery, Outcome}
use blockchain_messaging_sys.Slot.Wait.{Predicate, wait_until, wait_on}

module _ (archive : Archive) (p : Predicate) where
  -- The storages that a waiter sees: the predicate is false, and the next message is handled.
  pub data Reaches : ConsensusStorage → List Delivery → ConsensusStorage → Type 0 where
    here : {s : ConsensusStorage} → Reaches s [] s
    after :
        {s s' s'' t : ConsensusStorage} {d : Delivery} {ds : List Delivery}
        → p s ≡ ok (s', false)
        → on_consensus_message archive d.now d.text s' ≡ ok s''
        → Reaches s'' ds t
        → Reaches s (d ∷ ds) t

  abbrev pub Ends : List Delivery → ConsensusStorage → ConsensusStorage → List Delivery → Type 0
  Ends ds s s' later =
      (t : ConsensusStorage) × (earlier : List Delivery) × (ds ≡ earlier ++ later)
      × Reaches s earlier t
      × (p t ≡ ok (s', true))

  EndsBy : List Delivery → ConsensusStorage → Outcome (ConsensusStorage × List Delivery) → Type 0
  EndsBy ds s (Outcome.done (s', later)) = Ends ds s s' later
  EndsBy ds s Outcome.blocked = Unit
  EndsBy ds s (Outcome.failed e) = Unit

  pub ready :
      (ds : List Delivery) (s s' : ConsensusStorage)
      → p s ≡ ok (s', true)
      → wait_until archive p ds s ≡ Outcome.done (s', ds)
  unfolding wait_until
  ready [] s s' h = rw (h, wait_until) refl
  ready (d ∷ ds) s s' h = rw (h, wait_until) refl

  -- A message that comes while the predicate is false is handled, and the wait goes on.
  pub not_ready :
      (d : Delivery) (ds : List Delivery) (s s' s'' : ConsensusStorage)
      → p s ≡ ok (s', false)
      → on_consensus_message archive d.now d.text s' ≡ ok s''
      → wait_until archive p (d ∷ ds) s ≡ wait_until archive p ds s''
  unfolding wait_until
  not_ready d ds s s' s'' h e = rw (h, wait_until) (rw (e, wait_until) refl)

  -- After the messages that a waiter has seen, it goes on from the storage that it has reached.
  pub wait_until-Reaches :
      (earlier later : List Delivery) (s t : ConsensusStorage)
      → Reaches s earlier t
      → wait_until archive p (earlier ++ later) s ≡ wait_until archive p later t
  unfolding wait_until
  wait_until-Reaches earlier later s t Reaches.here = refl
  wait_until-Reaches earlier later s t (Reaches.after step handled more) =
      rw (step, wait_until) (rw handled (wait_until-Reaches _ later _ t more))

  pub ready_on :
      (pointer : Option ℕ) (ds : List Delivery) (s s' : ConsensusStorage)
      → p s ≡ ok (s', true)
      → wait_on pointer archive p ds s ≡ Outcome.done (s', ds)
  unfolding wait_on
  ready_on (some c) ds s s' h = ready ds s s' h
  ready_on none ds s s' h = rw (h, wait_on) refl

  -- A wait through the null pointer faults, where the predicate is not true at once.
  pub null_on :
      (ds : List Delivery) (s s' : ConsensusStorage)
      → p s ≡ ok (s', false)
      → wait_on none archive p ds s ≡ Outcome.failed Fault.null_pointer
  unfolding wait_on
  null_on ds s s' h = rw (h, wait_on) refl

  one_more :
      (d : Delivery) (ds : List Delivery) (s s' s'' : ConsensusStorage)
      (o : Outcome (ConsensusStorage × List Delivery))
      → p s ≡ ok (s', false)
      → on_consensus_message archive d.now d.text s' ≡ ok s''
      → EndsBy ds s'' o
      → EndsBy (d ∷ ds) s o
  unfolding EndsBy
  one_more d ds s s' s'' Outcome.blocked step handled h = tt
  one_more d ds s s' s'' (Outcome.failed e) step handled h = tt
  one_more d ds s s' s'' (Outcome.done (t', later)) step handled (t, earlier, e, reaches, last) =
      (t, d ∷ earlier, ap (◌∷◌ d) e, Reaches.after step handled reaches, last)

  last_test :
      (s : ConsensusStorage) (r : Result (ConsensusStorage × Bool))
      → p s ≡ r
      → EndsBy [] s (wait_until archive p [] s)
  unfolding wait_until EndsBy
  last_test s (fault e) h = rw (h, wait_until) tt
  last_test s (ok (s', true)) h = rw (h, wait_until) (s, [], refl, Reaches.here, h)
  last_test s (ok (s', false)) h = rw (h, wait_until) tt

  module _ (d : Delivery) (ds : List Delivery) (s : ConsensusStorage)
      (next : (s'' : ConsensusStorage) → EndsBy ds s'' (wait_until archive p ds s'')) where
    handled_test :
        (s' : ConsensusStorage) (r : Result ConsensusStorage)
        → p s ≡ ok (s', false)
        → on_consensus_message archive d.now d.text s' ≡ r
        → EndsBy (d ∷ ds) s (wait_until archive p (d ∷ ds) s)
    unfolding wait_until EndsBy
    handled_test s' (fault e) h h' = rw (h, wait_until) (rw h' tt)
    handled_test s' (ok s'') h h' =
        rw (h, wait_until)
          (rw h' (one_more d ds s s' s'' (wait_until archive p ds s'') h h' (next s'')))

    next_test :
        (r : Result (ConsensusStorage × Bool))
        → p s ≡ r
        → EndsBy (d ∷ ds) s (wait_until archive p (d ∷ ds) s)
    unfolding wait_until EndsBy
    next_test (fault e) h = rw (h, wait_until) tt
    next_test (ok (s', true)) h = rw (h, wait_until) (s, [], refl, Reaches.here, h)
    next_test (ok (s', false)) h =
        handled_test s' (on_consensus_message archive d.now d.text s') h refl

  wait_until-EndsBy :
      (ds : List Delivery) (s : ConsensusStorage) → EndsBy ds s (wait_until archive p ds s)
  wait_until-EndsBy [] s = last_test s (p s) refl
  wait_until-EndsBy (d ∷ ds) s = next_test d ds s (wait_until-EndsBy ds) (p s) refl

  wait_until_of :
      (earlier later : List Delivery) (s t s' : ConsensusStorage)
      → Reaches s earlier t
      → p t ≡ ok (s', true)
      → wait_until archive p (earlier ++ later) s ≡ Outcome.done (s', later)
  unfolding wait_until
  wait_until_of earlier later s t s' Reaches.here h = ready later s s' h
  wait_until_of earlier later s t s' (Reaches.after step handled more) h =
      rw (step, wait_until) (rw handled (wait_until_of _ later _ t s' more h))

  -- A wait returns exactly when, after some of the messages that come and with no failure among
  -- them, the predicate is true: the storage it leaves is the one the predicate was true of, and
  -- the messages after that are left to the next handlers.
  pub wait_until_iff :
      (ds : List Delivery) (s s' : ConsensusStorage) (later : List Delivery)
      → (wait_until archive p ds s ≡ Outcome.done (s', later)) ↔ Ends ds s s' later
  unfolding EndsBy
  wait_until_iff ds s s' later = (
    λ h. subst (EndsBy ds s) h (wait_until-EndsBy ds s),
    λ (t, earlier, e, reaches, last).
        ap (λ l. wait_until archive p l s) e ∙ wait_until_of earlier later s t s' reaches last,
  )
