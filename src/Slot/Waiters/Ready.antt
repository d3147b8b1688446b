-- ===== src/Slot/Waiters/Ready.antt =====
-- InspectionWaiter: what it has reached when it returns, and that it does not wait for what has come.
use blockchain_messaging_sys.Prelude.{
  ℕ, ◌≡◌, refl, ap, sym, ◌∙◌, Bool, true, false, List, [], ◌++◌, Option, none, some, Result, ok,
  fault, subst, arith,
}
use blockchain_messaging_sys.Serialization.{Archive}
use blockchain_messaging_sys.Redis.{Redis}
use blockchain_messaging_sys.Storage.State.{ConsensusStorage}
use blockchain_messaging_sys.Storage.Sync.{get_slot_synchronization_context, store_synchronized}
use blockchain_messaging_sys.Storage.Queries.{are_all_contributors_confirmed}
use blockchain_messaging_sys.Storage.Queries.Laws.{EveryEntry, EveryEntry-forward, IsConfirmed}
use blockchain_messaging_sys.Storage.Queries.Answers.{are_all_contributors_confirmed-Answers}
use blockchain_messaging_sys.Slot.State.{Slot, Outcome, of_result, >>=-eq-done, Delivery, Moment}
use blockchain_messaging_sys.Slot.Wait.{Predicate, wait_on}
use blockchain_messaging_sys.Slot.Wait.Laws.{Ends, Reaches, wait_until_iff}
use blockchain_messaging_sys.Slot.Waiters.{wait_for_inspection}

module _ (archive : Archive) (redis : Redis) where
  null-Ends :
      (p : Predicate) (ds later : List Delivery) (s s' : ConsensusStorage)
      (result : Result (ConsensusStorage × Bool))
      → p s ≡ result
      → wait_on none archive p ds s ≡ Outcome.done (s', later)
      → Ends archive p ds s s' later
  unfolding wait_on
  null-Ends p ds later s s' (fault x) h e = absurd (ground arith)
  null-Ends p ds later s s' (ok (t, false)) h e = absurd (ground arith)
  null-Ends p ds later s s' (ok (t, true)) h e = (s, [], ground arith, Reaches.here, ground arith)

  -- A wait that returns has seen some of the messages, and its predicate was true at last.
  wait_on-Ends :
      (pointer : Option ℕ) (p : Predicate) (ds later : List Delivery) (s s' : ConsensusStorage)
      → wait_on pointer archive p ds s ≡ Outcome.done (s', later)
      → Ends archive p ds s s' later
  unfolding wait_on
  wait_on-Ends none p ds later s s' e = null-Ends p ds later s s' (p s) refl e
  wait_on-Ends (some r) p ds later s s' e = (wait_until_iff archive p ds s s' later).0 e

  store_synchronized-contexts :
      (pointer : Option ℕ) (b : Bool) (s s' : ConsensusStorage)
      → of_result (store_synchronized pointer b s) ≡ Outcome.done s'
      → s'.contexts ≡ s.contexts
  unfolding store_synchronized
  store_synchronized-contexts none b s s' e = ground arith
  store_synchronized-contexts (some r) b s s' e = ground arith

  all_confirmed :
      (now slot : ℕ) (t s : ConsensusStorage)
      → are_all_contributors_confirmed now slot t ≡ ok (s, true)
      → EveryEntry IsConfirmed now slot s.contexts
  all_confirmed now slot t s h =
      let (t', b, e, iff, rows, _, _) = are_all_contributors_confirmed-Answers now slot t in
      let yes' : b ≡ true = ground arith in
      let same : t' ≡ s = ground arith in
      subst (λ (u : ConsensusStorage). EveryEntry IsConfirmed now slot u.contexts) same
        (EveryEntry-forward IsConfirmed now slot t.contexts t'.contexts rows (iff.0 yes'))

  -- The run took some of the messages, and every node that the storage knows has declared.
  abbrev pub Inspects : Moment → Slot redis → Slot redis → List Delivery → Type 0
  Inspects m s s' later =
      ((earlier : List Delivery) × (m.deliveries ≡ earlier ++ later))
      × EveryEntry IsConfirmed m.now s.context.header.slot s'.node.storage.contexts
      × (s'.context ≡ s.context)

  -- When InspectionWaiter returns, with or without waiting and whatever messages came meanwhile,
  -- every node that the storage it leaves knows has declared for the slot whether it contributes;
  -- the slot's context is as it was, and the messages that are left are the last of those that came.
  pub wait_for_inspection-IsConfirmed :
      (m : Moment) (s : Slot redis) {s' : Slot redis} {later : List Delivery}
      → wait_for_inspection archive redis m s ≡ Outcome.done (s', later)
      → Inspects m s s' later
  unfolding wait_for_inspection
  wait_for_inspection-IsConfirmed m s {s'} {later} e =
      let slot : ℕ = s.context.header.slot in
      let (s1, pointer) = get_slot_synchronization_context slot s.node.storage in
      let ((s2, later2), waited, rest) =
        >>=-eq-done
          (wait_on pointer archive (are_all_contributors_confirmed m.now slot) m.deliveries s1) _
          e in
      let (s3, stored, last) =
        >>=-eq-done (of_result (store_synchronized pointer false s2)) _ rest in
      let (t, earlier, split, _, ended) =
        wait_on-Ends pointer (are_all_contributors_confirmed m.now slot) m.deliveries later2 s1 s2
          waited in
      let same_later : later2 ≡ later = ground arith in
      let same_storage : s3 ≡ s'.node.storage = ground arith in
      (
        (earlier, split ∙ ap (λ l. earlier ++ l) same_later),
        subst (λ (u : ConsensusStorage). EveryEntry IsConfirmed m.now slot u.contexts) same_storage
            (subst (EveryEntry IsConfirmed m.now slot)
              (sym (store_synchronized-contexts pointer false s2 s3 stored))
              (all_confirmed m.now slot t s2 ended)),
        ground arith,
      )
