-- ===== src/Slot/Waiters/Took.antt =====
-- BroadcastWaiter: which block it leaves in the slot's context when it returns.
use blockchain_messaging_sys.Prelude.{
  ℕ, ◌≡◌, ◌⊎◌, inl, inr, refl, ap, sym, ◌∙◌, Bool, true, false, Bool-cases, List, Option, some,
  none, Str, Result, ok, fault, arith,
}
use blockchain_messaging_sys.Serialization.{Archive}
use blockchain_messaging_sys.Redis.{Redis}
use blockchain_messaging_sys.Storage.State.{
  ConsensusStorage, ConsensusContext, entry_at, is_resolved, get_block, update_context,
}
use blockchain_messaging_sys.Storage.Sync.{
  get_slot_synchronization_context, store_synchronized, load_synchronized,
}
use blockchain_messaging_sys.Slot.State.{
  Slot, Outcome, of_result, ◌>>=◌, >>=-eq-done, Delivery, Moment,
}
use blockchain_messaging_sys.Slot.Wait.{lock, wait_until}
use blockchain_messaging_sys.Slot.Wait.Laws.{wait_until_iff}
use blockchain_messaging_sys.Slot.Waiters.{
  wait_for_broadcast, broadcast_arrived, resolved_if, take_broadcast,
}
use blockchain_messaging_sys.Slot.Waiters.Arrival.{entry_at-access}

module _ (archive : Archive) (redis : Redis) where
  abbrev entry_of : ℕ → Slot redis → ConsensusStorage → ConsensusContext
  entry_of now s storage = entry_at now s.context.validator s.context.header.slot storage.contexts

  -- The slot holds the block of the validator's entry, which is resolved.
  abbrev HasBroadcast : ℕ → Slot redis → Slot redis → Type 0
  HasBroadcast now s s' =
      ((entry_of now s s'.node.storage).is_resolved ≡ true)
      × ((entry_of now s s'.node.storage).block ≡ s'.context.broadcast_block)

  -- The validator keeps the block that it has; every other node has the block of the validator's
  -- entry, which is resolved.
  abbrev pub TakesOver : ℕ → Slot redis → Slot redis → Type 0
  TakesOver now s s' =
      ((s.context.is_validator ≡ true) × (s' ≡ s))
      ⊎ ((s.context.is_validator ≡ false) × HasBroadcast now s s')

  take_broadcast-HasBroadcast :
      (m : Moment) (pointer : Option ℕ) (s s' : Slot redis) (storage : ConsensusStorage)
      → (entry_of m.now s storage).is_resolved ≡ true
      → of_result (take_broadcast archive redis m pointer s storage) ≡ Outcome.done s'
      → HasBroadcast m.now s s'
  unfolding take_broadcast get_block store_synchronized
  take_broadcast-HasBroadcast m none s s' storage resolved e = absurd (ground arith)
  take_broadcast-HasBroadcast m (some r) s s' storage resolved e =
      let slot : ℕ = s.context.header.slot in
      let v : Str = s.context.validator in
      let same : entry_of m.now s (update_context m.now v slot (λ c. c) storage)
          ≡ entry_of m.now s storage =
        entry_at-access m.now slot slot v v storage in
      let contexts : s'.node.storage.contexts
          ≡ (update_context m.now v slot (λ c. c) storage).contexts =
        ground arith in
      let block : s'.context.broadcast_block ≡ (entry_of m.now s storage).block = ground arith in
      let kept : entry_of m.now s s'.node.storage ≡ entry_of m.now s storage =
        ap (λ cs. entry_at m.now v slot cs) contexts ∙ same in
      (
        ap (λ (c : ConsensusContext). c.is_resolved) kept ∙ resolved,
        ap (λ (c : ConsensusContext). c.block) kept ∙ sym block,
      )

  resolved_if-resolved :
      (now slot : ℕ) (v : Str) (s s' : ConsensusStorage) (loaded : Result Bool)
      → resolved_if archive redis now slot v s loaded ≡ ok (s', true)
      → (entry_at now v slot s'.contexts).is_resolved ≡ true
  unfolding resolved_if is_resolved
  resolved_if-resolved now slot v s s' (fault x) e = absurd (ground arith)
  resolved_if-resolved now slot v s s' (ok false) e = absurd (ground arith)
  resolved_if-resolved now slot v s s' (ok true) e =
      let same : update_context now v slot (λ c. c) s ≡ s' = ground arith in
      let up : (entry_at now v slot s.contexts).is_resolved ≡ true = ground arith in
      ap (λ (u : ConsensusStorage). (entry_at now v slot u.contexts).is_resolved) (sym same)
      ∙ ap (λ (c : ConsensusContext). c.is_resolved) (entry_at-access now slot slot v v s)
      ∙ up

  broadcast_arrived-resolved :
      (now slot : ℕ) (v : Str) (pointer : Option ℕ) (s s' : ConsensusStorage)
      → broadcast_arrived archive redis now slot v pointer s ≡ ok (s', true)
      → (entry_at now v slot s'.contexts).is_resolved ≡ true
  unfolding broadcast_arrived
  broadcast_arrived-resolved now slot v pointer s s' e =
      resolved_if-resolved now slot v s s' (load_synchronized pointer s) e

  -- BroadcastWaiter's run of a node that is not the validator.
  module _ (m : Moment) (s s' : Slot redis) (later : List Delivery) where
    abbrev slot_of : ℕ
    slot_of = s.context.header.slot

    abbrev pointer_of : Option ℕ
    pointer_of = (get_slot_synchronization_context slot_of s.node.storage).1

    abbrev accessed : ConsensusStorage
    accessed =
        (is_resolved m.now s.context.validator slot_of
          (get_slot_synchronization_context slot_of s.node.storage).0).0

    abbrev waits : Outcome (Slot redis × List Delivery)
    waits = lock pointer_of accessed >>= λ locked.
        wait_until archive
          (broadcast_arrived archive redis m.now slot_of s.context.validator pointer_of)
          m.deliveries locked
        >>= λ r. of_result (take_broadcast archive redis m pointer_of s r.0) >>= λ s4.
            Outcome.done (s4, r.1)

    waited-HasBroadcast : waits ≡ Outcome.done (s', later) → HasBroadcast m.now s s'
    waited-HasBroadcast e =
        let (locked, _, e1) = >>=-eq-done (lock pointer_of accessed) _ e in
        let ((s3, later3), ended, e2) =
          >>=-eq-done
            (wait_until archive
              (broadcast_arrived archive redis m.now slot_of s.context.validator pointer_of)
              m.deliveries locked)
            _ e1 in
        let (s4, took, e3) =
          >>=-eq-done (of_result (take_broadcast archive redis m pointer_of s s3)) _ e2 in
        let (t, _, _, _, arrived) =
          (wait_until_iff archive
              (broadcast_arrived archive redis m.now slot_of s.context.validator pointer_of)
              m.deliveries locked s3 later3).0
            ended in
        let same : s4 ≡ s' = ground arith in
        take_broadcast-HasBroadcast m pointer_of s s' s3
          (broadcast_arrived-resolved m.now slot_of s.context.validator pointer_of t s3 arrived)
          (took ∙ ap Outcome.done same)

    abbrev early : Outcome (Slot redis × List Delivery)
    early = of_result (take_broadcast archive redis m pointer_of s accessed) >>= λ s4.
        Outcome.done (s4, m.deliveries)

    early-HasBroadcast :
        (entry_of m.now s (get_slot_synchronization_context slot_of s.node.storage).0).is_resolved
          ≡ true
        → early ≡ Outcome.done (s', later)
        → HasBroadcast m.now s s'
    unfolding is_resolved
    early-HasBroadcast resolved e =
        let (s4, took, e3) =
          >>=-eq-done (of_result (take_broadcast archive redis m pointer_of s accessed)) _ e in
        let same : s4 ≡ s' = ground arith in
        take_broadcast-HasBroadcast m pointer_of s s' accessed
          (ap (λ (c : ConsensusContext). c.is_resolved)
              (entry_at-access m.now slot_of slot_of s.context.validator s.context.validator
                (get_slot_synchronization_context slot_of s.node.storage).0)
            ∙ resolved)
          (took ∙ ap Outcome.done same)

    -- When BroadcastWaiter returns, the validator's slot is as it was, and every other node's holds
    -- the block of the validator's entry, which is resolved.
    pub wait_for_broadcast-TakesOver :
        wait_for_broadcast archive redis m s ≡ Outcome.done (s', later) → TakesOver m.now s s'
    unfolding wait_for_broadcast is_resolved
    wait_for_broadcast-TakesOver e = elim (Bool-cases s.context.is_validator) [
      | inl own ↦ inl (own, ground arith)
      | inr other ↦ inr (
        other,
        elim (Bool-cases
            (entry_of m.now s
              (get_slot_synchronization_context slot_of s.node.storage).0).is_resolved) [
                | inl resolved ↦ early-HasBroadcast resolved (sym (rw other (rw resolved refl)) ∙ e)
                | inr unresolved ↦ waited-HasBroadcast (sym (rw other (rw unresolved refl)) ∙ e)
              ],
      )
    ]
