-- ===== src/Slot/Waiters/Taken.antt =====
-- BroadcastWaiter and the validator's message: the waiting node takes the block that was sent.
use blockchain_messaging_sys.Prelude.{
  inl, inr, ◌⊎◌, subst, set, ℕ, ◌≡◌, refl, ap, sym, ◌∙◌, true, false, List, ◌∷◌, ◌++◌, some, Str,
  ok,
}
use blockchain_messaging_sys.Itf.{Block}
use blockchain_messaging_sys.Serialization.{Archive, ArchiveLaws}
use blockchain_messaging_sys.Io.Wrappers.{ConsensusHeader}
use blockchain_messaging_sys.Redis.{Redis}
use blockchain_messaging_sys.Storage.State.{
  ConsensusStorage, ConsensusContext, entry_at, is_resolved, get_block, update_context,
}
use blockchain_messaging_sys.Storage.Sync.{get_slot_synchronization_context, store_synchronized}
use blockchain_messaging_sys.Storage.Sync.Laws.{HasCondition, get-HasCondition}
use blockchain_messaging_sys.App.Consume.{on_consensus_message}
use blockchain_messaging_sys.App.Consume.Laws.{IsConditionOf}
use blockchain_messaging_sys.Slot.State.{Slot, Outcome, Delivery, Moment}
use blockchain_messaging_sys.Slot.Wait.{wait_until}
use blockchain_messaging_sys.Slot.Wait.Laws.{Reaches, wait_until-Reaches}
use blockchain_messaging_sys.Slot.Waiters.{wait_for_broadcast, broadcast_arrived, take_broadcast}
use blockchain_messaging_sys.Slot.Waiters.Arrival.{
  Holds, broadcast_text, IsBroadcastOf, handled, message_ends, entry_at-access,
}

ok-inj : {A : Type 0} {x y : A} → ok x ≡ ok y → x ≡ y
ok-inj e = cc

get-IsConditionOf :
    (r slot : ℕ) (s : ConsensusStorage)
    → IsConditionOf r slot s
    → ((get_slot_synchronization_context slot s).1 ≡ some r)
      × ((get_slot_synchronization_context slot s).0.contexts ≡ s.contexts)
unfolding get_slot_synchronization_context
get-IsConditionOf r slot s found = (rw found refl, refl)

module _ (archive : Archive) (laws : ArchiveLaws archive) (redis : Redis) where
  -- BroadcastWaiter's run returns with the block, and leaves the messages after the broadcast.
  abbrev pub Takes : Moment → Block → List Delivery → Slot redis → Type 0
  Takes m b later s =
      (s' : ConsensusStorage) × (wait_for_broadcast archive redis m s
        ≡ Outcome.done (
          record {
            context = record (s.context) { broadcast_block = b };
            node = record (s.node) { storage = s' };
          },
          later,
        ))

  -- The storage after the look-up of the condition, and after the first test.
  abbrev looked_up : Slot redis → ConsensusStorage
  looked_up s = (get_slot_synchronization_context s.context.header.slot s.node.storage).0

  abbrev tested : Moment → Slot redis → ConsensusStorage
  tested m s = update_context m.now s.context.validator s.context.header.slot (λ c. c) (looked_up s)

  abbrev own_entry : Moment → Slot redis → ConsensusStorage → ConsensusContext
  own_entry m s storage = entry_at m.now s.context.validator s.context.header.slot storage.contexts

  waited :
      (r : ℕ) (m : Moment) (b : Block) (later : List Delivery) (s : Slot redis)
      (s3 : ConsensusStorage)
      → s.context.is_validator ≡ false
      → (get_slot_synchronization_context s.context.header.slot s.node.storage).1 ≡ some r
      → (own_entry m s (looked_up s)).is_resolved ≡ false
      → wait_until archive
          (broadcast_arrived archive redis m.now s.context.header.slot s.context.validator (some r))
          m.deliveries
          (tested m s)
        ≡ Outcome.done (s3, later)
      → (own_entry m s s3).block ≡ b
      → Takes m b later s
  unfolding wait_for_broadcast take_broadcast is_resolved get_block store_synchronized
  waited r m b later s s3 other pointer unresolved ends block = (
    record (update_context m.now s.context.validator s.context.header.slot (λ c. c) s3) {
      synchronizations =
          set
            (update_context m.now s.context.validator s.context.header.slot (λ c. c)
              s3).synchronizations
            r (record { is_synchronized = false });
    },
    rw other (rw unresolved (rw pointer (rw ends (rw block refl)))),
  )

  took_early :
      (r : ℕ) (m : Moment) (b : Block) (s : Slot redis)
      → s.context.is_validator ≡ false
      → (get_slot_synchronization_context s.context.header.slot s.node.storage).1 ≡ some r
      → (own_entry m s (looked_up s)).is_resolved ≡ true
      → (own_entry m s (tested m s)).block ≡ b
      → Takes m b m.deliveries s
  unfolding wait_for_broadcast take_broadcast is_resolved get_block store_synchronized
  took_early r m b s other pointer resolved block = (
    record (update_context m.now s.context.validator s.context.header.slot (λ c. c) (tested m s)) {
      synchronizations =
          set
            (update_context m.now s.context.validator s.context.header.slot (λ c. c)
              (tested m s)).synchronizations
            r (record { is_synchronized = false });
    },
    rw other (rw resolved (rw pointer (rw block refl))),
  )

  -- The storages that the node's wait reaches.
  abbrev pub WaitReaches :
      ℕ → Moment → Slot redis → ConsensusStorage → List Delivery → ConsensusStorage → Type 0
  WaitReaches r m s =
      Reaches archive
        (broadcast_arrived archive redis m.now s.context.header.slot s.context.validator (some r))

  -- The broadcast comes while the node waits, after any other messages, at a storage that has the
  -- slot's condition and no resolved entry of the validator; or it came before, at such a storage or
  -- another, and what the callback wrote of the validator's entry and the condition is still there.
  abbrev pub Arrives :
      ℕ → ℕ → Moment → ConsensusHeader → Block → List Delivery → Slot redis → Type 0
  Arrives r t m h b later s =
      (HasCondition r s.context.header.slot s.node.storage
        × ((own_entry m s s.node.storage).is_resolved ≡ false)
        × ((earlier : List Delivery) × (u : ConsensusStorage) × WaitReaches r m s (tested m s)
              earlier u
            × HasCondition r s.context.header.slot u
            × ((own_entry m s u).is_resolved ≡ false)
            × (m.deliveries
                ≡ earlier ++ record { now = t; text = broadcast_text archive h b } ∷ later)))
      ⊎ ((earlier : ConsensusStorage) × (after : ConsensusStorage) × HasCondition r
            s.context.header.slot earlier
          × (on_consensus_message archive t (broadcast_text archive h b) earlier ≡ ok after)
          × (own_entry m s s.node.storage ≡ own_entry m s after)
          × IsConditionOf r s.context.header.slot s.node.storage
          × (m.deliveries ≡ later))

  -- A node that is not the validator and whose slot has a condition: when the validator's broadcast
  -- of the slot comes while it waits, or was handled before, BroadcastWaiter returns with the
  -- block that was sent, leaves the messages after it, and changes nothing else of the slot but the
  -- storage.
  pub wait_for_broadcast_lem :
      (r t : ℕ) (m : Moment) (h : ConsensusHeader) (b : Block) (later : List Delivery)
      (s : Slot redis)
      → s.context.is_validator ≡ false
      → IsBroadcastOf archive s.context.validator s.context.header.slot h
      → Arrives r t m h b later s
      → Takes m b later s
  wait_for_broadcast_lem r t m h b later s other header
        (inl (condition, unresolved, (earlier, u, reaches, condition', unresolved', next))) =
      let slot : ℕ = s.context.header.slot in
      let a : Str = s.context.validator in
      let (pointer, _, same) = get-HasCondition r slot s.node.storage condition in
      let unresolved1 : (own_entry m s (looked_up s)).is_resolved ≡ false =
        ap (λ cs. (entry_at m.now a slot cs).is_resolved) same ∙ unresolved in
      let (s3, ends, block) =
        message_ends archive laws redis m.now t r slot a h b header later u condition'
          unresolved' in
      waited r m b later s s3 other pointer unresolved1
        (ap
            (λ ds.
              wait_until archive (broadcast_arrived archive redis m.now slot a (some r)) ds
                (tested m s))
            next
          ∙ wait_until-Reaches archive (broadcast_arrived archive redis m.now slot a (some r))
              earlier _ (tested m s) u reaches
          ∙ ends)
        block
  wait_for_broadcast_lem r t m h b later s other header
        (inr (earlier, after, condition, came, kept, found, rest)) =
      let slot : ℕ = s.context.header.slot in
      let a : Str = s.context.validator in
      let (s', e, holds, _) =
        handled archive laws redis m.now t r slot a h b header earlier condition in
      let (_, resolved', block') = subst (Holds m.now r a slot b) (ok-inj (sym e ∙ came)) holds in
      let resolved : (own_entry m s s.node.storage).is_resolved ≡ true =
        ap (λ (c : ConsensusContext). c.is_resolved) kept ∙ resolved' in
      let block : (own_entry m s s.node.storage).block ≡ b =
        ap (λ (c : ConsensusContext). c.block) kept ∙ block' in
      let (pointer, same) = get-IsConditionOf r slot s.node.storage found in
      subst (λ ds. Takes m b ds s) rest
        (took_early r m b s other pointer
          (ap (λ cs. (entry_at m.now a slot cs).is_resolved) same ∙ resolved)
          (ap (λ (c : ConsensusContext). c.block)
              (entry_at-access m.now slot slot a a (looked_up s))
            ∙ ap (λ cs. (entry_at m.now a slot cs).block) same
            ∙ block))
