-- ===== src/Slot/Waiters/Arrival.antt =====
-- The arrival of the validator's message in the storage of a node that waits for it.
use blockchain_messaging_sys.Prelude.{
  subst, get_elem?-some, ℕ, ◌≡◌, refl, ap, sym, ◌∙◌, true, false, List, ◌∷◌, some, Bool, Str, ok,
  arith,
}
use blockchain_messaging_sys.Itf.{Block}
use blockchain_messaging_sys.Serialization.{Archive, ArchiveLaws, block_class, serialize}
use blockchain_messaging_sys.Io.Framing.{merge}
use blockchain_messaging_sys.Io.Wrappers.{
  ConsensusHeader, ConsensusOperation, consensus_header_class,
}
use blockchain_messaging_sys.Redis.{Redis}
use blockchain_messaging_sys.Storage.State.{
  ConsensusStorage, ConsensusContext, entry_at, is_resolved, update_context,
}
use blockchain_messaging_sys.Storage.State.Laws.{entry_at-update_entry, entry_at-resolved}
use blockchain_messaging_sys.Storage.Sync.{load_synchronized}
use blockchain_messaging_sys.Storage.Sync.Laws.{HasCondition}
use blockchain_messaging_sys.App.Consume.{on_consensus_message}
use blockchain_messaging_sys.App.Consume.Delivery.{IsFramable, broadcast_delivered}
use blockchain_messaging_sys.App.Consume.Laws.{IsConditionOf}
use blockchain_messaging_sys.Slot.State.{Outcome, Delivery}
use blockchain_messaging_sys.Slot.Wait.{wait_until, Predicate}
use blockchain_messaging_sys.Slot.Wait.Laws.{ready, not_ready}
use blockchain_messaging_sys.Slot.Waiters.{broadcast_arrived, resolved_if}

loaded :
    (r slot : ℕ) (s : ConsensusStorage)
    → HasCondition r slot s
    → (b : Bool) × (load_synchronized (some r) s ≡ ok b)
unfolding load_synchronized
loaded r slot s (found, there) =
    let (c, e) = get_elem?-some s.synchronizations r there in
    (c.is_synchronized, rw (e, load_synchronized) refl)

-- An access to an entry changes no entry.
pub entry_at-access :
    (now t slot : ℕ) (a b : Str) (s : ConsensusStorage)
    → entry_at now a t (update_context now b slot (λ c. c) s).contexts ≡ entry_at now a t s.contexts
unfolding update_context
entry_at-access now t slot a b s =
    ground (arith, entry_at-update_entry now t slot a b (λ c. c) s.contexts)

pub HasCondition-access :
    (now r slot : ℕ) (a : Str) (s : ConsensusStorage)
    → HasCondition r slot s
    → HasCondition r slot (update_context now a slot (λ c. c) s)
unfolding update_context
HasCondition-access now r slot a s condition = condition

-- What a broadcast of `a` leaves in the storage, read at any clock.
abbrev pub Holds : ℕ → ℕ → Str → ℕ → Block → ConsensusStorage → Type 0
Holds now r a slot b s =
    (load_synchronized (some r) s ≡ ok true)
    × ((entry_at now a slot s.contexts).is_resolved ≡ true)
    × ((entry_at now a slot s.contexts).block ≡ b)

abbrev pub broadcast_text : Archive → ConsensusHeader → Block → Str
broadcast_text archive h b =
    merge (serialize archive consensus_header_class h) (serialize archive block_class b)

-- The header is that of a broadcast of `a` for the slot.
abbrev pub IsBroadcastOf : Archive → Str → ℕ → ConsensusHeader → Type 0
IsBroadcastOf archive a slot h =
    (h.operation ≡ ConsensusOperation.broadcast)
    × (h.address ≡ a)
    × (h.slot ≡ slot)
    × IsFramable archive h

module _ (archive : Archive) (laws : ArchiveLaws archive) (redis : Redis) where
  -- The predicate of the wait while the validator's entry is not resolved: it is false, and the
  -- slot's condition stays.
  abbrev Waits : ℕ → ℕ → ℕ → Str → ConsensusStorage → Type 0
  Waits now r slot validator s =
      (s' : ConsensusStorage) × (broadcast_arrived archive redis now slot validator (some r) s
        ≡ ok (s', false))
      × HasCondition r slot s'

  not_arrived :
      (now r slot : ℕ) (validator : Str) (s : ConsensusStorage) (b : Bool)
      → load_synchronized (some r) s ≡ ok b
      → HasCondition r slot s
      → (entry_at now validator slot s.contexts).is_resolved ≡ false
      → Waits now r slot validator s
  unfolding broadcast_arrived resolved_if is_resolved update_context
  not_arrived now r slot validator s true e condition unresolved =
      (update_context now validator slot (λ c. c) s, rw (e, unresolved) refl, condition)
  not_arrived now r slot validator s false e condition unresolved = (s, rw e refl, condition)

  -- The predicate once the flag is up and the entry is resolved.
  arrived :
      (now r slot : ℕ) (validator : Str) (s : ConsensusStorage)
      → load_synchronized (some r) s ≡ ok true
      → (entry_at now validator slot s.contexts).is_resolved ≡ true
      → broadcast_arrived archive redis now slot validator (some r) s
        ≡ ok (update_context now validator slot (λ c. c) s, true)
  unfolding broadcast_arrived resolved_if is_resolved
  arrived now r slot validator s up done = rw (up, done) refl

  module _ (now t r slot : ℕ) (a : Str) (h : ConsensusHeader) (b : Block)
      (header : IsBroadcastOf archive a slot h) where
    pub handled :
        (s : ConsensusStorage)
        → HasCondition r slot s
        → (s' : ConsensusStorage) × (on_consensus_message archive t (broadcast_text archive h b) s
            ≡ ok s')
          × Holds now r a slot b s'
          × IsConditionOf r slot s'
    handled s condition =
        let (op, sender, at_slot, framable) = header in
        let (s', e, changes, kept, flag) =
          broadcast_delivered archive laws t r h b s op framable
            (subst (λ q. HasCondition r q s) (sym at_slot) condition) in
        let there : ((entry_at t a slot s'.contexts).is_resolved ≡ true)
            × ((entry_at t a slot s'.contexts).block ≡ b) =
          ground (arith, changes a slot) in
        let same : entry_at now a slot s'.contexts ≡ entry_at t a slot s'.contexts =
          entry_at-resolved t now slot a s'.contexts there.0 in
        (
          s',
          e,
          (
            flag,
            ap (λ (c : ConsensusContext). c.is_resolved) same ∙ there.0,
            ap (λ (c : ConsensusContext). c.block) same ∙ there.1,
          ),
          subst (λ q. IsConditionOf r q s') at_slot kept,
        )

    -- The message is handled while the node waits, and ends the wait.
    pub message_ends :
        (later : List Delivery) (s : ConsensusStorage)
        → HasCondition r slot s
        → (entry_at now a slot s.contexts).is_resolved ≡ false
        → (s' : ConsensusStorage) × (wait_until archive
              (broadcast_arrived archive redis now slot a (some r))
              (record { now = t; text = broadcast_text archive h b } ∷ later)
              s
            ≡ Outcome.done (s', later))
          × ((entry_at now a slot s'.contexts).block ≡ b)
    message_ends later s condition unresolved =
        let (up, loads) = loaded r slot s condition in
        let (s1, waits, condition1) = not_arrived now r slot a s up loads condition unresolved in
        let (s2, e, (flag, resolved, block), _) = handled s1 condition1 in
        let p : Predicate = broadcast_arrived archive redis now slot a (some r) in
        (
          update_context now a slot (λ c. c) s2,
          not_ready archive p _ later s s1 s2 waits e
              ∙ ready archive p later s2 _ (arrived now r slot a s2 flag resolved),
          ap (λ (c : ConsensusContext). c.block) (entry_at-access now slot slot a a s2) ∙ block,
        )
