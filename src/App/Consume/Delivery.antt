-- ===== src/App/Consume/Delivery.antt =====
-- Messages from the sender's framing to the receiver's storage.
use blockchain_messaging_sys.Prelude.{
  ℕ, ◌+◌, ◌^◌, ◌<◌, ◌≡◌, ◌⊎◌, inl, inr, ◌≢◌, refl, ap, ◌∙◌, true, [], none, some, Str, str_dec,
  ℕ_discrete, find, ite, if_pos, ok, fault, Fault, length,
}
use blockchain_messaging_sys.Itf.{Block}
use blockchain_messaging_sys.Serialization.{Archive, ArchiveLaws, block_class, serialize}
use blockchain_messaging_sys.Serialization.RoundTrip.{block_class-laws}
use blockchain_messaging_sys.Io.Framing.{separator, find_text, merge}
use blockchain_messaging_sys.Io.Framing.RoundTrip.{split-merge}
use blockchain_messaging_sys.Io.Wrappers.{
  ConsensusOperation, ConsensusHeader, ContributionWrapper, consensus_header_class,
  contribution_class,
}
use blockchain_messaging_sys.Io.Wrappers.RoundTrip.{
  deserialize-serialize, consensus_header_class-laws, contribution_class-laws,
}
use blockchain_messaging_sys.Storage.State.{
  ConsensusStorage, entry_at, add_context, set_contribution, add_block, mark_as_resolved,
}
use blockchain_messaging_sys.Storage.State.Laws.{SameRows-entry_at}
use blockchain_messaging_sys.Storage.Sync.{init_conditions, load_synchronized, clear_slot}
use blockchain_messaging_sys.Storage.Sync.Laws.{
  clear_slot_lem, IsAllocated, HasCondition, init_conditions-HasCondition,
}
use blockchain_messaging_sys.Storage.Queries.{are_all_contributors_confirmed}
use blockchain_messaging_sys.Storage.Queries.Laws.{EveryEntry, IsConfirmed}
use blockchain_messaging_sys.Storage.Queries.Answers.{are_all_contributors_confirmed-Answers}
use blockchain_messaging_sys.App.Consume.{
  on_inspection, on_broadcast, on_operation, on_consensus_message,
}
use blockchain_messaging_sys.App.Consume.Laws.{
  ChangesEntry, IsConditionOf, declared, signal_lem, set_contribution-HasCondition,
  resolved-HasCondition, resolved_conditions, signal-none, ChangesEntry-two, EveryEntry-SameRows,
  signal_if_lem,
}

-- The serialized header holds no separator, and fits in memory.
abbrev pub IsFramable : Archive → ConsensusHeader → Type 0
IsFramable archive h =
    (find_text separator (serialize archive consensus_header_class h) ≡ none)
    × (length (serialize archive consensus_header_class h) + 13 < 2 ^ 64)

module _ (archive : Archive) (laws : ArchiveLaws archive) where
  pub delivered :
      (now : ℕ) (h : ConsensusHeader) (body : Str) (s : ConsensusStorage)
      → IsFramable archive h
      → on_consensus_message archive now (merge (serialize archive consensus_header_class h) body) s
        ≡ on_operation archive now h.operation h body s
  unfolding on_consensus_message
  delivered now h body s (clean, fits) =
      rw
        (
          split-merge (serialize archive consensus_header_class h) body clean fits,
          on_consensus_message,
        )
        (rw
          (deserialize-serialize archive laws consensus_header_class consensus_header_class-laws h)
          refl)

  inspected :
      (now : ℕ) (h : ConsensusHeader) (w : ContributionWrapper) (s : ConsensusStorage)
      → IsAllocated s
      → find ℕ_discrete h.slot s.conditions ≢ some none
      → (s' : ConsensusStorage) × (r : ℕ) × (on_inspection archive now h
            (serialize archive contribution_class w)
            s
          ≡ ok s')
        × ChangesEntry now h (declared h w) s s'
        × IsConditionOf r h.slot s'
        × ((load_synchronized (some r) s' ≡ ok true)
            ⊎ (¬ EveryEntry IsConfirmed now h.slot s'.contexts))
  unfolding on_inspection add_context set_contribution
  inspected now h w s allocated pointer =
      let s1 : ConsensusStorage = init_conditions h.slot s in
      let (r, condition, same) = init_conditions-HasCondition h.slot s allocated pointer in
      let s3 : ConsensusStorage =
        set_contribution now h.address h.slot w.is_contributing
          (add_context now h.address h.node h.slot s1) in
      let (s', e, condition', rows, flag) =
        signal_if_lem now r h.slot s3 (are_all_contributors_confirmed now h.slot s3) _
          (set_contribution-HasCondition now r h.slot h.slot h.address h.node w.is_contributing s1
            condition)
          (are_all_contributors_confirmed-Answers now h.slot s3) in
      (
        s',
        r,
        rw
            (
              deserialize-serialize archive laws contribution_class contribution_class-laws w,
              on_inspection,
            )
            e,
        λ a t.
            SameRows-entry_at now s3.contexts s'.contexts a t rows
            ∙ ChangesEntry-two now h (λ c. record c { node = h.node })
                (λ c. record c { is_contributing = some w.is_contributing }) s1 a t
            ∙ ap
                (λ cs.
                  ite (str_dec h.address a)
                    (ite (ℕ_discrete h.slot t) (declared h w (entry_at now a t cs))
                      (entry_at now a t cs))
                    (entry_at now a t cs))
                same,
        condition',
        elim flag [
          | inl up ↦ inl up
          | inr some_not ↦ inr (λ all.
              some_not
                (EveryEntry-SameRows IsConfirmed now h.slot s3.contexts s'.contexts rows all))
        ],
      )

  -- A contribution that another node sends is recorded: the framed message is taken apart and
  -- handled without error, the sender's entry of the slot gets its name and its declaration, no
  -- other entry changes, the slot has a condition, and the condition's flag is up unless some
  -- known node has not declared yet. Required: a header whose text holds no separator and fits in
  -- memory, an INSPECTION header, and no null or dangling pointer among the conditions.
  pub inspection_delivered :
      (now : ℕ) (h : ConsensusHeader) (w : ContributionWrapper) (s : ConsensusStorage)
      → h.operation ≡ ConsensusOperation.inspection
      → IsFramable archive h
      → IsAllocated s
      → find ℕ_discrete h.slot s.conditions ≢ some none
      → (s' : ConsensusStorage) × (r : ℕ) × (on_consensus_message archive now
            (merge
              (serialize archive consensus_header_class h)
              (serialize archive contribution_class w))
            s
          ≡ ok s')
        × ChangesEntry now h
            (λ c. record c { node = h.node; is_contributing = some w.is_contributing })
            s
            s'
        × IsConditionOf r h.slot s'
        × ((load_synchronized (some r) s' ≡ ok true)
            ⊎ (¬ EveryEntry IsConfirmed now h.slot s'.contexts))
  unfolding on_operation
  inspection_delivered now h w s op framable allocated pointer =
      let (s', r, e, changes, condition, flag) = inspected now h w s allocated pointer in
      let text : Str = serialize archive contribution_class w in
      (
        s',
        r,
        delivered now h text s framable ∙ ap (λ o. on_operation archive now o h text s) op ∙ e,
        changes,
        condition,
        flag,
      )

  -- A broadcast block is taken over: the framed message is handled without error, the sender's
  -- entry of the slot holds the block and is resolved, no other entry changes, and the flag of the
  -- slot's condition is up. Required: a BROADCAST header as above, and a condition for the slot.
  pub broadcast_delivered :
      (now r : ℕ) (h : ConsensusHeader) (b : Block) (s : ConsensusStorage)
      → h.operation ≡ ConsensusOperation.broadcast
      → IsFramable archive h
      → HasCondition r h.slot s
      → (s' : ConsensusStorage) × (on_consensus_message archive now
            (merge (serialize archive consensus_header_class h) (serialize archive block_class b))
            s
          ≡ ok s')
        × ChangesEntry now h (λ c. record c { block = b; is_resolved = true }) s s'
        × IsConditionOf r h.slot s'
        × (load_synchronized (some r) s' ≡ ok true)
  unfolding on_operation on_broadcast add_block mark_as_resolved
  broadcast_delivered now r h b s op framable condition =
      let text : Str = serialize archive block_class b in
      let s2 : ConsensusStorage =
        mark_as_resolved now h.address h.slot (add_block now h.address h.slot b s) in
      let (s', e, condition', flag, same) =
        signal_lem r h.slot s2
          (resolved-HasCondition now r h.slot h.slot h.address b s condition) in
      (
        s',
        delivered now h text s framable
            ∙ rw (op, on_operation)
                (rw
                  (deserialize-serialize archive laws block_class block_class-laws b, on_broadcast)
                  e),
        λ a t.
            ap (entry_at now a t) same
            ∙ ChangesEntry-two now h (λ c. record c { block = b })
                (λ c. record c { is_resolved = true }) s a t,
        condition',
        flag,
      )

  -- A broadcast for a slot that the node has already cleared dereferences a null pointer: the
  -- slot's entry is written and then the missing condition is looked up.
  pub broadcast_after_clear :
      (now : ℕ) (h : ConsensusHeader) (b : Block) (s : ConsensusStorage)
      → h.operation ≡ ConsensusOperation.broadcast
      → IsFramable archive h
      → s.contexts ≢ []
      → on_consensus_message archive now
          (merge (serialize archive consensus_header_class h) (serialize archive block_class b))
          (clear_slot h.slot s)
        ≡ fault Fault.null_pointer
  unfolding on_operation on_broadcast
  broadcast_after_clear now h b s op framable known =
      let text : Str = serialize archive block_class b in
      let gone : find ℕ_discrete h.slot (clear_slot h.slot s).conditions ≡ none =
        (clear_slot_lem now h.slot s known).1 h.slot ∙ if_pos (ℕ_discrete h.slot h.slot) refl _ _ in
      delivered now h text (clear_slot h.slot s) framable
      ∙ rw (op, on_operation)
          (rw (deserialize-serialize archive laws block_class block_class-laws b, on_broadcast)
            (signal-none h.slot _
              (resolved_conditions now h.slot h.slot h.address b (clear_slot h.slot s) gone)))
