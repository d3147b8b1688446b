-- ===== src/App/Consume/Uploads.antt =====
-- Election values and blocks of contributors, from the sender's framing to the receiver's storage.
use blockchain_messaging_sys.Prelude.{
  ℕ, ◌≡◌, ◌⊎◌, inl, inr, refl, sym, ◌∙◌, true, [], ◌∷◌, some, Str, str_dec, ℕ_discrete, find,
  if_pos, if_neg, ok, modify, subst,
}
use blockchain_messaging_sys.Itf.{Block}
use blockchain_messaging_sys.Serialization.{Archive, ArchiveLaws, block_class, serialize}
use blockchain_messaging_sys.Serialization.RoundTrip.{block_class-laws}
use blockchain_messaging_sys.Io.Framing.{merge}
use blockchain_messaging_sys.Io.Wrappers.{
  ConsensusOperation, ConsensusHeader, ElectionValueWrapper, consensus_header_class,
  election_value_class,
}
use blockchain_messaging_sys.Io.Wrappers.RoundTrip.{
  deserialize-serialize, election_value_class-laws,
}
use blockchain_messaging_sys.Storage.State.{
  ConsensusContext, ConsensusStorage, Contexts, entry, update_entry, update_context,
  fill_election_value, add_block, fresh_context,
}
use blockchain_messaging_sys.Storage.State.Laws.{
  SameRows, SameRows-entry_at, entry_at-update_entry, entry-modify,
}
use blockchain_messaging_sys.Storage.Sync.{load_synchronized}
use blockchain_messaging_sys.Storage.Sync.Laws.{HasCondition}
use blockchain_messaging_sys.Storage.Queries.{
  are_all_election_values_present, is_all_contributors_data_collected,
}
use blockchain_messaging_sys.Storage.Queries.Laws.{EveryEntry, HasValue, IsConfirmed, IsCollected}
use blockchain_messaging_sys.Storage.Queries.Answers.{
  are_all_election_values_present-Answers, is_all_contributors_data_collected-Answers,
}
use blockchain_messaging_sys.App.Consume.{
  on_election, on_uploading, on_operation, on_consensus_message,
}
use blockchain_messaging_sys.App.Consume.Laws.{
  ChangesEntry, IsConditionOf, EveryEntry-SameRows, signal_if_lem,
}
use blockchain_messaging_sys.App.Consume.Delivery.{IsFramable, delivered}
use blockchain_messaging_sys.App.Startup.Laws.{IsKnown}

update-HasCondition :
    (now r q slot : ℕ) (a : Str) (f : ConsensusContext → ConsensusContext) (s : ConsensusStorage)
    → HasCondition r q s
    → HasCondition r q (update_context now a slot f s)
unfolding update_context
update-HasCondition now r q slot a f s h = h

-- The one entry of the sender that is written, and then a test that changes no entry.
ChangesEntry-one :
    (now : ℕ) (h : ConsensusHeader) (f : ConsensusContext → ConsensusContext)
    (s s' : ConsensusStorage)
    → SameRows now (update_context now h.address h.slot f s).contexts s'.contexts
    → ChangesEntry now h f s s'
unfolding update_context
ChangesEntry-one now h f s s' rows a t =
    SameRows-entry_at now (update_entry now h.address h.slot f s.contexts) s'.contexts a t rows
    ∙ entry_at-update_entry now t h.slot a h.address f s.contexts

-- A block that is added to the entry of a known node takes no declaration away.
updated-IsConfirmed :
    (now slot : ℕ) (a : Str) (b : Block) (cs : Contexts)
    → IsKnown cs a
    → EveryEntry IsConfirmed now slot cs
    → EveryEntry IsConfirmed now slot (update_entry now a slot (λ c. record c { block = b }) cs)
unfolding update_entry modify find
updated-IsConfirmed now slot a b [] known all = absurd (known refl)
updated-IsConfirmed now slot a b ((j, row) ∷ cs) known all = elim (str_dec j a) [
  | yes here ↦
      let f : ConsensusContext → ConsensusContext = λ c. record c { block = b } in
      let eq : entry now slot (modify ℕ_discrete slot (fresh_context now) f row)
          ≡ f (entry now slot row) =
        entry-modify now slot slot f row ∙ if_pos (ℕ_discrete slot slot) refl _ _ in
      rw (if_pos (str_dec j a) here) (subst IsConfirmed (sym eq) all.0, all.1)
  | no other ↦ rw (if_neg (str_dec j a) other) (
    all.0,
    updated-IsConfirmed now slot a b cs (λ e. known (if_neg (str_dec j a) other _ _ ∙ e)) all.1,
  )
]

added-IsConfirmed :
    (now slot : ℕ) (a : Str) (b : Block) (s : ConsensusStorage)
    → IsKnown s.contexts a
    → EveryEntry IsConfirmed now slot s.contexts
    → EveryEntry IsConfirmed now slot (add_block now a slot b s).contexts
unfolding add_block update_context
added-IsConfirmed now slot a b s known all = updated-IsConfirmed now slot a b s.contexts known all

module _ (archive : Archive) (laws : ArchiveLaws archive) where
  -- An election value that another node sends is recorded: the framed message is handled without
  -- error, the sender's entry of the slot gets the value, no other entry changes, and the flag of
  -- the slot's condition is up unless some known node has no value yet.
  pub election_delivered :
      (now r : ℕ) (h : ConsensusHeader) (w : ElectionValueWrapper) (s : ConsensusStorage)
      → h.operation ≡ ConsensusOperation.election
      → IsFramable archive h
      → HasCondition r h.slot s
      → (s' : ConsensusStorage) × (on_consensus_message archive now
            (merge
              (serialize archive consensus_header_class h)
              (serialize archive election_value_class w))
            s
          ≡ ok s')
        × ChangesEntry now h (λ c. record c { election_value = w.value }) s s'
        × IsConditionOf r h.slot s'
        × ((load_synchronized (some r) s' ≡ ok true)
            ⊎ (¬ EveryEntry HasValue now h.slot s'.contexts))
  unfolding on_operation on_election fill_election_value
  election_delivered now r h w s op framable condition =
      let text : Str = serialize archive election_value_class w in
      let s1 : ConsensusStorage = fill_election_value now h.address h.slot w.value s in
      let f : ConsensusContext → ConsensusContext = λ c. record c { election_value = w.value } in
      let (s', e, condition', rows, flag) =
        signal_if_lem now r h.slot s1 (are_all_election_values_present now h.slot s1)
          (EveryEntry HasValue now h.slot s1.contexts)
          (update-HasCondition now r h.slot h.slot h.address f s condition)
          (are_all_election_values_present-Answers now h.slot s1) in
      (
        s',
        delivered archive laws now h text s framable
            ∙ rw (op, on_operation)
                (rw
                  (
                    deserialize-serialize archive laws election_value_class
                        election_value_class-laws w,
                    on_election,
                  )
                  e),
        ChangesEntry-one now h f s s' rows,
        condition',
        elim flag [
          | inl up ↦ inl up
          | inr some_not ↦ inr (λ all.
              some_not (EveryEntry-SameRows HasValue now h.slot s1.contexts s'.contexts rows all))
        ],
      )

  -- A contributor's block is recorded in the same way, where every known node has declared and the
  -- sender is one of them: the flag is up unless the block of some contributing node has no message.
  pub uploading_delivered :
      (now r : ℕ) (h : ConsensusHeader) (b : Block) (s : ConsensusStorage)
      → h.operation ≡ ConsensusOperation.uploading
      → IsFramable archive h
      → HasCondition r h.slot s
      → IsKnown s.contexts h.address
      → EveryEntry IsConfirmed now h.slot s.contexts
      → (s' : ConsensusStorage) × (on_consensus_message archive now
            (merge (serialize archive consensus_header_class h) (serialize archive block_class b))
            s
          ≡ ok s')
        × ChangesEntry now h (λ c. record c { block = b }) s s'
        × IsConditionOf r h.slot s'
        × ((load_synchronized (some r) s' ≡ ok true)
            ⊎ (¬ EveryEntry IsCollected now h.slot s'.contexts))
  unfolding on_operation on_uploading add_block
  uploading_delivered now r h b s op framable condition known confirmed =
      let text : Str = serialize archive block_class b in
      let s1 : ConsensusStorage = add_block now h.address h.slot b s in
      let f : ConsensusContext → ConsensusContext = λ c. record c { block = b } in
      let (s', e, condition', rows, flag) =
        signal_if_lem now r h.slot s1 (is_all_contributors_data_collected now h.slot s1)
          (EveryEntry IsCollected now h.slot s1.contexts)
          (update-HasCondition now r h.slot h.slot h.address f s condition)
          (is_all_contributors_data_collected-Answers now h.slot s1
            (added-IsConfirmed now h.slot h.address b s known confirmed)) in
      (
        s',
        delivered archive laws now h text s framable
            ∙ rw (op, on_operation)
                (rw
                  (deserialize-serialize archive laws block_class block_class-laws b, on_uploading)
                  e),
        ChangesEntry-one now h f s s' rows,
        condition',
        elim flag [
          | inl up ↦ inl up
          | inr some_not ↦ inr (λ all.
              some_not
                (EveryEntry-SameRows IsCollected now h.slot s1.contexts s'.contexts rows all))
        ],
      )
