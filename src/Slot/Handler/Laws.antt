-- ===== src/Slot/Handler/Laws.antt =====
-- Where the handlers of a slot end early, and what a broadcast sends.
use blockchain_messaging_sys.Prelude.{
  ℕ, ◌≡◌, ◌⊎◌, inl, inr, refl, Bool-cases, ap, true, false, List, [], ◌∷◌, ◌++◌, some, ok,
}
use blockchain_messaging_sys.Itf.{Block, default_blockchain}
use blockchain_messaging_sys.Serialization.{Archive, block_class, serialize}
use blockchain_messaging_sys.Io.Framing.{merge}
use blockchain_messaging_sys.Io.Channels.{ChannelType, get_remote_of_type}
use blockchain_messaging_sys.Io.Channels.Queues.{sent_to, publish_to-sent_to}
use blockchain_messaging_sys.Io.Wrappers.{ConsensusOperation, consensus_header_class}
use blockchain_messaging_sys.Redis.{Redis, get_by_index, remove_block}
use blockchain_messaging_sys.Storage.State.Laws.{SameRows}
use blockchain_messaging_sys.Storage.Queries.{is_any_node_contributing}
use blockchain_messaging_sys.Storage.Queries.Laws.{
  EveryEntry, SomeEntry, IsConfirmed, Contributes, Answers,
}
use blockchain_messaging_sys.Storage.Queries.Answers.{is_any_node_contributing-Answers}
use blockchain_messaging_sys.Slot.State.{Slot, Outcome, Moment}
use blockchain_messaging_sys.Slot.Steps.{
  remove_placeholder, try_remove, broadcast, set_operation, notify_all_nodes,
}
use blockchain_messaging_sys.Slot.Handler.{Handler, handle_loop}

module _ (archive : Archive) (redis : Redis) where
  pub handle_loop_down :
      (hs : List Handler) (ms : List Moment) (s : Slot redis)
      → s.context.should_call_next_handler ≡ false
      → handle_loop archive redis hs ms s ≡ Outcome.done s
  unfolding handle_loop
  handle_loop_down [] ms s h = refl
  handle_loop_down (x ∷ hs) [] s h = simp (h, handle_loop)
  handle_loop_down (x ∷ hs) (m ∷ ms) s h = simp (h, handle_loop)

  -- The slot goes on as it was.
  abbrev pub GoesOn : Slot redis → Slot redis → Type 0
  GoesOn s s' = (s'.context ≡ s.context) × (s'.node.db ≡ s.node.db)

  -- The placeholder goes, and the handlers that follow do nothing.
  abbrev pub Stops : Block → Slot redis → Slot redis → Type 0
  Stops b s s' =
      (s'.node.db ≡ remove_block archive redis b default_blockchain s.node.db)
      × ((hs : List Handler) (ms : List Moment)
          → handle_loop archive redis hs ms s' ≡ Outcome.done s')

  abbrev pub Tries : ℕ → Block → Slot redis → Type 0
  Tries now b s =
      (s' : Slot redis) × (try_remove archive redis now s ≡ ok s')
      × SameRows now s.node.storage.contexts s'.node.storage.contexts
      × (s'.node.sent ≡ s.node.sent)
      × ((SomeEntry Contributes now s.context.header.slot s.node.storage.contexts × GoesOn s s')
          ⊎ ((¬ SomeEntry Contributes now s.context.header.slot s.node.storage.contexts)
              × Stops b s s'))

  tries :
      (now : ℕ) (b : Block) (s : Slot redis)
      → get_by_index archive redis s.context.block_index default_blockchain s.node.db ≡ ok (some b)
      → Answers now s.node.storage
          (is_any_node_contributing now s.context.header.slot s.node.storage)
          (SomeEntry Contributes now s.context.header.slot s.node.storage.contexts)
      → Tries now b s
  unfolding try_remove remove_placeholder
  tries now b s found (s1, true, e, iff, same, _, _) = (
    record s { node = record (s.node) { storage = s1 } },
    rw (e, try_remove) refl,
    same,
    refl,
    inl (iff.0 refl, (refl, refl)),
  )
  tries now b s found (s1, false, e, iff, same, _, _) = (
    record {
      context = record (s.context) { should_call_next_handler = false };
      node = record (s.node) {
        storage = s1;
        db = remove_block archive redis b default_blockchain s.node.db;
      };
    },
    rw (e, try_remove) (rw found refl),
    same,
    refl,
    inr (λ busy. not_true (iff.1 busy), (refl, λ hs ms. handle_loop_down hs ms _ refl)),
  )
    where
      not_true : false ≡ true → ⊥
      not_true q = cc

  -- After every known node has declared, and where the database gives the slot's placeholder at the
  -- stored index: `tryRemove` throws nothing and sends nothing. If some node contributes, context
  -- and database are unchanged. If none does, the placeholder is removed from the database, and no
  -- later handler runs: the rest of the loop of `handle` ends at once.
  pub try_remove_lem :
      (now : ℕ) (b : Block) (s : Slot redis)
      → EveryEntry IsConfirmed now s.context.header.slot s.node.storage.contexts
      → get_by_index archive redis s.context.block_index default_blockchain s.node.db ≡ ok (some b)
      → Tries now b s
  try_remove_lem now b s h found =
      tries now b s found
        (is_any_node_contributing-Answers now s.context.header.slot s.node.storage h)

  -- Only a validator broadcasts: a node that is not the validator leaves everything it shares as it
  -- was; the validator sends, to each remote consensus channel once and in their order, its header
  -- as a BROADCAST header, merged with the block, and changes nothing else of what it shares.
  pub broadcast_lem :
      (s : Slot redis)
      → ((s.context.is_validator ≡ false) × ((broadcast archive redis s).node ≡ s.node))
        ⊎ ((s.context.is_validator ≡ true)
            × ((broadcast archive redis s).node ≡ record (s.node) {
              sent =
                  s.node.sent
                  ++ sent_to (get_remote_of_type ChannelType.consensus s.node.channels) (
                      merge
                        (serialize archive consensus_header_class
                          (record (s.context.header) { operation = ConsensusOperation.broadcast }))
                        (serialize archive block_class s.context.broadcast_block));
            }))
  unfolding broadcast set_operation notify_all_nodes
  broadcast_lem s = elim (Bool-cases s.context.is_validator) [
    | inl own ↦ inr (
      own,
      rw (own, broadcast)
          (ap (λ l. record (s.node) { sent = l })
            (publish_to-sent_to (get_remote_of_type ChannelType.consensus s.node.channels) _
              s.node.sent)),
    )
    | inr other ↦ inl (other, rw (other, broadcast) refl)
  ]
