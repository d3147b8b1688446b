-- ===== src/Slot/Handler/Rounds.antt =====
-- One node's handler and another node's callback together: what the first sends, the second records.
use blockchain_messaging_sys.Prelude.{
  ℕ, ◌≡◌, ◌≢◌, ◌⊎◌, inl, inr, refl, arith, ◌++◌, Bool, true, false, Option, none, some, Str,
  ℕ_discrete, find, ok,
}
use blockchain_messaging_sys.Itf.{Block, NodeInfo, block_default}
use blockchain_messaging_sys.Buffer.{Buffer, save, pop}
use blockchain_messaging_sys.Serialization.{Archive, ArchiveLaws, serialize}
use blockchain_messaging_sys.Io.Framing.{merge}
use blockchain_messaging_sys.Io.Channels.{ChannelType, get_remote_of_type}
use blockchain_messaging_sys.Io.Channels.Queues.{sent_to, publish_to-sent_to}
use blockchain_messaging_sys.Io.Wrappers.{
  ConsensusHeader, ConsensusOperation, consensus_header_class, contribution_class,
}
use blockchain_messaging_sys.Redis.{Redis}
use blockchain_messaging_sys.Storage.State.{
  ConsensusStorage, entry_at, add_context, set_contribution, update_context,
}
use blockchain_messaging_sys.Storage.State.Laws.{entry_at-update_entry}
use blockchain_messaging_sys.Storage.Sync.Laws.{IsAllocated}
use blockchain_messaging_sys.App.Consume.{on_consensus_message}
use blockchain_messaging_sys.App.Consume.Laws.{ChangesEntry}
use blockchain_messaging_sys.App.Consume.Delivery.{IsFramable, inspection_delivered}
use blockchain_messaging_sys.Slot.State.{Slot}
use blockchain_messaging_sys.Slot.Steps.{
  taken_block, save_pending_block, notify_contribution, notify_all_nodes,
}

module _ (archive : Archive) (laws : ArchiveLaws archive) (redis : Redis) where
  -- The block is the one that leaves the buffer, which is a contribution, or a new one where the
  -- buffer has none, which is not.
  abbrev pub IsTaken : ℕ → Buffer → Block → Bool → Type 0
  IsTaken now buffer b contributes =
      (((pop (save now buffer)).1 ≡ some b) × (contributes ≡ true))
      ⊎ (((pop (save now buffer)).1 ≡ none) × (b ≡ block_default now) × (contributes ≡ false))

  taken_block-IsTaken :
      (now : ℕ) (buffer : Buffer) (popped : Option Block)
      → (pop (save now buffer)).1 ≡ popped
      → IsTaken now buffer
          (taken_block archive redis now popped).0
          (taken_block archive redis now popped).1
  unfolding taken_block
  taken_block-IsTaken now buffer (some b) e = inl (e, refl)
  taken_block-IsTaken now buffer none e = inr (e, refl, refl)

  -- The header of a node's declaration for the slot of a block.
  abbrev pub declaration_header : NodeInfo → Block → ConsensusHeader
  declaration_header self b = record {
    operation = ConsensusOperation.inspection;
    node = self.name;
    address = self.address;
    timestamp = b.timestamp;
    slot = b.slot;
  }

  own_declaration :
      (now t : ℕ) (a n : Str) (b : Bool) (s : ConsensusStorage)
      → (entry_at now a t
          (set_contribution now a t b (add_context now a n t s)).contexts).is_contributing
        ≡ some b
  unfolding set_contribution add_context update_context
  own_declaration now t a n b s = ground (
    arith,
    entry_at-update_entry now t t a a (λ c. record c { is_contributing = some b })
        (add_context now a n t s).contexts,
  )

  -- PendingBlockSaver and ContributionNotifier of one node take the block `b` that leaves the buffer
  -- at the start of the slot, which is a contribution, or a new block where the buffer has none,
  -- which is not one. The node records its own declaration for the slot of `b`, and every remote
  -- consensus channel is sent one text. Another node that takes this text records, for the sender's
  -- address and the slot of `b`, the sender's name and whether `b` came out of the buffer, and
  -- changes no other entry. Required: the saved header's text holds no separator and fits in memory,
  -- and the receiver has no null or dangling condition.
  pub declaration_reaches :
      (now now' : ℕ) (s : Slot redis) (t : ConsensusStorage)
      → IsFramable archive (save_pending_block archive redis now s).context.header
      → IsAllocated t
      → find ℕ_discrete (save_pending_block archive redis now s).context.header.slot t.conditions
        ≢ some none
      → (b : Block) × (contributes : Bool) × (text : Str) × (t' : ConsensusStorage) × IsTaken now
          s.node.buffer b contributes
        × ((entry_at now s.context.node_configuration.self.address b.slot
              (notify_contribution archive redis now (save_pending_block archive redis now s)
                ).node.storage.contexts).is_contributing
            ≡ some contributes)
        × ((notify_contribution archive redis now
              (save_pending_block archive redis now s)).node.sent
            ≡ s.node.sent
              ++ sent_to (get_remote_of_type ChannelType.consensus s.node.channels) text)
        × (on_consensus_message archive now' text t ≡ ok t')
        × ChangesEntry now'
            (declaration_header s.context.node_configuration.self b)
            (λ c. record c {
              node = s.context.node_configuration.self.name;
              is_contributing = some contributes;
            })
            t
            t'
  unfolding save_pending_block notify_contribution notify_all_nodes
  declaration_reaches now now' s t framable allocated pointer =
      let s1 : Slot redis = save_pending_block archive redis now s in
      let text : Str =
        merge (serialize archive consensus_header_class s1.context.header)
          (serialize archive contribution_class s1.context.contribution_wrapper) in
      let (t', r, e, changes, _, _) =
        inspection_delivered archive laws now' s1.context.header s1.context.contribution_wrapper t
          refl framable allocated pointer in
      (
        s1.context.block,
        s1.context.contribution_wrapper.is_contributing,
        text,
        t',
        taken_block-IsTaken now s.node.buffer _ refl,
        own_declaration now s1.context.header.slot s.context.node_configuration.self.address
            s1.context.header.node s1.context.contribution_wrapper.is_contributing s1.node.storage,
        publish_to-sent_to (get_remote_of_type ChannelType.consensus s.node.channels) text
            s.node.sent,
        e,
        changes,
      )
