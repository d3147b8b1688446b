-- ===== src/Slot/Handler/Messages.antt =====
-- Election values and blocks on their way from one node's handler to another node's storage.
use blockchain_messaging_sys.Prelude.{
  ℕ, ◌≡◌, ◌≢◌, ◌⊎◌, refl, arith, true, false, [], ◌∷◌, ◌++◌, some, Str, str_dec, if_neg, ok,
}
use blockchain_messaging_sys.Serialization.{Archive, ArchiveLaws, block_class, serialize}
use blockchain_messaging_sys.Io.Framing.{merge}
use blockchain_messaging_sys.Io.Channels.{
  Channel, ChannelType, get_remote, get_remote_of_type, publish,
}
use blockchain_messaging_sys.Io.Channels.Queues.{sent_to, publish_to-sent_to}
use blockchain_messaging_sys.Io.Wrappers.{
  ConsensusHeader, ConsensusOperation, consensus_header_class, election_value_class,
}
use blockchain_messaging_sys.Redis.{Redis}
use blockchain_messaging_sys.Storage.State.{
  ConsensusStorage, add_block, mark_as_resolved, entry_at, fill_election_value, update_context,
}
use blockchain_messaging_sys.Storage.State.Laws.{entry_at-update_entry}
use blockchain_messaging_sys.Storage.Sync.{load_synchronized}
use blockchain_messaging_sys.Storage.Sync.Laws.{HasCondition}
use blockchain_messaging_sys.Storage.Queries.Laws.{EveryEntry, HasValue, IsConfirmed, IsCollected}
use blockchain_messaging_sys.Storage.Election.{get_validator}
use blockchain_messaging_sys.App.Consume.{on_consensus_message}
use blockchain_messaging_sys.App.Consume.Laws.{ChangesEntry}
use blockchain_messaging_sys.App.Consume.Delivery.{IsFramable}
use blockchain_messaging_sys.App.Consume.Uploads.{election_delivered, uploading_delivered}
use blockchain_messaging_sys.App.Startup.Laws.{IsKnown}
use blockchain_messaging_sys.Slot.State.{Slot}
use blockchain_messaging_sys.Slot.Steps.{notify_election, transfer, set_operation, notify_all_nodes}

module _ (archive : Archive) (laws : ArchiveLaws archive) (redis : Redis) where
  -- The slot's header with another operation.
  abbrev pub header_for : ConsensusOperation → Slot redis → ConsensusHeader
  header_for operation s = record (s.context.header) { operation = operation }

  abbrev pub value_text : ℕ → Slot redis → Str
  value_text draw s =
      merge (serialize archive consensus_header_class (header_for ConsensusOperation.election s))
        (serialize archive election_value_class (record { value = draw }))

  abbrev pub block_text : Slot redis → Str
  block_text s =
      merge (serialize archive consensus_header_class (header_for ConsensusOperation.uploading s))
        (serialize archive block_class s.context.block)

  own_value :
      (now draw : ℕ) (s : Slot redis)
      → (entry_at now s.context.node_configuration.self.address s.context.header.slot
          (notify_election archive redis now draw s).node.storage.contexts).election_value
        ≡ draw
  unfolding notify_election set_operation notify_all_nodes fill_election_value update_context
  own_value now draw s =
      let own : Str = s.context.node_configuration.self.address in
      let slot : ℕ = s.context.header.slot in
      ground (
        arith,
        entry_at-update_entry now slot slot own own (λ c. record c { election_value = draw })
            s.node.storage.contexts,
      )

  other_entries :
      (now draw : ℕ) (s : Slot redis) (a : Str) (q : ℕ)
      → (a ≢ s.context.node_configuration.self.address) ⊎ (q ≢ s.context.header.slot)
      → entry_at now a q (notify_election archive redis now draw s).node.storage.contexts
        ≡ entry_at now a q s.node.storage.contexts
  unfolding notify_election set_operation notify_all_nodes fill_election_value update_context
  other_entries now draw s a q other =
      let own : Str = s.context.node_configuration.self.address in
      ground (
        arith,
        entry_at-update_entry now q s.context.header.slot a own
            (λ c. record c { election_value = draw }) s.node.storage.contexts,
        other,
      )

  -- ElectionNotifier records the value that was drawn for the node itself and the slot, changes no
  -- other entry of its storage, and sends the same value to every remote consensus channel. Another node that takes the
  -- text records the value for the sender and the slot, changes no other entry, and raises the
  -- slot's flag unless some node that it knows has no value yet. Required: a header that can be
  -- framed, and a condition for the slot at the receiver.
  pub value_reaches :
      (now now' draw r : ℕ) (s : Slot redis) (t : ConsensusStorage)
      → IsFramable archive (header_for ConsensusOperation.election s)
      → HasCondition r s.context.header.slot t
      → (t' : ConsensusStorage) × ((notify_election archive redis now draw s).node.sent
          ≡ s.node.sent
            ++ sent_to
                (get_remote_of_type ChannelType.consensus s.node.channels)
                (value_text draw s))
        × ((entry_at now s.context.node_configuration.self.address s.context.header.slot
              (notify_election archive redis now draw s).node.storage.contexts).election_value
            ≡ draw)
        × ((a : Str) (q : ℕ)
            → (a ≢ s.context.node_configuration.self.address) ⊎ (q ≢ s.context.header.slot)
            → entry_at now a q (notify_election archive redis now draw s).node.storage.contexts
              ≡ entry_at now a q s.node.storage.contexts)
        × (on_consensus_message archive now' (value_text draw s) t ≡ ok t')
        × ChangesEntry now'
            (header_for ConsensusOperation.election s)
            (λ c. record c { election_value = draw })
            t
            t'
        × ((load_synchronized (some r) t' ≡ ok true)
            ⊎ (¬ EveryEntry HasValue now' s.context.header.slot t'.contexts))
  unfolding set_operation notify_all_nodes notify_election
  value_reaches now now' draw r s t framable condition =
      let (t', e, changes, _, flag) =
        election_delivered archive laws now' r (header_for ConsensusOperation.election s)
          (record { value = draw }) t refl framable condition in
      (
        t',
        publish_to-sent_to (get_remote_of_type ChannelType.consensus s.node.channels)
            (value_text draw s) s.node.sent,
        own_value now draw s,
        other_entries now draw s,
        e,
        changes,
        flag,
      )

  -- A contributor's slot after it has sent its block.
  relayed : ℕ → Str → Channel → Slot redis → ConsensusStorage → Slot redis
  relayed now v channel s storage =
      let c = set_operation archive redis ConsensusOperation.uploading s.context in
      let own = c.node_configuration.self.address in
      record {
        context = record c { validator = v; is_validator = false };
        node = record (s.node) {
          storage =
              mark_as_resolved now own c.header.slot
                (add_block now own c.header.slot c.block storage);
          sent = publish channel (block_text s) s.node.sent;
        };
      }

  transfer-relayed :
      (now : ℕ) (v : Str) (channel : Channel) (s : Slot redis) (storage : ConsensusStorage)
      → get_validator now s.context.header.slot s.node.storage ≡ ok (storage, v)
      → v ≢ s.context.node_configuration.self.address
      → s.context.contribution_wrapper.is_contributing ≡ true
      → get_remote v s.node.channels ≡ ok channel
      → transfer archive redis now s ≡ ok (relayed now v channel s storage)
  unfolding transfer set_operation relayed
  transfer-relayed now v channel s storage marked other contributes found =
      rw (marked, transfer)
        (rw (if_neg (str_dec v s.context.node_configuration.self.address) other)
          (rw contributes (rw found refl)))

  -- A contributor that is not the validator sends its block to the validator's channel alone, and
  -- keeps the validator's address. The validator that takes the text records the block for the
  -- sender and the slot, changes no other entry, and raises the slot's flag unless the block of some
  -- contributing node has no message. Required: the validator was marked and has a channel, a header
  -- that can be framed, a condition for the slot at the receiver, which knows the sender, and every
  -- node that the receiver knows has declared.
  pub block_reaches :
      (now now' r : ℕ) (v : Str) (channel : Channel) (s : Slot redis) (storage t : ConsensusStorage)
      → get_validator now s.context.header.slot s.node.storage ≡ ok (storage, v)
      → v ≢ s.context.node_configuration.self.address
      → s.context.contribution_wrapper.is_contributing ≡ true
      → get_remote v s.node.channels ≡ ok channel
      → IsFramable archive (header_for ConsensusOperation.uploading s)
      → HasCondition r s.context.header.slot t
      → IsKnown t.contexts s.context.header.address
      → EveryEntry IsConfirmed now' s.context.header.slot t.contexts
      → (s' : Slot redis) × (t' : ConsensusStorage) × (transfer archive redis now s ≡ ok s')
        × (s'.node.sent ≡ s.node.sent ++ (channel.queue, block_text s) ∷ [])
        × (s'.context.validator ≡ v)
        × (s'.context.is_validator ≡ false)
        × (on_consensus_message archive now' (block_text s) t ≡ ok t')
        × ChangesEntry now'
            (header_for ConsensusOperation.uploading s)
            (λ c. record c { block = s.context.block })
            t
            t'
        × ((load_synchronized (some r) t' ≡ ok true)
            ⊎ (¬ EveryEntry IsCollected now' s.context.header.slot t'.contexts))
  unfolding relayed set_operation publish
  block_reaches now now' r v channel s storage t marked other contributes found framable condition
        known confirmed =
      let (t', e, changes, _, flag) =
        uploading_delivered archive laws now' r (header_for ConsensusOperation.uploading s)
          s.context.block t refl framable condition known confirmed in
      (
        relayed now v channel s storage,
        t',
        transfer-relayed now v channel s storage marked other contributes found,
        refl,
        refl,
        refl,
        e,
        changes,
        flag,
      )
