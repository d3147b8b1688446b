-- ===== src/Slot/Steps.antt =====
-- The handlers that do not wait: PendingBlockSaver, ContributionNotifier, PendingBlockRemover,
-- ElectionNotifier, SlotHandler::nominateValidator, DataRelay, BroadcastNotifier,
-- CompleteBlockSaver and SlotHandler::publishBlock.
pub mod Frame
use blockchain_messaging_sys.Prelude.{
  ℕ, ◌-◌, Bool, true, false, ◌||◌, not, Option, none, some, Str, str_dec, ite, if◌then◌else◌,
  Result, ok, fault, Fault, ◌>>=◌,
}
use blockchain_messaging_sys.Itf.{Block, BlockState, block_default, default_blockchain}
use blockchain_messaging_sys.Serialization.{Archive, block_class, serialize}
use blockchain_messaging_sys.Buffer
use blockchain_messaging_sys.Consumer.{publish_block}
use blockchain_messaging_sys.Io.Framing.{merge}
use blockchain_messaging_sys.Io.Channels.{
  ChannelType, get_remote_of_type, get_remote, publish, publish_to,
}
use blockchain_messaging_sys.Io.Wrappers.{
  ConsensusOperation, ConsensusHeader, consensus_header_class, contribution_class,
  election_value_class,
}
use blockchain_messaging_sys.Redis.{Redis, add, update, remove_block, get_by_index}
use blockchain_messaging_sys.Storage.State.{
  add_context, set_contribution, fill_election_value, add_block, mark_as_resolved,
}
use blockchain_messaging_sys.Storage.Sync.{clear_slot}
use blockchain_messaging_sys.Storage.Queries.{is_any_node_contributing}
use blockchain_messaging_sys.Storage.Election.{mark_validator, get_validator}
use blockchain_messaging_sys.Slot.State.{SlotContext, Node, Slot}

module _ (archive : Archive) (redis : Redis) where
  abbrev S : Type 0
  S = Slot redis

  -- `serializedHeader = headerSerializer.serialize(header)`, for a new operation
  unfoldable pub set_operation : ConsensusOperation → SlotContext → SlotContext
  unfolding serialize
  set_operation operation c =
      let header = record (c.header) { operation = operation } in
      record c {
        header = header;
        serialized_header = serialize archive consensus_header_class header;
      }

  -- The message goes to every remote consensus channel.
  unfoldable pub notify_all_nodes : Str → Node redis → Node redis
  unfolding get_remote_of_type publish_to
  notify_all_nodes message n = record n {
    sent = publish_to (get_remote_of_type ChannelType.consensus n.channels) message n.sent;
  }

  -- The block of PendingBlockSaver::save, and whether it is a contribution.
  unfoldable pub taken_block : ℕ → Option Block → Block × Bool
  unfolding block_default
  taken_block now (some b) = (b, true)
  taken_block now none = (block_default now, false)

  -- PendingBlockSaver::save, with saveBlockToDb and saveHeader
  unfoldable pub save_pending_block : ℕ → S → S
  unfolding Buffer.save Buffer.pop taken_block add add_block serialize
  save_pending_block now s =
      let (buffer, popped) = Buffer.pop (Buffer.save now s.node.buffer) in
      let (block, contributes) = taken_block now popped in
      let (db, size) = add archive redis block default_blockchain s.node.db in
      let self = s.context.node_configuration.self in
      let header : ConsensusHeader = record {
        operation = ConsensusOperation.inspection;
        node = self.name;
        address = self.address;
        timestamp = block.timestamp;
        slot = block.slot;
      } in
      record {
        context = record (s.context) {
          block = block;
          contribution_wrapper = record { is_contributing = contributes };
          block_index = size - 1;
          header = header;
          serialized_header = serialize archive consensus_header_class header;
        };
        node = record (s.node) {
          buffer = buffer;
          db = db;
          storage = add_block now self.address block.slot block s.node.storage;
        };
      }

  -- ContributionNotifier::notify, with createMessage
  unfoldable pub notify_contribution : ℕ → S → S
  unfolding add_context set_contribution merge serialize notify_all_nodes
  notify_contribution now s =
      let c = s.context in
      let contributing = c.contribution_wrapper.is_contributing in
      let s1 = add_context now c.header.address c.header.node c.header.slot s.node.storage in
      let s2 =
        set_contribution now c.node_configuration.self.address c.header.slot contributing s1 in
      let message =
        merge c.serialized_header (serialize archive contribution_class c.contribution_wrapper) in
      record s { node = notify_all_nodes message (record (s.node) { storage = s2 }) }

  unfoldable pub remove_placeholder : S → Option Block → Result S
  unfolding remove_block
  remove_placeholder s none = fault Fault.bad_optional_access
  remove_placeholder s (some b) = ok (record s {
    context = record (s.context) { should_call_next_handler = false };
    node = record (s.node) { db = remove_block archive redis b default_blockchain s.node.db };
  })

  -- PendingBlockRemover::tryRemove
  unfoldable pub try_remove : ℕ → S → Result S
  unfolding is_any_node_contributing get_by_index remove_placeholder
  try_remove now s = do
    (storage, contributing) ← is_any_node_contributing now s.context.header.slot s.node.storage
    let s1 : S = record s { node = record (s.node) { storage = storage } }
    if contributing
        then ok s1
        else (get_by_index archive redis s.context.block_index default_blockchain s.node.db
            >>= remove_placeholder s1)

  -- ElectionNotifier::notify, with createMessage; `draw` is the number that the generator gives.
  unfoldable pub notify_election : ℕ → ℕ → S → S
  unfolding set_operation fill_election_value merge serialize notify_all_nodes
  notify_election now draw s =
      let c = set_operation ConsensusOperation.election s.context in
      let storage =
        fill_election_value now c.node_configuration.self.address c.header.slot draw
          s.node.storage in
      let message =
        merge c.serialized_header
          (serialize archive election_value_class (record { value = draw })) in
      record {
        context = c;
        node = notify_all_nodes message (record (s.node) { storage = storage });
      }

  -- SlotHandler::nominateValidator
  unfoldable pub nominate_validator : ℕ → S → Result S
  unfolding mark_validator
  nominate_validator now s = do
    storage ← mark_validator now s.context.header.slot s.node.storage
    ok (record s { node = record (s.node) { storage = storage } })

  -- The part of DataRelay::transfer in which the block is sent to the validator.
  send_to_validator : ℕ → S → Result S
  unfolding add_block get_remote publish mark_as_resolved merge serialize
  send_to_validator now s = do
    let c = s.context
    let address = c.node_configuration.self.address
    let s1 = add_block now address c.header.slot c.block s.node.storage
    let message = merge c.serialized_header (serialize archive block_class c.block)
    channel ← get_remote c.validator s.node.channels
    ok (record s {
      node = record (s.node) {
        storage = mark_as_resolved now address c.header.slot s1;
        sent = publish channel message s.node.sent;
      };
    })

  -- DataRelay::transfer, with createMessage
  unfoldable pub transfer : ℕ → S → Result S
  unfolding set_operation get_validator send_to_validator
  transfer now s = do
    let c = set_operation ConsensusOperation.uploading s.context
    (storage, validator) ← get_validator now c.header.slot s.node.storage
    let own = ite (str_dec validator c.node_configuration.self.address) true false
    let s1 : S = record {
      context = record c { validator = validator; is_validator = own };
      node = record (s.node) { storage = storage };
    }
    if own || not c.contribution_wrapper.is_contributing then ok s1 else send_to_validator now s1

  -- BroadcastNotifier::broadcast, with createMessage
  unfoldable pub broadcast : S → S
  unfolding set_operation merge serialize notify_all_nodes
  broadcast s =
      let c = set_operation ConsensusOperation.broadcast s.context in
      let message = merge c.serialized_header (serialize archive block_class c.broadcast_block) in
      if c.is_validator
      then record { context = c; node = notify_all_nodes message s.node }
      else record s { context = c }

  -- CompleteBlockSaver::save
  unfoldable pub save_complete_block : S → Result S
  unfolding update clear_slot
  save_complete_block s = do
    let c = record (s.context) { block = record (s.context.block) { state = BlockState.completed } }
    db ← update archive redis c.broadcast_block c.block_index default_blockchain s.node.db
    ok (record {
      context = c;
      node = record (s.node) { db = db; storage = clear_slot c.header.slot s.node.storage };
    })

  -- SlotHandler::publishBlock
  unfoldable pub publish_to_clients : S → S
  unfolding publish_block
  publish_to_clients s = record s {
    node = record (s.node) {
      sent = publish_block archive s.context.broadcast_block s.node.consumer s.node.sent;
    };
  }
