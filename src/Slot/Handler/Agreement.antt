-- ===== src/Slot/Handler/Agreement.antt =====
-- The validator and another node at the end of one slot: what is sent, taken, stored and read.
use blockchain_messaging_sys.Prelude.{
  arith, ℕ, ◌≡◌, ◌<◌, ◌^◌, refl, true, false, List, ◌++◌, some, ok, length,
}
use blockchain_messaging_sys.Itf.{Block, BlockState, default_blockchain}
use blockchain_messaging_sys.Serialization.{Archive, ArchiveLaws}
use blockchain_messaging_sys.Io.Channels.{ChannelType, get_remote_of_type}
use blockchain_messaging_sys.Io.Channels.Queues.{sent_to, publish_to-sent_to}
use blockchain_messaging_sys.Io.Wrappers.{ConsensusHeader, ConsensusOperation}
use blockchain_messaging_sys.Redis.{Redis, RedisLaws, get_by_index}
use blockchain_messaging_sys.Redis.Chain.{update-get}
use blockchain_messaging_sys.Storage.Sync.{clear_slot}
use blockchain_messaging_sys.Slot.State.{Slot, Outcome, Delivery, Moment}
use blockchain_messaging_sys.Slot.Steps.{
  broadcast, set_operation, notify_all_nodes, save_complete_block,
}
use blockchain_messaging_sys.Slot.Waiters.{wait_for_broadcast}
use blockchain_messaging_sys.Slot.Waiters.Arrival.{broadcast_text, IsBroadcastOf}
use blockchain_messaging_sys.Slot.Waiters.Taken.{Arrives, wait_for_broadcast_lem}

module _ (archive : Archive) (laws : ArchiveLaws archive) (redis : Redis)
    (rlaws : RedisLaws redis) where
  open rlaws use {elements}

  -- The slot's place is in the database.
  abbrev pub HasPlace : Slot redis → Type 0
  HasPlace s =
      (s.context.block_index < length (elements default_blockchain s.node.db))
      × (s.context.block_index < 2 ^ 31)

  -- CompleteBlockSaver succeeds, and the block is read at the slot's index afterwards.
  abbrev pub Keeps : Block → Slot redis → Type 0
  Keeps b s =
      (s' : Slot redis) × (save_complete_block archive redis s ≡ ok s')
      × (get_by_index archive redis s.context.block_index default_blockchain s'.node.db
          ≡ ok (some b))

  saved : (s : Slot redis) → HasPlace s → Keeps s.context.broadcast_block s
  unfolding save_complete_block
  saved s (inside, small) =
      let (db, e, found) =
        update-get archive laws redis rlaws default_blockchain s.context.block_index
          s.context.broadcast_block s.node.db inside small in
      (
        record {
          context = record (s.context) {
            block = record (s.context.block) { state = BlockState.completed };
          };
          node = record (s.node) {
            db = db;
            storage = clear_slot s.context.header.slot s.node.storage;
          };
        },
        rw e refl,
        found,
      )

  -- The header of the validator's broadcast.
  abbrev pub broadcast_header : Slot redis → ConsensusHeader
  broadcast_header v = record (v.context.header) { operation = ConsensusOperation.broadcast }

  -- The validator's slot after its broadcast.
  broadcasts :
      (v : Slot redis)
      → v.context.is_validator ≡ true
      → broadcast archive redis v ≡ record {
        context = set_operation archive redis ConsensusOperation.broadcast v.context;
        node = record (v.node) {
          sent =
              v.node.sent
              ++ sent_to
                  (get_remote_of_type ChannelType.consensus v.node.channels)
                  (broadcast_text archive (broadcast_header v) v.context.broadcast_block);
        };
      }
  unfolding broadcast set_operation notify_all_nodes
  broadcasts v own = ground (
    arith,
    publish_to-sent_to (get_remote_of_type ChannelType.consensus v.node.channels)
        (broadcast_text archive (broadcast_header v) v.context.broadcast_block) v.node.sent,
  )

  -- Agreement. The validator broadcasts; another node, for which this is the validator of the slot,
  -- is not the validator itself. It gets the message while it waits, after any other messages that
  -- did not resolve the validator's entry; or it got it before, and the validator's entry and the
  -- slot's condition have stayed as the callback left them. Then each of
  -- the validator's remote consensus channels is sent one text, BroadcastWaiter of the other node
  -- returns, CompleteBlockSaver of both nodes succeeds, and the database of each gives, at the
  -- node's own index, the block that the validator held. Required: a header that can be framed, a
  -- condition for the slot when the message is handled, and on both nodes a placeholder at an index
  -- below 2 ^ 31.
  pub broadcast_agrees :
      (r t : ℕ) (m : Moment) (later : List Delivery) (v n : Slot redis)
      → v.context.is_validator ≡ true
      → n.context.is_validator ≡ false
      → IsBroadcastOf archive n.context.validator n.context.header.slot (broadcast_header v)
      → Arrives archive laws redis r t m (broadcast_header v) v.context.broadcast_block later n
      → HasPlace v
      → HasPlace n
      → (n' : Slot redis) × ((broadcast archive redis v).node.sent
          ≡ v.node.sent
            ++ sent_to
                (get_remote_of_type ChannelType.consensus v.node.channels)
                (broadcast_text archive (broadcast_header v) v.context.broadcast_block))
        × (wait_for_broadcast archive redis m n ≡ Outcome.done (n', later))
        × Keeps v.context.broadcast_block (broadcast archive redis v)
        × Keeps v.context.broadcast_block n'
  unfolding set_operation
  broadcast_agrees r t m later v n own other header arrives place place' =
      let (storage, taken) =
        wait_for_broadcast_lem archive laws redis r t m (broadcast_header v)
          v.context.broadcast_block later n other header arrives in
      rw (broadcasts v own) (_, refl, taken, saved _ place, saved _ place')
