-- ===== src/App/Consume.antt =====
-- The callback of `localConsensusChannel.consume` in node/src/App.cpp: one branch for each
-- operation. Signalling: the flag of the slot's condition is set; a waiter reads it (`Slot.Wait`).
pub mod Laws
pub mod Delivery
pub mod Uploads
use blockchain_messaging_sys.Prelude.{
  ℕ, Bool, true, false, List, [], ◌∷◌, Option, none, some, Str, Result, ok, fault, Fault, ◌>>=◌,
}
use blockchain_messaging_sys.Itf.{Block}
use blockchain_messaging_sys.Serialization.{Archive, block_class, deserialize}
use blockchain_messaging_sys.Io.Framing.{split}
use blockchain_messaging_sys.Io.Wrappers.{
  ConsensusOperation, ConsensusHeader, ContributionWrapper, ElectionValueWrapper,
  consensus_header_class, contribution_class, election_value_class,
}
use blockchain_messaging_sys.Storage.State.{
  ConsensusStorage, add_context, set_contribution, fill_election_value, add_block, mark_as_resolved,
}
use blockchain_messaging_sys.Storage.Sync.{
  init_conditions, get_slot_synchronization_context, store_synchronized,
}
use blockchain_messaging_sys.Storage.Queries.{
  are_all_contributors_confirmed, are_all_election_values_present,
  is_all_contributors_data_collected,
}

-- `getSlotSynchronizationContext(slot)->isSynchronized.store(true)`, and the look-up of the
-- notification after it.
unfoldable pub signal : ℕ → ConsensusStorage → Result ConsensusStorage
unfolding get_slot_synchronization_context store_synchronized
signal slot s =
    let (s', pointer) = get_slot_synchronization_context slot s in
    store_synchronized pointer true s'

-- The signal is given where the test holds.
unfoldable pub signal_if : ℕ → Result (ConsensusStorage × Bool) → Result ConsensusStorage
unfolding signal
signal_if slot (fault e) = fault e
signal_if slot (ok (s, false)) = ok s
signal_if slot (ok (s, true)) = signal slot s

module _ (archive : Archive) (now : ℕ) (header : ConsensusHeader) (body : Str) where
  -- ConsensusOperation::INSPECTION
  unfoldable pub on_inspection : ConsensusStorage → Result ConsensusStorage
  unfolding deserialize init_conditions add_context set_contribution are_all_contributors_confirmed
      signal_if
  on_inspection s = do
    wrapper ← deserialize archive contribution_class body
    let s1 = init_conditions header.slot s
    let s2 = add_context now header.address header.node header.slot s1
    let s3 = set_contribution now header.address header.slot wrapper.is_contributing s2
    signal_if header.slot (are_all_contributors_confirmed now header.slot s3)

  -- ConsensusOperation::ELECTION
  unfoldable pub on_election : ConsensusStorage → Result ConsensusStorage
  unfolding deserialize fill_election_value are_all_election_values_present signal_if
  on_election s = do
    wrapper ← deserialize archive election_value_class body
    let s1 = fill_election_value now header.address header.slot wrapper.value s
    signal_if header.slot (are_all_election_values_present now header.slot s1)

  -- ConsensusOperation::UPLOADING
  unfoldable pub on_uploading : ConsensusStorage → Result ConsensusStorage
  unfolding deserialize add_block is_all_contributors_data_collected signal_if
  on_uploading s = do
    block ← deserialize archive block_class body
    let s1 = add_block now header.address header.slot block s
    signal_if header.slot (is_all_contributors_data_collected now header.slot s1)

  -- ConsensusOperation::BROADCAST
  unfoldable pub on_broadcast : ConsensusStorage → Result ConsensusStorage
  unfolding deserialize add_block mark_as_resolved signal
  on_broadcast s = do
    block ← deserialize archive block_class body
    let s1 = add_block now header.address header.slot block s
    let s2 = mark_as_resolved now header.address header.slot s1
    signal header.slot s2

-- The branches of the callback.
unfoldable pub on_operation :
    Archive
    → ℕ
    → ConsensusOperation
    → ConsensusHeader
    → Str
    → ConsensusStorage
    → Result ConsensusStorage
unfolding on_inspection on_election on_uploading on_broadcast
on_operation archive now ConsensusOperation.inspection header body =
    on_inspection archive now header body
on_operation archive now ConsensusOperation.election header body =
    on_election archive now header body
on_operation archive now ConsensusOperation.uploading header body =
    on_uploading archive now header body
on_operation archive now ConsensusOperation.broadcast header body =
    on_broadcast archive now header body

-- The callback, of a message's body and the clock reading.
unfoldable pub on_consensus_message : Archive → ℕ → Str → ConsensusStorage → Result ConsensusStorage
unfolding split deserialize on_operation
on_consensus_message archive now message s = do
  (serialized_header, body) ← split message
  header ← deserialize archive consensus_header_class serialized_header
  on_operation archive now header.operation header body s
