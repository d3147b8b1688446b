-- ===== src/Tests/Messages.antt =====
-- The messages of an election and of an upload.
use blockchain_messaging_sys.Prelude.{
  ℕ, Str, ◌≡◌, ◌≢◌, ◌⊎◌, refl, true, false, [], ◌∷◌, some, ok, arith, find, ℕ_discrete, str_dec,
}
use blockchain_messaging_sys.Serialization.{serialize}
use blockchain_messaging_sys.Serialization.Samples.{encode, sample_archive, sample_archive-laws}
use blockchain_messaging_sys.Io.Framing.{find_text}
use blockchain_messaging_sys.Io.Channels.{ChannelType, get_remote, get_remote_of_type}
use blockchain_messaging_sys.Io.Channels.Queues.{sent_to}
use blockchain_messaging_sys.Io.Wrappers.{write_consensus_header, ConsensusOperation}
use blockchain_messaging_sys.Redis.Samples.{sample_redis}
use blockchain_messaging_sys.Storage.State.{ConsensusStorage, entry, entry_at}
use blockchain_messaging_sys.Storage.Sync.{load_synchronized}
use blockchain_messaging_sys.Storage.Sync.Laws.{HasCondition}
use blockchain_messaging_sys.Storage.Queries.Laws.{EveryEntry, HasValue, IsConfirmed, IsCollected}
use blockchain_messaging_sys.Storage.Election.{get_validator}
use blockchain_messaging_sys.App.Consume.{on_consensus_message}
use blockchain_messaging_sys.App.Consume.Laws.{ChangesEntry}
use blockchain_messaging_sys.App.Consume.Delivery.{IsFramable}
use blockchain_messaging_sys.App.Startup.Laws.{IsKnown}
use blockchain_messaging_sys.Slot.State.{Slot}
use blockchain_messaging_sys.Slot.Steps.{notify_election, transfer}
use blockchain_messaging_sys.Slot.Handler.Messages.{
  value_text, block_text, value_reaches, block_reaches,
}
use blockchain_messaging_sys.Tests.Samples.{
  first, second, voted, marked, sample_block, storage_of, header_of, slot_of, one_block,
  remote_channel,
}

election-IsFramable : IsFramable sample_archive (header_of ConsensusOperation.election)
unfolding find_text serialize encode write_consensus_header
election-IsFramable = (refl, omega arith)

uploading-IsFramable : IsFramable sample_archive (header_of ConsensusOperation.uploading)
unfolding find_text serialize encode write_consensus_header
uploading-IsFramable = (refl, omega arith)

voted-HasCondition : HasCondition 0 2 (storage_of voted)
unfolding find ℕ_discrete
voted-HasCondition = (refl, omega arith)

abbrev voter : Slot sample_redis
voter = slot_of false voted one_block

value_reaches_example :
    (t' : ConsensusStorage) × ((notify_election sample_archive sample_redis 5 7 voter).node.sent
      ≡ sent_to
          (get_remote_of_type ChannelType.consensus voter.node.channels)
          (value_text sample_archive sample_archive-laws sample_redis 7 voter))
    × ((entry_at 5 first 2
          (notify_election sample_archive sample_redis 5 7
            voter).node.storage.contexts).election_value
        ≡ 7)
    × ((a : Str) (q : ℕ)
        → (a ≢ first) ⊎ (q ≢ 2)
        → entry_at 5 a q
            (notify_election sample_archive sample_redis 5 7 voter).node.storage.contexts
          ≡ entry_at 5 a q voter.node.storage.contexts)
    × (on_consensus_message sample_archive 5
          (value_text sample_archive sample_archive-laws sample_redis 7 voter)
          (storage_of voted)
        ≡ ok t')
    × ChangesEntry 5
        (header_of ConsensusOperation.election)
        (λ c. record c { election_value = 7 })
        (storage_of voted)
        t'
    × ((load_synchronized (some 0) t' ≡ ok true) ⊎ (¬ EveryEntry HasValue 5 2 t'.contexts))
value_reaches_example =
    value_reaches sample_archive sample_archive-laws sample_redis 5 5 7 0 voter (storage_of voted)
      election-IsFramable voted-HasCondition

-- A contributor, at which the second node is marked as the validator.
abbrev contributor : Slot sample_redis
contributor = record (slot_of false marked one_block) {
  context = record ((slot_of false marked one_block).context) {
    contribution_wrapper = record { is_contributing = true };
  };
}

marked-second : get_validator 5 2 (storage_of marked) ≡ ok (storage_of marked, second)
unfolding get_validator ℕ_discrete
marked-second = refl

second-other : second ≢ first
second-other e = ground arith

to_second : get_remote second contributor.node.channels ≡ ok remote_channel
unfolding get_remote str_dec
to_second = refl

second-IsKnown : IsKnown voted second
unfolding find str_dec
second-IsKnown e = cc

all-IsConfirmed : EveryEntry IsConfirmed 5 2 voted
unfolding entry ℕ_discrete
all-IsConfirmed = ((λ e. cc), ((λ e. cc), ((λ e. cc), tt)))

block_reaches_example :
    (s' : Slot sample_redis) × (t' : ConsensusStorage) × (transfer sample_archive sample_redis 5
        contributor
      ≡ ok s')
    × (s'.node.sent
        ≡ (
          remote_channel.queue,
          block_text sample_archive sample_archive-laws sample_redis contributor,
        )
          ∷ [])
    × (s'.context.validator ≡ second)
    × (s'.context.is_validator ≡ false)
    × (on_consensus_message sample_archive 5
          (block_text sample_archive sample_archive-laws sample_redis contributor)
          (storage_of voted)
        ≡ ok t')
    × ChangesEntry 5
        (header_of ConsensusOperation.uploading)
        (λ c. record c { block = sample_block [] })
        (storage_of voted)
        t'
    × ((load_synchronized (some 0) t' ≡ ok true) ⊎ (¬ EveryEntry IsCollected 5 2 t'.contexts))
block_reaches_example =
    block_reaches sample_archive sample_archive-laws sample_redis 5 5 0 second remote_channel
      contributor (storage_of marked) (storage_of voted) marked-second second-other refl to_second
      uploading-IsFramable voted-HasCondition second-IsKnown all-IsConfirmed
