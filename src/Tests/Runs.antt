-- ===== src/Tests/Runs.antt =====
-- Whole slots: the handlers of a node that has no peers, run to the end.
use blockchain_messaging_sys.Prelude.{ℕ, zero, suc, ◌≡◌, refl, List, [], ◌∷◌, codes}
use blockchain_messaging_sys.Itf.{Message, NodeConfiguration}
use blockchain_messaging_sys.Buffer.{empty_buffer}
use blockchain_messaging_sys.Serialization.{write_block, read_block}
use blockchain_messaging_sys.Serialization.Samples.{encode, sample_archive}
use blockchain_messaging_sys.Redis.Samples.{sample_redis}
use blockchain_messaging_sys.Storage.State.{ConsensusStorage}
use blockchain_messaging_sys.App.Startup.{on_slot_start}
use blockchain_messaging_sys.Slot.State.{Slot, Outcome, Moment, new_context}
use blockchain_messaging_sys.Slot.Handler.{handle}
use blockchain_messaging_sys.Tests.Samples.{first, message_at, two_clients, one_block}

abbrev alone : NodeConfiguration
alone = record { self = record { name = codes "one"; address = first }; nodes = [] }

abbrev storage_alone : ConsensusStorage
unfolding on_slot_start
storage_alone =
    on_slot_start 1000
      (record { node_configuration = alone; contexts = []; conditions = []; synchronizations = [] })

abbrev slot_alone : List Message → Slot sample_redis
unfolding new_context
slot_alone messages = record {
  context = new_context 1000 alone;
  node = record {
    storage = storage_alone;
    db = one_block;
    buffer = record (empty_buffer) { messages = messages };
    consumer = two_clients;
    channels = record { local_channels = []; remote_channels = [] };
    sent = [];
  };
}

abbrev times : ℕ → List Moment
times zero = []
times (suc n) = record { now = 1000; draws = 7 ∷ []; deliveries = [] } ∷ times n

-- A slot in which a client has written: every handler runs.
abbrev written : Slot sample_redis
written = slot_alone (message_at 3 ∷ [])

abbrev ended : Outcome (Slot sample_redis) → Slot sample_redis
ended (Outcome.done s') = s'
ended Outcome.blocked = written
ended (Outcome.failed e) = written

abbrev after_written : Slot sample_redis
unfolding handle on_slot_start
after_written = ended (handle sample_archive sample_redis (times 13) written)

-- Of a slot in which no client has written, nothing is left: the third handler is the last.
abbrev after_silence : Slot sample_redis
unfolding handle on_slot_start
after_silence = ended (handle sample_archive sample_redis (times 4) (slot_alone []))

silent-done :
    (handle sample_archive sample_redis (times 4) (slot_alone []) ≡ Outcome.done after_silence)
    × (after_silence.node.db ≡ one_block)
unfolding handle on_slot_start slot_alone encode write_block read_block
silent-done = (refl, refl)
