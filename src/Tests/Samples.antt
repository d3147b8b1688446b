-- ===== src/Tests/Samples.antt =====
-- Three nodes, their entries of one slot, messages, and the parts of a node.
use blockchain_messaging_sys.Prelude.{ℕ, Bool, true, false, List, [], ◌∷◌, Option, some, Str, codes}
use blockchain_messaging_sys.Itf.{Message, Block, BlockState, NodeConfiguration}
use blockchain_messaging_sys.Buffer.{empty_buffer}
use blockchain_messaging_sys.Consumer.{Consumer}
use blockchain_messaging_sys.Io.Channels.{Channel, ChannelType}
use blockchain_messaging_sys.Io.Wrappers.{ConsensusHeader, ConsensusOperation}
use blockchain_messaging_sys.Serialization.{block_class, serialize}
use blockchain_messaging_sys.Serialization.Samples.{sample_archive}
use blockchain_messaging_sys.Redis.Samples.{sample_redis}
use blockchain_messaging_sys.Storage.State.{ConsensusContext, ConsensusStorage, Contexts, Row}
use blockchain_messaging_sys.Slot.State.{Slot}

abbrev pub first : Str
first = codes "A"

abbrev pub second : Str
second = codes "B"

abbrev pub third : Str
third = codes "C"

abbrev pub message_at : ℕ → Message
message_at t = record { timestamp = t; body = codes "hi"; author = codes "me" }

abbrev pub sample_block : List Message → Block
sample_block messages = record {
  state = BlockState.pending;
  timestamp = 1000;
  slot = 2;
  messages = messages;
}

abbrev pub context_of : Str → Option Bool → Bool → ℕ → List Message → ConsensusContext
context_of node contributing validator election_value messages = record {
  node = node;
  address = [];
  slot = 0;
  is_contributing = contributing;
  is_validator = validator;
  election_value = election_value;
  block = sample_block messages;
  is_resolved = false;
}

-- Slot 2: all nodes have declared and sent a value, and the sum of the values is odd.
abbrev pub row_of : Option Bool → Bool → ℕ → List Message → Row
row_of contributing validator election_value messages =
    (2, context_of (codes "n") contributing validator election_value messages) ∷ []

abbrev pub voted : Contexts
voted =
    (first, row_of (some true) false 4 (message_at 9 ∷ []))
    ∷ (second, row_of (some true) false 8 (message_at 3 ∷ []))
    ∷ (third, row_of (some false) false 1 [])
    ∷ []

abbrev pub voted_elsewhere : Contexts
voted_elsewhere =
    (second, row_of (some true) false 8 (message_at 3 ∷ []))
    ∷ (first, row_of (some true) false 4 (message_at 9 ∷ []))
    ∷ (third, row_of (some false) false 1 [])
    ∷ []

-- The second node is marked as the validator.
abbrev pub marked : Contexts
marked =
    (first, row_of (some true) false 4 (message_at 9 ∷ []))
    ∷ (second, row_of (some true) true 8 (message_at 3 ∷ []))
    ∷ (third, row_of (some false) false 1 [])
    ∷ []

-- The first node's value is odd and lower than the value that the other two share.
abbrev pub tied : Contexts
tied =
    (first, row_of (some true) false 3 [])
    ∷ (second, row_of (some true) false 6 [])
    ∷ (third, row_of (some true) false 6 [])
    ∷ []

abbrev pub configuration : NodeConfiguration
configuration = record {
  self = record { name = codes "one"; address = first };
  nodes = record { name = codes "two"; address = second } ∷ [];
}

-- The slot has the condition at place 0.
abbrev pub storage_of : Contexts → ConsensusStorage
storage_of contexts = record {
  node_configuration = configuration;
  contexts = contexts;
  conditions = (2, some 0) ∷ [];
  synchronizations = record { is_synchronized = false } ∷ [];
}

abbrev pub header_of : ConsensusOperation → ConsensusHeader
header_of operation = record {
  operation = operation;
  node = codes "two";
  address = second;
  timestamp = 1000;
  slot = 2;
}

abbrev pub two_clients : Consumer
two_clients = record {
  client_names = codes "bob" ∷ codes "eve" ∷ [];
  declarations = [];
  consumed = [];
}

abbrev pub remote_channel : Channel
remote_channel = record { type = ChannelType.consensus; node = codes "two"; queue = codes "two_4" }

-- A slot at work, of a node that knows the placeholder at index 0.
abbrev pub slot_of : Bool → Contexts → List Str → Slot sample_redis
slot_of is_validator contexts db = record {
  context = record {
    node_configuration = configuration;
    contribution_wrapper = record { is_contributing = false };
    header = header_of ConsensusOperation.inspection;
    serialized_header = [];
    block_index = 0;
    block = sample_block [];
    broadcast_block = sample_block (message_at 3 ∷ []);
    should_call_next_handler = true;
    validator = second;
    is_validator = is_validator;
  };
  node = record {
    storage = storage_of contexts;
    db = db;
    buffer = empty_buffer;
    consumer = two_clients;
    channels = record { local_channels = []; remote_channels = (second, remote_channel) ∷ [] };
    sent = [];
  };
}

-- A database that holds one block.
abbrev pub one_block : List Str
one_block = serialize sample_archive block_class (sample_block []) ∷ []
