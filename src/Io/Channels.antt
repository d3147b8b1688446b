-- ===== src/Io/Channels.antt =====
-- io::Channel and io::ChannelStore (node/src/io/Channel.cpp, ChannelStore.cpp, ChannelType.hpp).
-- A channel is what the program sees of it; a publication is a queue and a text.
pub mod Queues
use blockchain_messaging_sys.Prelude.{
  ℕ, ◌+◌, Bool, true, false, List, [], ◌∷◌, ◌++◌, Option, none, some, Str, str_dec, codes, Map,
  find, emplace, Result, ok, fault, Fault, if◌then◌else◌,
}
use blockchain_messaging_sys.Itf.{NodeInfo}

pub data ChannelType : Type 0 where
  node client blockchain control consensus : ChannelType

-- The numbers of the enumerators.
unfoldable pub type_number : ChannelType → ℕ
type_number ChannelType.node = 0
type_number ChannelType.client = 1
type_number ChannelType.blockchain = 2
type_number ChannelType.control = 3
type_number ChannelType.consensus = 4

pub record Channel : Type 0 where
  pub type : ChannelType
  pub node : Str
  pub queue : Str

-- `node + "_" + std::to_string(type)`: the number has one digit.
unfoldable pub queue_name : Str → ChannelType → Str
unfolding type_number
queue_name name type = name ++ codes "_" ++ (b'0' + type_number type) ∷ []

-- Channel(connectionData, type), of the node's name in the connection data
unfoldable pub new_channel : Str → ChannelType → Channel
unfolding queue_name
new_channel name type = record { type = type; node = name; queue = queue_name name type }

-- ConsensusChannel(connectionData)
unfoldable pub consensus_channel : Str → Channel
unfolding new_channel
consensus_channel name = new_channel name ChannelType.consensus

abbrev pub Publication : Type 0
Publication = Str × Str

-- Channel::publish
unfoldable pub publish : Channel → Str → List Publication → List Publication
publish channel message sent = sent ++ (channel.queue, message) ∷ []

-- Channel::consume, of whether a handler is given: the queues that are consumed. Without a handler it
-- only logs.
unfoldable pub consume : Bool → Channel → List Str → List Str
consume true channel consumed = consumed ++ channel.queue ∷ []
consume false channel consumed = consumed

-- The loop over a list of channels.
unfoldable pub publish_to : List Channel → Str → List Publication → List Publication
unfolding publish
publish_to [] message sent = sent
publish_to (c ∷ cs) message sent = publish_to cs message (publish c message sent)

pub record ChannelStore : Type 0 where
  pub local_channels : Map Str Channel
  pub remote_channels : Map Str Channel

abbrev pub empty_channel_store : ChannelStore
empty_channel_store = record { local_channels = []; remote_channels = [] }

unfoldable pub push_local : Str → Channel → ChannelStore → ChannelStore
unfolding emplace
push_local address channel s = record s {
  local_channels = emplace str_dec address channel s.local_channels;
}

unfoldable pub push_remote : Str → Channel → ChannelStore → ChannelStore
unfolding emplace
push_remote address channel s = record s {
  remote_channels = emplace str_dec address channel s.remote_channels;
}

-- `map.at(address)`
unfoldable pub channel_at : Option Channel → Result Channel
channel_at none = fault Fault.out_of_range
channel_at (some c) = ok c

unfoldable pub get_local : Str → ChannelStore → Result Channel
unfolding find channel_at
get_local address s = channel_at (find str_dec address s.local_channels)

-- getRemote(address)
unfoldable pub get_remote : Str → ChannelStore → Result Channel
unfolding find channel_at
get_remote address s = channel_at (find str_dec address s.remote_channels)

same_type : ChannelType → ChannelType → Bool
same_type ChannelType.node ChannelType.node = true
same_type ChannelType.client ChannelType.client = true
same_type ChannelType.blockchain ChannelType.blockchain = true
same_type ChannelType.control ChannelType.control = true
same_type ChannelType.consensus ChannelType.consensus = true
same_type _ _ = false

unfoldable pub channels_of : ChannelType → Map Str Channel → List Channel
unfolding same_type
channels_of type [] = []
channels_of type ((_, c) ∷ rest) =
    let others = channels_of type rest in if same_type c.type type then c ∷ others else others

-- getRemote(channelType)
unfoldable pub get_remote_of_type : ChannelType → ChannelStore → List Channel
unfolding channels_of
get_remote_of_type type s = channels_of type s.remote_channels
