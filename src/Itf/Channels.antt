-- ===== src/Itf/Channels.antt =====
-- common/Channel.hpp and common/ChannelStore.hpp: the names of the queues of clients and nodes.
use blockchain_messaging_sys.Prelude.{List, [], ◌∷◌, ◌++◌, Str, codes}

pub record Channel : Type 0 where
  pub type : Str
  pub channel_name : Str

-- Channel::toString
unfoldable pub to_string : Channel → Str
to_string c =
    codes "channelType " ++ (c.type ++ (codes " channelName " ++ (c.channel_name ++ 10 ∷ [])))

-- ClientChannel(channelName)
unfoldable pub new_client_channel : Str → Channel
new_client_channel channel_name = record {
  type = codes "client";
  channel_name = channel_name ++ codes "_ClientChannel";
}

-- NodeControlChannel(channelName)
unfoldable pub node_control_channel : Str → Channel
node_control_channel channel_name = record {
  type = codes "NodeControl";
  channel_name = channel_name ++ codes "_ControlChannel";
}

-- ChannelStore: its channels; getChannels gives them out.
pub record ChannelStore : Type 0 where
  pub channels : List Channel

-- ChannelStore::addChannel
unfoldable pub add_channel : Channel → ChannelStore → ChannelStore
add_channel channel s = record { channels = s.channels ++ channel ∷ [] }

-- ChannelStore::getChannels
unfoldable pub get_channels : ChannelStore → List Channel
get_channels s = s.channels
