-- ===== src/App/Startup.antt =====
-- What `main` of node/src/App.cpp sets up: the callbacks that the timer makes at the start of each
-- slot, and the channels of the node. A clock reading `now` serves a whole callback.
pub mod Laws
use blockchain_messaging_sys.Prelude.{
  ℕ, ◌%◌, Bool, List, [], ◌∷◌, ◌==◌, Str, Result, ok, fault, ◌>>=◌, if◌then◌else◌,
}
use blockchain_messaging_sys.Itf.{NodeInfo, NodeConfiguration, get_slot}
use blockchain_messaging_sys.Io.Channels.{
  ChannelStore, consensus_channel, push_local, push_remote, empty_channel_store,
}
use blockchain_messaging_sys.Io.Connections.{
  ConnectionStore, empty_connection_store, push_connection, get_connection,
}
use blockchain_messaging_sys.Redis.{Redis}
use blockchain_messaging_sys.Storage.State.{ConsensusStorage, init_contexts}
use blockchain_messaging_sys.Storage.Sync.{init_conditions}

-- The first callback: the slot's condition and contexts.
unfoldable pub on_slot_start : ℕ → ConsensusStorage → ConsensusStorage
unfolding get_slot init_conditions init_contexts
on_slot_start now s = let slot = get_slot now in init_contexts now slot (init_conditions slot s)

-- The third callback: each 120th slot saves the database.
unfoldable pub on_save : (redis : Redis) → ℕ → redis.Store → redis.Store
unfolding get_slot
on_save redis now db = if get_slot now % 120 == 0 then redis.save db else db

-- The loop over the other nodes; `accepts` as in `Io.Connections`.
unfoldable pub connect_remote :
    (Str → Bool)
    → List NodeInfo
    → ConnectionStore
    → ChannelStore
    → Result (ConnectionStore × ChannelStore)
unfolding push_connection get_connection consensus_channel push_remote
connect_remote accepts [] connections channels = ok (connections, channels)
connect_remote accepts (node ∷ nodes) connections channels =
    let connections' = push_connection accepts node connections in
    get_connection node.address connections' >>= λ connection.
    connect_remote accepts nodes connections'
      (push_remote node.address (consensus_channel connection.node) channels)

-- The channels of the node itself and of the others.
unfoldable pub connect : (Str → Bool) → NodeConfiguration → Result (ConnectionStore × ChannelStore)
unfolding push_connection get_connection consensus_channel push_local connect_remote
connect accepts config =
    let connections = push_connection accepts config.self empty_connection_store in
    get_connection config.self.address connections >>= λ connection.
    connect_remote accepts config.nodes connections
      (push_local config.self.address (consensus_channel connection.node) empty_channel_store)
