-- ===== src/App/Launch.antt =====
-- `main` of node/src/App.cpp from the configuration on: its consumer, connections and channels, and what runs
-- when the last line is reached. The threads of the event loops, of the timer and of the consumer
-- are detached; the loop of the node's own connection runs in the main thread.
pub mod Connects
pub mod Laws
use blockchain_messaging_sys.Prelude.{
  Bool, true, List, [], ◌∷◌, ◌++◌, map, Str, str_dec, Map, ite, Result, ok, ◌>>=◌,
}
use blockchain_messaging_sys.Itf.{NodeConfiguration}
use blockchain_messaging_sys.Consumer.{Consumer, new_consumer}
use blockchain_messaging_sys.Io.Channels.{ChannelStore, consensus_channel, consume}
use blockchain_messaging_sys.Io.Connections.{ConnectionData, ConnectionStore, get_connection}
use blockchain_messaging_sys.Slot.TimerWheel.{TimerWheel}
use blockchain_messaging_sys.App.Startup.{connect}
use blockchain_messaging_sys.App.Main.{Callback, main_wheel}

pub data Task : Type 0 where
  event_loop : Str → Task
  slot_timer consumer_run : Task

pub record Launched : Type 0 where
  pub consumer : Consumer
  pub connections : ConnectionStore
  pub channels : ChannelStore
  pub consumed : List Str
  pub timer_wheel : TimerWheel Callback
  pub threads : List Task
  pub main_thread : Task

-- The loop over the connections, which skips the node's own.
unfoldable pub other_loops : Str → Map Str ConnectionData → List Str
other_loops own [] = []
other_loops own ((address, _) ∷ rest) =
    let others = other_loops own rest in ite (str_dec own address) others (address ∷ others)

unfoldable pub launch : (Str → Bool) → NodeConfiguration → Result Launched
unfolding new_consumer connect get_connection consensus_channel consume main_wheel other_loops
launch accepts config = do
  let own = config.self.address
  consumer ← new_consumer accepts config
  (connections, channels) ← connect accepts config
  connection ← get_connection own connections
  ok (record {
    consumer = consumer;
    connections = connections;
    channels = channels;
    consumed = consume true (consensus_channel connection.node) [];
    timer_wheel = main_wheel;
    threads =
        map Task.event_loop (other_loops own connections.connections)
        ++ Task.slot_timer ∷ Task.consumer_run ∷ [];
    main_thread = Task.event_loop own;
  })
