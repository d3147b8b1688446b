-- ===== src/App/Main.antt =====
-- The start of `main` in node/src/App.cpp, with node/src/ConfigurationReader.cpp, and the callbacks
-- that it subscribes to the timer wheel. yaml-cpp is not part of the repository: the parameter `load`
-- gives the fields of the file's document, with nothing for a field that is missing or no text, or
-- no document where the library throws.
pub mod Ticks
use blockchain_messaging_sys.Prelude.{
  ℕ, List, [], ◌∷◌, ◌++◌, Option, none, some, Str, Result, ok, fault, ◌>>=◌,
}
use blockchain_messaging_sys.Itf.{NodeInfo, NodeConfiguration}
use blockchain_messaging_sys.Redis.{Redis}
use blockchain_messaging_sys.Storage.State.{ConsensusStorage, new_storage}
use blockchain_messaging_sys.Slot.TimerWheel.{TimerWheel, new_wheel, subscribe, tick}
use blockchain_messaging_sys.App.Startup.{on_slot_start, on_save}

pub record Document : Type 0 where
  pub name : Option Str
  pub address : Option Str
  pub known_nodes : List (Option Str × Option Str)

-- The loop over `known_nodes`: a missing name or address throws.
read_nodes : List (Option Str × Option Str) → List NodeInfo → Option (List NodeInfo)
read_nodes [] nodes = some nodes
read_nodes ((some name, some address) ∷ more) nodes =
    read_nodes more (nodes ++ record { name = name; address = address } ∷ [])
read_nodes ((some name, none) ∷ more) nodes = none
read_nodes ((none, address) ∷ more) nodes = none

with_nodes : NodeInfo → Option (List NodeInfo) → Option NodeConfiguration
with_nodes self none = none
with_nodes self (some nodes) = some (record { self = self; nodes = nodes })

read_document : Document → Option NodeConfiguration
unfolding read_nodes with_nodes
read_document document = elim document.name [
  | none ↦ none
  | some name ↦ elim document.address [
    | none ↦ none
    | some address ↦
        with_nodes (record { name = name; address = address }) (read_nodes document.known_nodes [])
  ]
]

-- ConfigurationReader::read
unfoldable pub read : (Str → Option Document) → Str → Option NodeConfiguration
unfolding read_document
read load config_path = elim (load config_path) [ none ↦ none | some d ↦ read_document d ]

-- How main ends before it starts anything, or the configuration it goes on with.
pub data Start : Type 0 where
  usage no_configuration : Start
  starts : NodeConfiguration → Start

abbrev exit_code : Start → ℕ
exit_code Start.usage = 1
exit_code Start.no_configuration = 2
exit_code (Start.starts config) = 0

-- The arguments after the program's name; those after the first are not looked at.
unfoldable pub start_of : (Str → Option Document) → List Str → Start
unfolding read
start_of load [] = Start.usage
start_of load (path ∷ more) = elim (read load path) [
  | none ↦ Start.no_configuration
  | some config ↦ Start.starts config
]

-- The three callbacks of main; the second one starts a thread with a SlotHandler.
pub data Callback : Type 0 where
  slot_start handle_slot save : Callback

unfoldable pub main_wheel : TimerWheel Callback
unfolding subscribe
main_wheel =
    let w0 = new_wheel Callback 500 in
    let (w1, _) = subscribe Callback.slot_start w0 in
    let (w2, _) = subscribe Callback.handle_slot w1 in
    let (w3, _) = subscribe Callback.save w2 in w3

-- What the callbacks of a tick write, and the slot handlers that they start.
pub record Ticked (redis : Redis) : Type 0 where
  pub storage : ConsensusStorage
  pub db : redis.Store
  pub started : ℕ

module _ (redis : Redis) where
  unfoldable pub run_callback : ℕ → Callback → Ticked redis → Ticked redis
  unfolding on_slot_start on_save
  run_callback now Callback.slot_start t = record t { storage = on_slot_start now t.storage }
  run_callback now Callback.handle_slot t = record t { started = ℕ.suc t.started }
  run_callback now Callback.save t = record t { db = on_save redis now t.db }

  -- The callbacks of a tick run one after the other, in the timer's thread.
  unfoldable pub run_callbacks : ℕ → List Callback → Ticked redis → Ticked redis
  unfolding run_callback
  run_callbacks now [] t = t
  run_callbacks now (c ∷ cs) t = run_callbacks now cs (run_callback now c t)

  unfoldable pub on_tick : ℕ → Ticked redis → Ticked redis
  unfolding run_callbacks tick main_wheel
  on_tick now t = run_callbacks now (tick main_wheel) t
