-- ===== src/Io/Connections.antt =====
-- io::ConnectionData and io::ConnectionStore (node/src/io/ConnectionData.cpp, ConnectionStore.cpp):
-- who owns the event loops. libev and the AMQP library are not part of the repository: a loop is
-- the number of its `ev_loop_new`, destroying a null pointer does nothing, and the parameter
-- `accepts` says for which addresses `AMQP::Address` does not throw.
pub mod Loops
use blockchain_messaging_sys.Prelude.{
  ℕ, suc, Bool, List, [], ◌∷◌, ◌++◌, Option, none, some, Str, str_dec, Map, find, Result, ok, fault,
  Fault, if◌then◌else◌, true, false,
}
use blockchain_messaging_sys.Itf.{NodeInfo}

-- What was made with `ev_loop_new`, and what was given to `ev_loop_destroy`.
pub record EventLoops : Type 0 where
  pub created : ℕ
  pub destroyed : List ℕ

-- `none` is the null pointer; `owns` says whether the two unique pointers hold their objects.
pub record ConnectionData : Type 0 where
  pub loop : Option ℕ
  pub owns : Bool
  pub node : Str

-- ConnectionData(nodeInfo): where the address throws, no destructor runs and the loop stays.
unfoldable pub new_connection_data :
    (Str → Bool) → NodeInfo → EventLoops → EventLoops × Option ConnectionData
new_connection_data accepts info l = (
  record l { created = suc l.created },
  if accepts info.address
      then some (record { loop = some l.created; owns = true; node = info.name })
      else none,
)

-- ConnectionData(ConnectionData &&other): the new object, and what is left of `other`
unfoldable pub move_connection_data : ConnectionData → ConnectionData × ConnectionData
move_connection_data other = (other, record { loop = none; owns = false; node = [] })

-- operator=(ConnectionData &&other): this object and the other, after
unfoldable pub assign_connection_data :
    ConnectionData → ConnectionData → ConnectionData × ConnectionData
assign_connection_data own other = (
  record own { loop = other.loop; owns = other.owns; node = other.node },
  record { loop = none; owns = false; node = [] },
)

-- ~ConnectionData()
unfoldable pub destroy_connection_data : ConnectionData → EventLoops → EventLoops
destroy_connection_data c l = elim c.loop [
  | none ↦ l
  | some r ↦ record l { destroyed = r ∷ l.destroyed }
]

pub record ConnectionStore : Type 0 where
  pub connections : Map Str ConnectionData
  pub loops : EventLoops

abbrev pub empty_connection_store : ConnectionStore
empty_connection_store = record { connections = []; loops = record { created = 0; destroyed = [] } }

-- `connections.emplace(std::make_pair(address, std::move(data)))`: the pair's object is moved into
-- a new element, which is destroyed where the address has a connection already.
unfoldable pub emplace_connection : Str → ConnectionData → ConnectionStore → ConnectionStore
unfolding move_connection_data destroy_connection_data find
emplace_connection address c s =
    let (in_pair, left) = move_connection_data c in
    let (in_element, left_in_pair) = move_connection_data in_pair in
    let placed : ConnectionStore = elim (find str_dec address s.connections) [
      | none ↦ record s { connections = s.connections ++ (address, in_element) ∷ [] }
      | some _ ↦ record s { loops = destroy_connection_data in_element s.loops }
    ] in
    record placed {
      loops = destroy_connection_data left (destroy_connection_data left_in_pair placed.loops);
    }

push_made : Str → Option ConnectionData → ConnectionStore → ConnectionStore
unfolding emplace_connection
push_made address none s = s
push_made address (some c) s = emplace_connection address c s

-- ConnectionStore::push: what the constructor throws is logged.
unfoldable pub push_connection : (Str → Bool) → NodeInfo → ConnectionStore → ConnectionStore
unfolding new_connection_data push_made
push_connection accepts info s =
    let (loops, made) = new_connection_data accepts info s.loops in
    push_made info.address made (record s { loops = loops })

-- ConnectionStore::get(address), by `at`
unfoldable pub get_connection : Str → ConnectionStore → Result ConnectionData
unfolding find
get_connection address s = elim (find str_dec address s.connections) [
  | none ↦ fault Fault.out_of_range
  | some c ↦ ok c
]

-- The end of a store: its connections are destroyed.
unfoldable pub destroy_connections : Map Str ConnectionData → EventLoops → EventLoops
unfolding destroy_connection_data
destroy_connections [] l = l
destroy_connections ((_, c) ∷ rest) l = destroy_connections rest (destroy_connection_data c l)
