-- ===== src/Tests/Start.antt =====
-- The connections of a node and the start of `main`.
use blockchain_messaging_sys.Prelude.{
  ◌≡◌, Bool, true, false, List, [], ◌∷◌, ◌++◌, Str, str_dec, Perm, ite, length,
}
use blockchain_messaging_sys.Itf.{NodeInfo}
use blockchain_messaging_sys.Io.Connections.{
  ConnectionStore, empty_connection_store, destroy_connections,
}
use blockchain_messaging_sys.Io.Connections.Loops.{
  push_all, below, refused_loops, connection_loops_lem,
}
use blockchain_messaging_sys.App.Launch.{launch}
use blockchain_messaging_sys.App.Launch.Laws.{Starts, launch_lem}
use blockchain_messaging_sys.Tests.Samples.{first, second, third, configuration}

-- All addresses but the third are well formed.
abbrev well_formed : Str → Bool
well_formed a = ite (str_dec a third) false true

-- The second node twice, and the third.
abbrev listed : List NodeInfo
listed =
    record { name = first; address = first }
    ∷ record { name = second; address = second }
    ∷ record { name = third; address = second }
    ∷ record { name = third; address = third }
    ∷ []

abbrev filled : ConnectionStore
filled = push_all well_formed listed empty_connection_store

connection_loops_lem_example :
    Perm
      (refused_loops well_formed 0 listed
        ++ (destroy_connections filled.connections filled.loops).destroyed)
      (below filled.loops.created)
    × (length listed ≡ filled.loops.created)
connection_loops_lem_example = connection_loops_lem well_formed listed

launch_lem_example : Starts well_formed configuration (launch well_formed configuration)
launch_lem_example = launch_lem well_formed configuration
