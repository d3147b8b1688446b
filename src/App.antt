-- ===== src/App.antt =====
-- node/src/App.cpp: what `main` sets up. `App.Consume` is the handler of the node's consensus
-- queue; `App.Startup` has the channels and the callbacks of the timer, `App.Main` the
-- configuration and the timer wheel of `main`, `App.Launch` the rest of it, up to the threads that
-- it starts. What the event loops do and logging are not modelled.
pub mod Consume
pub mod Startup
pub mod Main
pub mod Launch
