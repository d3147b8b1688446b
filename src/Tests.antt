-- ===== src/Tests.antt =====
-- Concrete runs: each theorem about the programs applied to values that satisfy its conditions.
pub mod Samples
mod Storage
mod Flow
mod Slots
mod Threads
mod Clients
mod Runs
mod Start
mod Messages
