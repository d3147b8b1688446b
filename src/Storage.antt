-- ===== src/Storage.antt =====
-- db::ConsensusStorage (node/src/db/ConsensusStorage.{hpp,cpp} and ConsensusContext.hpp), one child
-- for each group of methods. The lock makes each method one step on the state.
pub mod State
pub mod View
pub mod Sync
pub mod Queries
pub mod Election
pub mod Merge
