-- ===== src/Pbft.antt =====
-- consensus_shard/pbft_all/: the PBFT state machine of a consensus node.
pub mod Votes
pub mod Node
pub mod Handlers
pub mod Quorum
pub mod CatchUp
pub mod ViewChange
pub mod Rounds
