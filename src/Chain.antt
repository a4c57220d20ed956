-- ===== src/Chain.antt =====
-- chain/blockchain.go: the chain of a shard's node.
pub mod State
pub mod Exec
pub mod Blocks
mod Examples
