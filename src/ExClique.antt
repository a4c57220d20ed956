-- ===== src/ExClique.antt =====
-- consensus_shard/exclique/: the ExClique node and its parts.
pub mod Filter
pub mod Order
pub mod Delay
pub mod Node
mod Examples
