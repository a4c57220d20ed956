-- ===== src/Core.antt =====
-- core/: transactions and the transaction pool.
pub mod Transaction
pub mod Block
pub mod TxPool
