-- ===== src/Indexer.antt =====
-- internal/indexer: hashes as the protocol shows them, and the undoing of a block.
pub mod Types
pub mod Wire
pub mod Mempool
pub mod Block
pub mod Rollback
pub mod Reorg
mod Runs
