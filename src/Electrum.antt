-- ===== src/Electrum.antt =====
-- internal/electrum: what the server answers, and to whom it sends.
pub mod StatusCache
pub mod Subscriptions
pub mod Merkle
pub mod Scripthash
pub mod Lookup
mod Runs
