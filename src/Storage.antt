-- ===== src/Storage.antt =====
-- internal/storage: the keys, the values and the undo records of the database.
pub mod Keys
pub mod Values
pub mod Undo
pub mod Pebble
pub mod Database
mod Runs
