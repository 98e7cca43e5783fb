-- ===== src/Storage.antt =====
-- The package pkg/store/storage: the key-value engines and the encoding of snapshots.
pub mod Pair
pub mod Modify
pub mod Engines
pub mod Files
