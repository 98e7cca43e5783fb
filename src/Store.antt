-- ===== src/Store.antt =====
-- The package pkg/store: the two stores behind the interface `Store`.
pub mod Memory
pub mod Raft
pub mod Agrees
