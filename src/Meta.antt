-- ===== src/Meta.antt =====
-- The package pkg/store/raftstore/meta: the keys of the metadata database and what is stored.
pub mod Key
pub mod Value
