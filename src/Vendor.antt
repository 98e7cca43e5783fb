-- ===== src/Vendor.antt =====
-- What the consensus program takes from third-party packages, as interfaces: the key-value store
-- Pebble, protobuf messages, and the emptiness tests of the etcd raft library.
pub mod Pebble
pub mod Codec
pub mod Reference
