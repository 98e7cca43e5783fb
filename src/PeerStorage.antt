-- ===== src/PeerStorage.antt =====
-- pkg/store/raftstore/peer_storage.go: the storage that the raft library reads its log from.
pub mod State
pub mod Log
pub mod Append
pub mod Snapshots
pub mod Ready
