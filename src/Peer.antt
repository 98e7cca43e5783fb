-- ===== src/Peer.antt =====
-- pkg/store/raftstore/peer.go: the peer that drives raft and applies what is committed.
pub mod Commands
pub mod Start
pub mod State
pub mod Apply
pub mod Compaction
pub mod Reading
pub mod Ready
