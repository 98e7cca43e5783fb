-- ===== src/Transport.antt =====
-- store/raftstore/router.go, raft_conn and the part of peer.go that hands received messages to
-- raft: how raft's messages go from one peer to another.
pub mod Client
pub mod Router
