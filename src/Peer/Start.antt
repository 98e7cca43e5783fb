-- ===== src/Peer/Start.antt =====
-- peer.go and raftstore.go: making a peer and handing its storage to raft, which starts anew or
-- restarts. Raft is a parameter; the goroutines that `run` starts are not started here.
pub mod Begins
pub mod Lives
use talent_challenge.Prelude.{
  ℕ, Bool, true, false, ◌^◌, Option, none, some, List, [], String, ◌*◌, ◌==◌,
}
use talent_challenge.Prelude.Outcome.{Outcome, returns, ◌>>=◌}
use talent_challenge.Vendor.Pebble.{Pebble}
use talent_challenge.Storage.Engines.{Engines}
use talent_challenge.Messages.{ConfState, Proto}
use talent_challenge.PeerStorage.State.{
  PeerStorage, applied_index, is_empty_conf_state, new_peer_storage, write_conf_state,
}
use talent_challenge.Peer.State.{new_peer}
use talent_challenge.Peer.Ready.{Node}
use talent_challenge.Transport.Router.{peer_addr, new_router, load_raft_peers}

-- `raft.Config`, the fields that are set
pub record RaftConfig (DB : Type 0) : Type 0 where
  pub id : ℕ
  pub election_tick : ℕ
  pub heartbeat_tick : ℕ
  pub storage : PeerStorage DB
  pub applied : ℕ
  pub max_size_per_msg : ℕ
  pub max_uncommitted_entries_size : ℕ
  pub max_inflight_msgs : ℕ
  pub pre_vote : Bool

-- `tracker.Config`; a set of ids is the list that its method `Slice` gives.
pub record TrackerConfig : Type 0 where
  pub incoming : List ℕ
  pub outgoing : List ℕ
  pub learners : List ℕ
  pub learners_next : List ℕ
  pub auto_leave : Bool

-- `raft.Status`, the fields that are read
pub record Status : Type 0 where
  pub lead : ℕ
  pub term : ℕ
  pub config : TrackerConfig

-- Raft's nodes and the calls that make one; a `raft.Peer` is its id.
pub record Raft (DB R : Type 0) : Type 0 where
  pub start_node : RaftConfig DB → List ℕ → R
  pub restart_node : RaftConfig DB → R
  pub status : R → Status

-- The address of an id that the map does not have is the empty string.
abbrev pub addr_of : ℕ → String
addr_of id = elim (peer_addr id) [ none ↦ "" | some addr ↦ addr ]

unfoldable pub raft_config : {DB : Type 0} → ℕ → PeerStorage DB → RaftConfig DB
unfolding applied_index
raft_config id ps = record {
  id = id;
  election_tick = 10;
  heartbeat_tick = 1;
  storage = ps;
  applied = applied_index ps;
  max_size_per_msg = 1024 * 1024;
  max_uncommitted_entries_size = 2 ^ 30;
  max_inflight_msgs = 256;
  pre_vote = true;
}

unfoldable pub bootstrap : {DB : Type 0} → PeerStorage DB → Bool
unfolding is_empty_conf_state
bootstrap ps = is_empty_conf_state ps.conf_state

-- `pr`, before raft is there
unfoldable pub made_node : {DB : Type 0} → ℕ → PeerStorage DB → Node DB
unfolding new_peer new_router
made_node id ps = record {
  peer = new_peer id ps;
  reads = record { readc = []; read_state_table = [] };
  read_state_coming = Bool.false;
  router = new_router (addr_of id);
}

module _ {DB R : Type 0} (raft : Raft DB R) where
  unfoldable pub conf_state : R → ConfState
  conf_state r =
      let c = (raft.status r).config in
      record {
        voters = c.incoming;
        voters_outgoing = c.outgoing;
        learners = c.learners;
        learners_next = c.learners_next;
        auto_leave = c.auto_leave;
      }

  unfoldable pub term : R → ℕ
  term r = (raft.status r).term

  unfoldable pub is_leader : R → ℕ → Bool
  is_leader r id = (raft.status r).lead == id

module _ {DB R : Type 0} (p : Pebble DB) (pb : Proto) (raft : Raft DB R) where
  -- `newPeer` on a storage that is open; the error of `writeConfState` is dropped.
  unfoldable pub start_on : ℕ → PeerStorage DB → Outcome (Node DB × R)
  unfolding raft_config bootstrap made_node conf_state load_raft_peers
  start_on id ps =
      let r = raft.start_node (raft_config id ps) load_raft_peers in
      elim (bootstrap ps) [
        | true ↦ (do
          written ← write_conf_state p pb (record ps { conf_state = conf_state raft r })
          returns
              (record (made_node id ps) { peer = record (new_peer id ps) { ps = written.1 } }, r))
        | false ↦ returns (made_node id ps, raft.restart_node (raft_config id ps))
      ]

  -- `newPeer`, and so `NewRaftStore`, on engines that are open
  unfoldable pub start_peer : ℕ → Engines DB → Outcome (Node DB × R)
  unfolding new_peer_storage start_on
  start_peer id engines = do ps ← new_peer_storage p pb engines; start_on id ps
