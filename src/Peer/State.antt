-- ===== src/Peer/State.antt =====
-- peer.go: the fields of a peer that its handlers of committed entries and of ticks use. Raft
-- itself, the router and the channels are not among them.
use talent_challenge.Prelude.{ℕ, List, []}
use talent_challenge.PeerStorage.State.{PeerStorage, truncate_index}

abbrev pub default_log_gc_count_limit : ℕ
default_log_gc_count_limit = 1000

abbrev pub default_compact_check_period : ℕ
default_compact_check_period = 100

-- `gc_tasks` are the calls of `gcRaftLog` that were started as goroutines and have not run.
pub record Peer (DB : Type 0) : Type 0 where
  pub id : ℕ
  pub ps : PeerStorage DB
  pub compaction_elapse : ℕ
  pub compaction_timeout : ℕ
  pub last_compacted_idx : ℕ
  pub gc_tasks : List (ℕ × ℕ)

-- `newPeer`, on a storage that is open
unfoldable pub new_peer : {DB : Type 0} → ℕ → PeerStorage DB → Peer DB
unfolding truncate_index
new_peer id ps = record {
  id = id;
  ps = ps;
  compaction_elapse = 0;
  compaction_timeout = default_compact_check_period;
  last_compacted_idx = truncate_index ps;
  gc_tasks = [];
}
