-- ===== src/Examples/Starts.antt =====
-- A peer that starts on empty databases, ticks, and is started again.
use talent_challenge.Prelude.{◌≡◌, refl, false, none, [], ◌∷◌}
use talent_challenge.Prelude.Outcome.{returns}
use talent_challenge.Prelude.Bytes.{bytes_eq, le_bytes}
use talent_challenge.Vendor.Reference.{list_db, list_db-IsReliable}
use talent_challenge.Storage.Engines.{Engines, read, read_meta, write}
use talent_challenge.Messages.{ConfState}
use talent_challenge.Meta.Key.{raft_conf_state_key}
use talent_challenge.Meta.Value.{
  get_raft_local_state, get_raft_apply_state, get_raft_conf_state, init_raft_local_state,
  init_raft_apply_state, init_raft_conf_state,
}
use talent_challenge.PeerStorage.State.{
  PeerStorage, new_peer_storage, is_empty_conf_state, write_conf_state, put_meta,
}
use talent_challenge.PeerStorage.State.Saved.{reopened}
use talent_challenge.Peer.State.{new_peer}
use talent_challenge.Peer.Ready.{Node}
use talent_challenge.Peer.Ready.Loop.{tick, IsSound}
use talent_challenge.Peer.Compaction.{tick_log_gc}
use talent_challenge.Peer.Start.{
  Raft, Status, raft_config, bootstrap, made_node, conf_state, start_on, start_peer,
}
use talent_challenge.Peer.Start.Begins.{
  empty_log, fresh_storage, IsMade, config_on, IsConfigured, Starts, start_peer-IsSound,
}
use talent_challenge.Peer.Start.Lives.{Lives, starts, steps, start_peer-Lives}
use talent_challenge.Transport.Router.{load_raft_peers}
use talent_challenge.Examples.Codecs.{proto, proto-IsLossless, conf_state_format}
use talent_challenge.Examples.Samples.{Db, etcd}
use talent_challenge.Examples.Transport.{net}

-- Raft as its status: a start takes the peers for voters, a restart what the storage has.
abbrev raft : Raft Db Status
raft = record {
  start_node = λ c ids. record {
    lead = 0;
    term = 1;
    config = record {
      incoming = ids;
      outgoing = [];
      learners = [];
      learners_next = [];
      auto_leave = false;
    };
  };
  restart_node = λ c. record {
    lead = 0;
    term = c.storage.local_state.hard_state.term;
    config = record {
      incoming = c.storage.conf_state.voters;
      outgoing = c.storage.conf_state.voters_outgoing;
      learners = c.storage.conf_state.learners;
      learners_next = c.storage.conf_state.learners_next;
      auto_leave = c.storage.conf_state.auto_leave;
    };
  };
  status = λ r. r;
}

abbrev engines : Engines Db
engines = record { kv = (b'a' ∷ [], b'x' ∷ []) ∷ []; meta = [] }

start_peer-IsSound_example :
    (n : Node Db) × (r : Status) × (start_peer list_db proto raft 1 engines ≡ returns (n, r))
    × (r ≡ raft.start_node (config_on 1 (fresh_storage engines)) (1 ∷ 2 ∷ 3 ∷ []))
    × IsConfigured raft r n.peer.ps
    × IsSound list_db proto n.peer.ps empty_log
    × IsMade 1 empty_log n
    × (new_peer_storage list_db proto n.peer.ps.engines
        ≡ returns (reopened list_db proto n.peer.ps))
    × (n.peer.ps.engines.kv ≡ engines.kv)
unfolding list_db
start_peer-IsSound_example =
    start_peer-IsSound list_db proto list_db-IsReliable proto-IsLossless raft 1 engines refl

abbrev voters : ConfState
voters = record {
  voters = 1 ∷ 2 ∷ 3 ∷ [];
  voters_outgoing = [];
  learners = [];
  learners_next = [];
  auto_leave = false;
}

abbrev begun_storage : PeerStorage Db
begun_storage = record (fresh_storage engines) {
  engines = record engines { meta = (raft_conf_state_key, conf_state_format.print voters []) ∷ [] };
  conf_state = voters;
}

abbrev begun : Node Db
begun = record (made_node 1 (fresh_storage engines)) {
  peer = record (new_peer 1 (fresh_storage engines)) { ps = begun_storage };
}

begun-start_peer :
    start_peer list_db proto raft 1 engines
    ≡ returns (begun, raft.start_node (raft_config 1 (fresh_storage engines)) load_raft_peers)
unfolding start_peer start_on bootstrap conf_state load_raft_peers list_db raft_conf_state_key
    bytes_eq le_bytes new_peer_storage is_empty_conf_state init_raft_local_state
    get_raft_local_state read_meta read init_raft_apply_state get_raft_apply_state
    init_raft_conf_state get_raft_conf_state write_conf_state put_meta write
begun-start_peer = refl

abbrev ticked : Node Db
ticked = record begun { peer = record begun.peer { compaction_elapse = 1 } }

ticks_once : Lives list_db proto etcd net raft 1 (ticked, (0, []), empty_log)
unfolding list_db tick_log_gc made_node new_peer
ticks_once =
    steps (begun, (0, []), empty_log) (ticked, (0, []), empty_log)
      (starts engines begun
        (raft.start_node (raft_config 1 (fresh_storage engines)) load_raft_peers) (0, []) refl
        begun-start_peer)
      (tick 1 none begun ticked.peer (0, []) empty_log refl)

start_peer-Lives_example :
    (n' : Node Db) × (r : Status) × (start_peer list_db proto raft 1 ticked.peer.ps.engines
      ≡ returns (n', r))
    × Starts raft 1 (reopened list_db proto ticked.peer.ps) n'.peer.ps r
    × IsSound list_db proto n'.peer.ps empty_log
    × IsMade 1 empty_log n'
    × (n'.peer.ps.engines.kv ≡ ticked.peer.ps.engines.kv)
start_peer-Lives_example =
    start_peer-Lives list_db proto list_db-IsReliable proto-IsLossless etcd net raft 1 ticked
      (0, []) empty_log ticks_once
