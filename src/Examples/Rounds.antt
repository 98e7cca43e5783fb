-- ===== src/Examples/Rounds.antt =====
-- Rounds of the peer's loop: a Ready with entries and commands, ticks, and a log that is long enough
-- for a compaction.
use talent_challenge.Prelude.{
  ℕ, zero, suc, ◌+◌, ◌≡◌, refl, inr, false, Option, none, List, [], ◌∷◌, arith,
}
use talent_challenge.Prelude.Outcome.{returns, ok}
use talent_challenge.Prelude.Bytes.{Bytes}
use talent_challenge.Vendor.Reference.{list_db, list_db-IsReliable}
use talent_challenge.Storage.Engines.{read_kv}
use talent_challenge.Messages.{Entry, RaftCmdRequest, empty_conf_state}
use talent_challenge.PeerStorage.State.{PeerStorage, new_peer_storage}
use talent_challenge.PeerStorage.State.Saved.{IsSaved, reopened}
use talent_challenge.PeerStorage.Append.{last_entry}
use talent_challenge.PeerStorage.Append.Refines.{truncate_and_append-Represents}
use talent_challenge.PeerStorage.Log.Spec.{
  Log, last_of, spec_term, Represents, Consecutive, IsBatch, spec_append,
}
use talent_challenge.PeerStorage.Ready.Steps.{IsReady, installed_read, installed_index}
use talent_challenge.Peer.Commands.{new_put_cmd_request, new_compact_cmd_request}
use talent_challenge.Peer.State.{Peer}
use talent_challenge.Peer.Apply.Machine.{Command, request_of, spec_reads, last_applied}
use talent_challenge.Peer.Apply.Logged.{spec_cuts}
use talent_challenge.Peer.Compaction.{tick_log_gc}
use talent_challenge.Peer.Compaction.Due.{ticks, ticks-proposes}
use talent_challenge.Peer.Reading.{put_states}
use talent_challenge.Peer.Ready.{RaftReady, Node, handle_ready}
use talent_challenge.Peer.Ready.Handled.{stored_log, handle_ready-Represents}
use talent_challenge.Peer.Ready.Loop.{IsHandedOver, here, there, tick, IsSound, Reach-IsSound}
use talent_challenge.Transport.Router.{new_router, send_raft_msgs}
use talent_challenge.Examples.Codecs.{proto, proto-IsLossless}
use talent_challenge.Examples.Samples.{
  Db, entry, ps, log, ps-Represents, ps-IsSaved, etcd, carrying,
}
use talent_challenge.Examples.Transport.{Net, net}

-- A peer that has just been made, three ticks short of a check
abbrev peer : Peer Db
peer = record {
  id = 1;
  ps = ps;
  compaction_elapse = 97;
  compaction_timeout = 100;
  last_compacted_idx = 3;
  gc_tasks = [];
}

abbrev node : Node Db
node = record {
  peer = peer;
  reads = record { readc = []; read_state_table = [] };
  read_state_coming = false;
  router = new_router "127.0.0.1:6060";
}

-- Two commands are appended, and committed at once; the second compacts the log up to entry 5.
abbrev commands : List Command
commands = Command.put (b'c' ∷ []) (b'z' ∷ []) ∷ Command.compact_log 5 5 ∷ []

abbrev new_entries : List Entry
new_entries =
    carrying 6 6 (request_of (Command.put (b'c' ∷ []) (b'z' ∷ [])))
    ∷ carrying 6 7 (request_of (Command.compact_log 5 5))
    ∷ []

abbrev round : RaftReady
round = record {
  stored = record {
    hard_state = record { term = 6; vote = 2; commit = 7 };
    entries = new_entries;
    snapshot = record {
      payload = [];
      metadata = record { conf_state = empty_conf_state; index = 0; term = 0 };
    };
    committed_entries = new_entries;
  };
  read_states = record { index = 6; request_ctx = b'r' ∷ [] } ∷ [];
  messages = record { to = 2; from = 1; content = [] } ∷ [];
}

round-IsReady : IsReady etcd round.stored log []
round-IsReady = record { install = λ e. cc; batch = ((refl, (refl, tt)), omega arith, omega arith) }

round-IsHandedOver : IsHandedOver proto etcd round 5 log commands
unfolding new_put_cmd_request new_compact_cmd_request
round-IsHandedOver = record {
  pairs = [];
  stored = round-IsReady;
  carried = (refl, (refl, tt));
  cuts = (tt, (inr (omega arith, omega arith, refl), tt));
  committed = omega arith;
}

handle_ready-Represents_example :
    (n' : Node Db) × (handle_ready list_db proto etcd net round node (0, [])
      ≡ returns (n', (send_raft_msgs net round.messages node.router (0, [])).1))
    × Represents list_db proto n'.peer.ps (spec_cuts commands (stored_log etcd round log))
    × IsSaved list_db proto n'.peer.ps
    × ((j : Bytes)
        → read_kv list_db j n'.peer.ps.engines
          ≡ spec_reads commands j
              (installed_read etcd round.stored [] j (read_kv list_db j node.peer.ps.engines)))
    × (n'.peer.ps.apply_state.apply_index
        ≡ last_applied
            (installed_index etcd round.stored node.peer.ps.apply_state.apply_index)
            round.stored.committed_entries)
    × (n'.reads ≡ put_states round.read_states node.reads)
    × (n'.router ≡ (send_raft_msgs net round.messages node.router (0, [])).0)
unfolding new_put_cmd_request new_compact_cmd_request
handle_ready-Represents_example =
    handle_ready-Represents list_db proto list_db-IsReliable proto-IsLossless etcd net round node
      (0, []) log [] commands ps-Represents ps-IsSaved round-IsReady (refl, (refl, tt))
      (tt, (inr (omega arith, omega arith, refl), tt))

node-IsSound : IsSound list_db proto node.peer.ps log
node-IsSound = record { represents = ps-Represents; saved = ps-IsSaved; applied = omega arith }

abbrev ticked : Node Db
ticked = record node { peer = record peer { compaction_elapse = 98 } }

-- After a tick
Reach-IsSound_example :
    IsSound list_db proto ticked.peer.ps log
    × (new_peer_storage list_db proto ticked.peer.ps.engines
        ≡ returns (reopened list_db proto ticked.peer.ps))
    × ((r : Peer Db × Option RaftCmdRequest) × (tick_log_gc list_db proto 1 ticked.peer
          ≡ returns r))
    × ((r : Node Db × Net) × (handle_ready list_db proto etcd net round ticked (0, []) ≡ returns r))
unfolding tick_log_gc
Reach-IsSound_example =
    Reach-IsSound list_db proto list_db-IsReliable proto-IsLossless etcd net node ticked (0, [])
      (0, []) log log node-IsSound
      (there (node, (0, []), log) (ticked, (0, []), log) here
        (tick 1 none node ticked.peer (0, []) log refl))
      1 round commands round-IsHandedOver

-- The entries of the term 6 behind an index
tail_from : ℕ → ℕ → List Entry
tail_from i zero = []
tail_from i (suc n) = entry 6 (i + 1) ∷ tail_from (i + 1) n

tail_from-Consecutive : (i n : ℕ) → Consecutive (i + 1) (tail_from i n)
unfolding tail_from
tail_from-Consecutive i zero = tt
tail_from-Consecutive i (suc n) = (refl, tail_from-Consecutive (i + 1) n)

last_entry-tail_from : (i n : ℕ) → (last_entry (entry 6 i) (tail_from i n)).index ≡ i + n
unfolding tail_from
last_entry-tail_from i zero = omega arith
last_entry-tail_from i (suc n) = omega (arith, last_entry-tail_from (i + 1) n)

abbrev long_batch : List Entry
long_batch = entry 6 6 ∷ tail_from 6 1200

abbrev long_log : Log
long_log = spec_append long_batch log

long_batch-IsBatch : IsBatch long_batch log
long_batch-IsBatch =
    ((refl, tail_from-Consecutive 6 1200), omega arith, omega (arith, last_entry-tail_from 6 1200))

last_of-long_log : last_of long_log ≡ 1206
unfolding tail_from
last_of-long_log = refl

offset-long_log : long_log.offset ≡ 3
unfolding tail_from
offset-long_log = refl

appended : (ps' : PeerStorage Db) × Represents list_db proto ps' long_log
appended =
    let (ps', done, r, rest) =
      truncate_and_append-Represents list_db proto list_db-IsReliable proto-IsLossless long_batch ps
        log ps-Represents long_batch-IsBatch in
    (ps', r)

-- A peer with that log, on which 1100 is applied
abbrev long_peer : Peer Db
long_peer = record peer {
  ps = record appended.0 { apply_state = record appended.0.apply_state { apply_index = 1100 } };
}

long_peer-Represents : Represents list_db proto long_peer.ps long_log
long_peer-Represents =
    let r = appended.1 in
    record {
      offset = r.offset;
      offset_term = r.offset_term;
      last = r.last;
      last_term = r.last_term;
      consecutive = r.consecutive;
      holds = r.holds;
      bounded = r.bounded;
    }

ticks-proposes_example :
    (t : ℕ) × (spec_term 1099 long_log ≡ ok t)
    × (ticks list_db proto 3 1 long_peer
        ≡ returns (record long_peer { compaction_elapse = 0 }, new_compact_cmd_request 1099 t ∷ []))
ticks-proposes_example =
    ticks-proposes list_db proto 2 1 long_peer long_log (omega arith) long_peer-Represents
      (omega (arith, last_of-long_log)) refl (omega (arith, offset-long_log))
