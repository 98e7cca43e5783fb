-- ===== src/Examples/Serving.antt =====
-- A read that is asked for behind a put, gets its state in the Ready that commits the put, and is
-- answered halfway through the put, with the value before it.
use talent_challenge.Prelude.{
  ◌≤◌, ◌≡◌, refl, inl, Bool, false, Option, none, some, [], ◌∷◌, arith, take,
}
use talent_challenge.Prelude.Outcome.{Outcome, returns, panics, diverges}
use talent_challenge.Prelude.Bytes.{Bytes, bytes_eq, le_bytes, slice_from}
use talent_challenge.Vendor.Reference.{list_db, list_db-IsReliable}
use talent_challenge.Storage.Engines.{read_kv, read, write}
use talent_challenge.Messages.{Entry, empty_hard_state, empty_conf_state}
use talent_challenge.PeerStorage.State.{
  write_local_state, write_apply_state, put_meta, append_log_entries,
}
use talent_challenge.PeerStorage.Append.{truncate_and_append, cut_compacted, delete_after}
use talent_challenge.PeerStorage.Ready.{save_ready_state}
use talent_challenge.PeerStorage.Ready.Steps.{IsReady}
use talent_challenge.Peer.Commands.{new_get_cmd_response}
use talent_challenge.Peer.State.{Peer}
use talent_challenge.Peer.Apply.{halves, run_halves, mark_entry, mark_applied}
use talent_challenge.Peer.Apply.Machine.{Command, request_of}
use talent_challenge.Peer.Reading.{
  Read, ReadState, Reads, key, build_read_ctx, linearizable_read, put_states, read_state,
  remove_state, take_read, handle_read_state, found_or_nil, read_applied,
}
use talent_challenge.Peer.Reading.Covers.{asked_at}
use talent_challenge.Peer.Ready.{RaftReady, Node, begin_ready}
use talent_challenge.Peer.Ready.Handled.{stored_log}
use talent_challenge.Peer.Ready.Serving.{Serving, Turns, ask, begins, first, signalled, here, there}
use talent_challenge.Peer.Ready.Fresh.{StandsAt, IsKept, read_applied-IsFresh}
use talent_challenge.Transport.Router.{new_router}
use talent_challenge.Examples.Codecs.{proto, proto-IsLossless}
use talent_challenge.Examples.Samples.{Db, ps, log, ps-Represents, ps-IsSaved, etcd, carrying}
use talent_challenge.Examples.Transport.{Net, net}

abbrev ctx : Bytes
ctx = 1 ∷ 0 ∷ 0 ∷ 0 ∷ 0 ∷ 0 ∷ 0 ∷ 0 ∷ b'a' ∷ []

abbrev asked_read : Read
asked_read = record { ctx = ctx; cb = 7 }

abbrev state : ReadState
state = record { index = 6; request_ctx = ctx }

-- The peer with these reads, and whether a signal is there
abbrev node : Reads → Bool → Node Db
node reads coming = record {
  peer = record {
    id = 1;
    ps = ps;
    compaction_elapse = 0;
    compaction_timeout = 100;
    last_compacted_idx = 3;
    gc_tasks = [];
  };
  reads = reads;
  read_state_coming = coming;
  router = new_router "127.0.0.1:6060";
}

abbrev start : Serving Db
start = record {
  node = node (record { readc = []; read_state_table = [] }) false;
  todo = [];
  halfway = none;
  tasks = [];
  asked = λ c. 0;
  log = log;
  completed = 5;
  user_data = λ j. read_kv list_db j ps.engines;
}

-- Six entries were committed when the read was asked for.
abbrev waiting : Serving Db
waiting = record start {
  node = node (record { readc = asked_read ∷ []; read_state_table = [] }) false;
  asked = asked_at ctx 6 start.asked;
}

abbrev put_entry : Entry
put_entry = carrying 5 6 (request_of (Command.put (b'a' ∷ []) (b'z' ∷ [])))

abbrev round : RaftReady
round = record {
  stored = record {
    hard_state = empty_hard_state;
    entries = put_entry ∷ [];
    snapshot = record {
      payload = [];
      metadata = record { conf_state = empty_conf_state; index = 0; term = 0 };
    };
    committed_entries = put_entry ∷ [];
  };
  read_states = state ∷ [];
  messages = [];
}

round-IsReady : IsReady etcd round.stored log []
round-IsReady = record { install = λ e. cc; batch = ((refl, tt), omega arith, omega arith) }

abbrev result_or : {A : Type 0} → Outcome A → A → A
result_or (returns a) b = a
result_or panics b = b
result_or diverges b = b

-- The peer behind the first part of the round, and halfway through the entry
begun : Node Db × Net
begun =
    result_or (begin_ready list_db proto etcd net round waiting.node (0, []))
      (waiting.node, (0, []))

half : Peer Db
half =
    result_or (run_halves list_db proto (take 1 (halves list_db proto)) put_entry begun.0.peer)
      begun.0.peer

begun_is : begin_ready list_db proto etcd net round waiting.node (0, []) ≡ returns begun
unfolding begun begin_ready save_ready_state truncate_and_append write_local_state put_meta write
    append_log_entries cut_compacted list_db delete_after
begun_is = refl

half_is :
    run_halves list_db proto (take 1 (halves list_db proto)) put_entry begun.0.peer ≡ returns half
unfolding half begun begin_ready save_ready_state truncate_and_append write_local_state put_meta
    write append_log_entries halves run_halves mark_entry mark_applied write_apply_state
half_is = refl

abbrev stated : Serving Db
stated = record waiting {
  node = begun.0;
  todo = put_entry ∷ [];
  log = stored_log etcd round log;
  completed = 5;
  user_data = λ j. read_kv list_db j ps.engines;
}

abbrev halfway_there : Serving Db
halfway_there = record stated {
  node = record begun.0 { peer = half };
  todo = [];
  halfway = some put_entry;
}

abbrev served : Serving Db
served = record halfway_there {
  node = record begun.0 {
    peer = half;
    reads = record { readc = []; read_state_table = [] };
    read_state_coming = false;
  };
  tasks = (state, asked_read, some state) ∷ [];
}

waits : Turns list_db proto etcd net (start, (0, [])) (waiting, (0, []))
unfolding linearizable_read build_read_ctx le_bytes
waits =
    there (start, (0, [])) (waiting, (0, [])) here
      (ask 1 7 6 (b'a' ∷ []) start (0, []) (record { table = tt; tasks = tt }))

begins_round : Turns list_db proto etcd net (start, (0, [])) (stated, begun.1)
unfolding bytes_eq
begins_round =
    there (waiting, (0, [])) (stated, begun.1) waits
      (begins round [] waiting begun.0 (0, []) begun.1 refl refl (omega arith, tt) round-IsReady
        begun_is)

goes_halfway : Turns list_db proto etcd net (start, (0, [])) (halfway_there, begun.1)
goes_halfway =
    there (stated, begun.1) (halfway_there, begun.1) begins_round
      (first put_entry [] stated half begun.1 refl refl half_is)

serves : Turns list_db proto etcd net (start, (0, [])) (served, begun.1)
unfolding begun begin_ready save_ready_state truncate_and_append write_local_state put_meta write
    append_log_entries cut_compacted list_db delete_after put_states handle_read_state take_read
    read_state remove_state bytes_eq
serves =
    there (halfway_there, begun.1) (served, begun.1) goes_halfway
      (signalled 2 state asked_read (record { readc = []; read_state_table = [] }) halfway_there
        begun.1 refl refl)

answered :
    read_applied list_db state asked_read half
    ≡ returns (some (new_get_cmd_response (some (b'x' ∷ []))))
unfolding half begun begin_ready save_ready_state truncate_and_append write_local_state put_meta
    write append_log_entries cut_compacted list_db delete_after halves run_halves mark_entry
    mark_applied write_apply_state read_applied key slice_from read_kv read bytes_eq
answered = refl

start-IsKept :
    IsKept list_db proto list_db-IsReliable proto-IsLossless etcd net ps none log 5
      (λ j. read_kv list_db j ps.engines)
start-IsKept = record {
  represents = ps-Represents;
  saved = ps-IsSaved;
  reads = λ j. refl;
  applied = inl (refl, refl);
}

read_applied-IsFresh_example :
    (served.asked ctx ≤ half.ps.apply_state.apply_index)
    × ((k : Bytes) × (value : Option Bytes) × (key asked_read ≡ returns k)
        × (found_or_nil (read_kv list_db k ps.engines) ≡ returns value)
        × (new_get_cmd_response (some (b'x' ∷ [])) ≡ new_get_cmd_response value))
    × StandsAt half.ps.apply_state.apply_index (some put_entry) 5
read_applied-IsFresh_example =
    read_applied-IsFresh list_db proto list_db-IsReliable proto-IsLossless etcd net start served
      (0, []) begun.1 0 state state asked_read (new_get_cmd_response (some (b'x' ∷ []))) refl refl
      start-IsKept serves refl answered
