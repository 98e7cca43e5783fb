-- ===== src/Examples/Witnesses.antt =====
-- The theorems at inputs that meet their hypotheses.
use talent_challenge.Prelude.{
  ◌+◌, ◌-◌, ◌≤◌, ◌<◌, ◌≡◌, ◌≢◌, refl, ◌⊎◌, none, some, List, [], ◌∷◌, All, get_elem?, take, drop,
  arith, if◌then◌else◌,
}
use talent_challenge.Prelude.Bytes.{Bytes, bytes_eq, slice_from}
use talent_challenge.Prelude.Outcome.{Outcome, returns, panics, diverges, ok}
use talent_challenge.Vendor.Reference.{list_db, list_db-IsReliable}
use talent_challenge.Storage.Engines.{read_kv, read}
use talent_challenge.Messages.{Entry, empty_conf_state}
use talent_challenge.PeerStorage.State.{PeerStorage, new_peer_storage, write_apply_state, put_meta}
use talent_challenge.PeerStorage.State.Saved.{IsSaved}
use talent_challenge.PeerStorage.Log.{entries, term}
use talent_challenge.PeerStorage.Log.Spec.{Represents, spec_entries, spec_term, spec_append}
use talent_challenge.PeerStorage.Log.Reads.{entries-Represents, term-Represents}
use talent_challenge.PeerStorage.Append.{truncate_and_append}
use talent_challenge.PeerStorage.Append.Refines.{KeepsRest, truncate_and_append-Represents}
use talent_challenge.PeerStorage.Ready.{Ready, save_ready_state}
use talent_challenge.PeerStorage.Ready.Steps.{IsReady, base}
use talent_challenge.PeerStorage.Ready.Saves.{restart-save_ready_state}
use talent_challenge.Peer.Commands.{
  new_put_cmd_request, new_delete_cmd_request, new_compact_cmd_request, new_get_cmd_response,
}
use talent_challenge.Peer.State.{Peer, new_peer}
use talent_challenge.Peer.Apply.{
  process, run_command, process_admin_request, process_all, mark_applied, compact, halves,
  run_halves, mark_entry, run_entry,
}
use talent_challenge.Peer.Apply.Machine.{
  CarryAll, Carries, spec_read, put, delete, request_of, last_applied, spec_reads, process_all-Runs,
}
use talent_challenge.Peer.Apply.Crash.{process-halfway}
use talent_challenge.Peer.Reading.{Read, ReadState, key, found_or_nil, read_applied}
use talent_challenge.Peer.Compaction.{gc_raft_log, on_log_gc_task}
use talent_challenge.Peer.Compaction.Garbage.{Step, Reach, gc_raft_log-Reach}
use talent_challenge.Peer.Compaction.Trigger.{cut, compact-Represents, on_log_gc_task-Represents}
use talent_challenge.Examples.Codecs.{proto, proto-IsLossless}
use talent_challenge.Examples.Samples.{
  Db, entry, ps, log, ps-Represents, ps-IsSaved, etcd, carrying,
}

-- raft replaces the entry 5 and adds 6; the entry 3 is compacted already.
abbrev batch : List Entry
batch = entry 3 3 ∷ entry 4 4 ∷ entry 6 5 ∷ entry 6 6 ∷ []

truncate_and_append-Represents_example :
    (ps' : PeerStorage Db) × (truncate_and_append list_db proto batch ps ≡ returns ps')
    × Represents list_db proto ps' (spec_append batch log)
    × KeepsRest list_db ps ps'
truncate_and_append-Represents_example =
    truncate_and_append-Represents list_db proto list_db-IsReliable proto-IsLossless batch ps log
      ps-Represents ((refl, (refl, (refl, (refl, tt)))), omega arith, omega arith)

spec_append_batch : (spec_append batch log).items ≡ entry 4 4 ∷ entry 6 5 ∷ entry 6 6 ∷ []
spec_append_batch = refl

abbrev ready : Ready
ready = record {
  hard_state = record { term = 6; vote = 2; commit = 5 };
  entries = batch;
  snapshot = record {
    payload = [];
    metadata = record { conf_state = empty_conf_state; index = 0; term = 0 };
  };
  committed_entries = [];
}

ready-IsReady : IsReady etcd ready log []
ready-IsReady = record {
  install = λ e. cc;
  batch = ((refl, (refl, (refl, (refl, tt)))), omega arith, omega arith);
}

restart-save_ready_state_example :
    (ps' ps'' : PeerStorage Db) × (save_ready_state list_db proto etcd ready ps
      ≡ returns (none, ps'))
    × Represents list_db proto ps' (spec_append ready.entries (base etcd ready log))
    × IsSaved list_db proto ps'
    × (ps'.local_state.hard_state ≡ (
        if etcd.is_empty_hard_state ready.hard_state
        then ps.local_state.hard_state
        else ready.hard_state))
    × (new_peer_storage list_db proto ps'.engines ≡ returns ps'')
    × Represents list_db proto ps'' (spec_append ready.entries (base etcd ready log))
    × (ps''.local_state ≡ ps'.local_state)
    × (ps''.apply_state ≡ ps'.apply_state)
    × (ps''.conf_state ≡ ps'.conf_state)
restart-save_ready_state_example =
    restart-save_ready_state list_db proto list_db-IsReliable proto-IsLossless etcd ready log [] ps
      ps-Represents ps-IsSaved ready-IsReady

entries-Represents_example : entries list_db proto 4 6 0 ps ≡ spec_entries 4 6 log
entries-Represents_example = entries-Represents list_db proto 4 6 0 ps log ps-Represents

term-Represents_example : term list_db proto 4 ps ≡ spec_term 4 log
term-Represents_example = term-Represents list_db proto 4 ps log ps-Represents (omega arith)

abbrev peer : Peer Db
peer = new_peer 1 ps

abbrev puts : List Entry
puts =
    carrying 5 6 (request_of (put (b'c' ∷ []) (b'z' ∷ [])))
    ∷ carrying 5 7 (request_of (delete (b'a' ∷ [])))
    ∷ []

puts_carried : CarryAll proto puts (put (b'c' ∷ []) (b'z' ∷ []) ∷ delete (b'a' ∷ []) ∷ [])
unfolding new_put_cmd_request new_delete_cmd_request
puts_carried = (refl, (refl, tt))

process_all-Runs_example :
    (pr' : Peer Db) × (process_all list_db proto puts peer ≡ returns pr')
    × ((j : Bytes)
        → read_kv list_db j pr'.ps.engines
          ≡ spec_reads
              (put (b'c' ∷ []) (b'z' ∷ []) ∷ delete (b'a' ∷ []) ∷ [])
              j
              (read_kv list_db j peer.ps.engines))
    × (pr'.ps.apply_state.apply_index ≡ last_applied peer.ps.apply_state.apply_index puts)
    × (IsSaved list_db proto peer.ps → IsSaved list_db proto pr'.ps)
process_all-Runs_example =
    process_all-Runs list_db proto list_db-IsReliable proto-IsLossless puts
      (put (b'c' ∷ []) (b'z' ∷ []) ∷ delete (b'a' ∷ []) ∷ []) peer (puts_carried)

abbrev put_entry : Entry
put_entry = carrying 5 6 (request_of (put (b'a' ∷ []) (b'z' ∷ [])))

abbrev reader : Read
reader = record { ctx = 1 ∷ 0 ∷ 0 ∷ 0 ∷ 0 ∷ 0 ∷ 0 ∷ 0 ∷ b'a' ∷ []; cb = 1 }

abbrev due_state : ReadState
due_state = record { index = 6; request_ctx = reader.ctx }

reader_key : key reader ≡ returns (b'a' ∷ [])
unfolding key slice_from
reader_key = refl

before_put : found_or_nil (read_kv list_db (b'a' ∷ []) peer.ps.engines) ≡ returns (some (b'x' ∷ []))
unfolding new_peer read_kv read list_db bytes_eq
before_put = refl

put_carried : Carries proto put_entry (put (b'a' ∷ []) (b'z' ∷ []))
unfolding new_put_cmd_request
put_carried = refl

process-halfway_example :
    (half last : Peer Db) × (restarted : PeerStorage Db) × (run_halves list_db proto
        (take 1 (halves list_db proto))
        put_entry
        peer
      ≡ returns half)
    × (new_peer_storage list_db proto half.ps.engines ≡ returns restarted)
    × (restarted.apply_state.apply_index ≡ 6)
    × ((j : Bytes) → read_kv list_db j restarted.engines ≡ read_kv list_db j peer.ps.engines)
    × (read_applied list_db due_state reader half
        ≡ returns (some (new_get_cmd_response (some (b'x' ∷ [])))))
    × (run_halves list_db proto (drop 1 (halves list_db proto)) put_entry half ≡ returns last)
    × (process list_db proto put_entry peer ≡ returns last)
    × (last.ps.apply_state.apply_index ≡ 6)
    × ((j : Bytes)
        → read_kv list_db j last.ps.engines
          ≡ spec_read (put (b'a' ∷ []) (b'z' ∷ [])) j (read_kv list_db j peer.ps.engines))
unfolding new_peer
process-halfway_example =
    process-halfway list_db proto list_db-IsReliable proto-IsLossless put_entry
      (put (b'a' ∷ []) (b'z' ∷ [])) peer reader due_state (b'a' ∷ []) (some (b'x' ∷ [])) ps-IsSaved
      put_carried (omega arith) reader_key before_put

abbrev result_or : {A : Type 0} → Outcome A → A → A
result_or (returns a) b = a
result_or panics b = b
result_or diverges b = b

abbrev compaction : Entry
compaction = carrying 5 6 (new_compact_cmd_request 4 4)

-- The peer after a compaction to the index 4: one run of the collector is pending.
compacted : Peer Db
compacted = result_or (process list_db proto compaction peer) peer

compacted_is : process list_db proto compaction peer ≡ returns compacted
unfolding compacted process halves run_halves mark_entry run_entry mark_applied run_command
    process_admin_request compact write_apply_state put_meta new_compact_cmd_request new_peer
compacted_is = refl

compacted_tasks : compacted.gc_tasks ≡ (4, 5) ∷ []
unfolding compacted process halves run_halves mark_entry run_entry mark_applied run_command
    process_admin_request compact write_apply_state put_meta new_compact_cmd_request new_peer
compacted_tasks = refl

gc_raft_log-Reach_example :
    All
      (λ task. (gc_raft_log list_db proto task.0 task.1 compacted.ps).1 ≡ compacted.ps)
      compacted.gc_tasks
gc_raft_log-Reach_example =
    gc_raft_log-Reach list_db proto 1 ps compacted
      (Reach.next Reach.here (Step.apply compaction compacted_is))

compact-Represents_example :
    (pr' : Peer Db) × (compact list_db proto (record { compact_index = 4; compact_term = 4 }) peer
      ≡ returns pr')
    × Represents list_db proto pr'.ps (cut (record { compact_index = 4; compact_term = 4 }) log)
    × (pr'.last_compacted_idx ≡ 4)
compact-Represents_example =
    compact-Represents list_db proto list_db-IsReliable proto-IsLossless
      (record { compact_index = 4; compact_term = 4 }) (new_peer 1 ps) log
      (unfold new_peer in ps-Represents) (omega arith) (omega arith) refl

on_log_gc_task-Represents_example :
    ((1 ≢ (new_peer 1 ps).id) ⊎ ((new_peer 1 ps).ps.apply_state.apply_index < log.offset + 1001)
      → on_log_gc_task list_db proto 1 (new_peer 1 ps) ≡ returns none)
    × (1 ≡ (new_peer 1 ps).id
        → log.offset + 1001 ≤ (new_peer 1 ps).ps.apply_state.apply_index
        → (ent : Entry) × (get_elem? log.items
              ((new_peer 1 ps).ps.apply_state.apply_index - log.offset - 2)
            ≡ some ent)
          × (spec_term ((new_peer 1 ps).ps.apply_state.apply_index - 1) log ≡ ok ent.term)
          × (on_log_gc_task list_db proto 1 (new_peer 1 ps)
              ≡ returns (
                  some (
                    new_compact_cmd_request
                      ((new_peer 1 ps).ps.apply_state.apply_index - 1)
                      ent.term))))
on_log_gc_task-Represents_example =
    on_log_gc_task-Represents list_db proto 1 (new_peer 1 ps) log (unfold new_peer in ps-Represents)
      (unfold new_peer in omega arith)
