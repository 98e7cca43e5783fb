-- ===== src/Examples/Reading.antt =====
-- The theorems on reads at concrete inputs.
use talent_challenge.Prelude.{
  ℕ, ◌<◌, ◌≤◌, ◌^◌, ◌≡◌, refl, ◌⊎◌, true, false, none, some, List, [], ◌∷◌,
}
use talent_challenge.Prelude.Outcome.{returns, err, lost_read_response}
use talent_challenge.Prelude.Bytes.{Bytes, bytes_eq, le_value, read_le}
use talent_challenge.Vendor.Reference.{list_db, list_db-IsReliable}
use talent_challenge.Storage.Engines.{read_kv, read}
use talent_challenge.Messages.{Entry}
use talent_challenge.Peer.Commands.{GetResponse, new_put_cmd_request, new_delete_cmd_request}
use talent_challenge.Peer.State.{Peer}
use talent_challenge.Peer.Apply.{process_all}
use talent_challenge.Peer.Apply.Machine.{Command, CarryAll, request_of}
use talent_challenge.Peer.Reading.{
  Read, Reads, ReadState, timestamp, linearizable_read, read_state, remove_state, handle_read_state,
  read_applied,
}
use talent_challenge.Peer.Reading.Answers.{
  Waits, kept, handle_read_state-found, handle_read_state-none,
}
use talent_challenge.Peer.Reading.Callback.{
  Callback, new_callback, set_resp, wait_resp_with_timeout, Answered, start, next, answers,
  get_waited, get_waited-Answered,
}
use talent_challenge.Store.Memory.{MemoryStore, lookup, get}
use talent_challenge.Store.Raft.{get as raft_get}
use talent_challenge.Store.Agrees.{run, as_get, as_read, read_applied-run}
use talent_challenge.Examples.Codecs.{proto, proto-IsLossless}
use talent_challenge.Examples.Samples.{Db, ps, carrying}

abbrev no_reads : Reads
no_reads = record { readc = []; read_state_table = [] }

abbrev first : Read
first = record { ctx = 1 ∷ 0 ∷ 0 ∷ 0 ∷ 0 ∷ 0 ∷ 0 ∷ 0 ∷ b'a' ∷ []; cb = 1 }

abbrev second : Read
second = record { ctx = 2 ∷ 0 ∷ 0 ∷ 0 ∷ 0 ∷ 0 ∷ 0 ∷ 0 ∷ b'b' ∷ []; cb = 2 }

abbrev state : ReadState
state = record { index = 5; request_ctx = second.ctx }

abbrev table : List (Bytes × ReadState)
table = (second.ctx, state) ∷ []

first-Waits : Waits table first
unfolding timestamp read_le le_value read_state bytes_eq
first-Waits = ((1, refl), refl)

second_there : read_state second.ctx table ≡ some state
unfolding read_state bytes_eq
second_there = refl

handle_read_state-found_example :
    handle_read_state 3 (record { readc = first ∷ second ∷ []; read_state_table = table })
    ≡ returns (
      state,
      second,
      record { readc = kept 3 (first ∷ []); read_state_table = remove_state second.ctx table },
    )
handle_read_state-found_example =
    handle_read_state-found 3 (first ∷ []) [] second table state (first-Waits, tt) second_there

handle_read_state-none_example :
    handle_read_state 3 (record { readc = first ∷ []; read_state_table = table })
    ≡ returns (
      record { index = 0; request_ctx = [] },
      first,
      record { readc = kept 3 (first ∷ []); read_state_table = remove_state first.ctx table },
    )
handle_read_state-none_example = handle_read_state-none 3 [] first table tt first-Waits

abbrev peer : Peer Db
peer = record {
  id = 1;
  ps = record ps { engines = record { kv = []; meta = ps.engines.meta } };
  compaction_elapse = 0;
  compaction_timeout = 100;
  last_compacted_idx = 3;
  gc_tasks = [];
}

abbrev empty : MemoryStore
empty = record { db = [] }

abbrev commands : List Command
commands = Command.put (b'c' ∷ []) (b'z' ∷ []) ∷ Command.delete (b'a' ∷ []) ∷ []

abbrev entries : List Entry
entries =
    carrying 5 6 (request_of (Command.put (b'c' ∷ []) (b'z' ∷ [])))
    ∷ carrying 5 7 (request_of (Command.delete (b'a' ∷ [])))
    ∷ []

entries-CarryAll : CarryAll proto entries commands
unfolding new_put_cmd_request new_delete_cmd_request
entries-CarryAll = (refl, (refl, tt))

reads_as_empty : (j : Bytes) → read_kv list_db j peer.ps.engines ≡ as_read (get j empty)
unfolding read_kv read list_db get lookup
reads_as_empty j = refl

read_applied-run_example :
    (pr' : Peer Db) × (process_all list_db proto entries peer ≡ returns pr')
    × ((now cb : ℕ) (k : Bytes) (s : Reads) (state : ReadState)
        → now < 2 ^ 64
        → state.index ≤ pr'.ps.apply_state.apply_index
        → (resp : GetResponse) × (read_applied list_db state (linearizable_read now cb k s).0 pr'
            ≡ returns (some resp))
          × (raft_get (some resp) ≡ as_get (get k (run commands empty))))
read_applied-run_example =
    read_applied-run list_db proto list_db-IsReliable proto-IsLossless entries commands peer empty
      entries-CarryAll reads_as_empty

abbrev response : GetResponse
response = record { value = some (b'x' ∷ []) }

-- The goroutine has set the response and has not sent its signal.
abbrev half_done : Callback
half_done = record { resp = some response; signalled = false }

half_done-Answered : Answered response half_done
unfolding new_callback set_resp
half_done-Answered = next new_callback half_done start (answers new_callback)

get_waited-Answered_example :
    (((half_done.resp ≡ some response)
        × (get_waited (wait_resp_with_timeout true false half_done)
            ≡ some (raft_get (some response))))
      ⊎ ((half_done.resp ≡ none)
          × (get_waited (wait_resp_with_timeout true false half_done)
              ≡ some (err lost_read_response))))
    × ((half_done.signalled ≡ false)
        ⊎ (get_waited (wait_resp_with_timeout true true half_done)
            ≡ some (raft_get (some response))))
get_waited-Answered_example = get_waited-Answered response false true half_done half_done-Answered
