-- ===== src/Peer/Ready/Serving.antt =====
-- The goroutines of peer.go that bear on a read, as turns in any order: reads are asked for, `onTick`
-- ticks, begins a Ready and runs the halves of `process`, signals hand reads to `readApplied`. The
-- save of a Ready is one turn, its snapshot's data included.
use talent_challenge.Prelude.{
  ℕ, ◌≤◌, ◌≡◌, true, false, Option, none, some, List, [], ◌∷◌, All, take, drop,
}
use talent_challenge.Prelude.Outcome.{Result, returns}
use talent_challenge.Prelude.Bytes.{Bytes, bytes_eq}
use talent_challenge.Vendor.Pebble.{Pebble}
use talent_challenge.Storage.Pair.{Pair}
use talent_challenge.Messages.{Proto, Entry, RaftCmdRequest}
use talent_challenge.PeerStorage.State.{Etcd}
use talent_challenge.PeerStorage.Log.Spec.{Log}
use talent_challenge.PeerStorage.Ready.Steps.{installed_read, installed_index, IsReady}
use talent_challenge.Peer.Apply.{halves, run_halves}
use talent_challenge.Peer.Apply.Machine.{Command, Carries, spec_read}
use talent_challenge.Peer.Apply.Logged.{spec_cut, CutsAt}
use talent_challenge.Peer.State.{Peer}
use talent_challenge.Peer.Compaction.{tick_log_gc}
use talent_challenge.Peer.Reading.{
  Read, ReadState, Reads, build_read_ctx, linearizable_read, read_state, handle_read_state,
}
use talent_challenge.Peer.Reading.Covers.{asked_at}
use talent_challenge.Peer.Ready.{RaftReady, Node, begin_ready}
use talent_challenge.Peer.Ready.Handled.{stored_log}
use talent_challenge.Transport.Client.{Grpc}

-- The first fields are the program's: the peer, the entries that `handleReady` has yet to process, the
-- one that it is halfway through, and the calls of `readApplied` that were started, with the state
-- that their read had in the table. The others keep what happened: what was committed when the read
-- of a context was asked for, the log, the index of the last entry that was processed to its end,
-- and what the commands up to it make of the user data.
pub record Serving (DB : Type 0) : Type 0 where
  pub node : Node DB
  pub todo : List Entry
  pub halfway : Option Entry
  pub tasks : List (ReadState × Read × Option ReadState)
  pub asked : Bytes → ℕ
  pub log : Log
  pub completed : ℕ
  pub user_data : Bytes → Result (Option Bytes)

-- No state and no started call has the context.
pub record IsUnused {DB : Type 0} (ctx : Bytes) (s : Serving DB) : Type 0 where
  pub table : All (λ e. bytes_eq ctx e.0 ≡ false) s.node.reads.read_state_table
  pub tasks : All (λ t. bytes_eq ctx t.1.ctx ≡ false) s.tasks

module _ {DB W : Type 0} (p : Pebble DB) (pb : Proto) (etcd : Etcd) (grpc : Grpc W) where
  pub data Turn : Serving DB × W → Serving DB × W → Type 0 where
    -- `linearizableRead`, with an unused context
    ask :
        (now cb commit : ℕ) (k : Bytes) (s : Serving DB) (w : W)
        → IsUnused (build_read_ctx now k) s
        → Turn
            (s, w)
            (
              record s {
                node = record s.node { reads = (linearizable_read now cb k s.node.reads).1 };
                asked = asked_at (build_read_ctx now k) commit s.asked;
              },
              w,
            )
    tick :
        (lead : ℕ) (cmd : Option RaftCmdRequest) (s : Serving DB) (peer : Peer DB) (w : W)
        → s.todo ≡ []
        → s.halfway ≡ none
        → tick_log_gc p pb lead s.node.peer ≡ returns (peer, cmd)
        → Turn (s, w) (record s { node = record s.node { peer = peer } }, w)
    -- `handleReady` up to its loop. Raft may hand the Ready over, and its read states have the index
    -- that raft documents, no smaller than what was committed when the read was asked for.
    begins :
        (rd : RaftReady) (pairs : List Pair) (s : Serving DB) (n : Node DB) (w w' : W)
        → s.todo ≡ []
        → s.halfway ≡ none
        → All (λ state. s.asked state.request_ctx ≤ state.index) rd.read_states
        → IsReady etcd rd.stored s.log pairs
        → begin_ready p pb etcd grpc rd s.node w ≡ returns (n, w')
        → Turn
            (s, w)
            (
              record s {
                node = n;
                todo = rd.stored.committed_entries;
                log = stored_log etcd rd s.log;
                completed = installed_index etcd rd.stored s.completed;
                user_data = λ j. installed_read etcd rd.stored pairs j (s.user_data j);
              },
              w',
            )
    -- The first half of `process` on the next entry
    first :
        (ent : Entry) (ents : List Entry) (s : Serving DB) (peer : Peer DB) (w : W)
        → s.todo ≡ ent ∷ ents
        → s.halfway ≡ none
        → run_halves p pb (take 1 (halves p pb)) ent s.node.peer ≡ returns peer
        → Turn
            (s, w)
            (record s { node = record s.node { peer = peer }; todo = ents; halfway = some ent }, w)
    -- The rest of `process`, on an entry whose command fits the log
    second :
        (ent : Entry) (cmd : Command) (s : Serving DB) (peer : Peer DB) (w : W)
        → s.halfway ≡ some ent
        → Carries pb ent cmd
        → CutsAt cmd s.log
        → run_halves p pb (drop 1 (halves p pb)) ent s.node.peer ≡ returns peer
        → Turn
            (s, w)
            (
              record s {
                node = record s.node { peer = peer };
                halfway = none;
                log = spec_cut cmd s.log;
                completed = ent.index;
                user_data = λ j. spec_read cmd j (s.user_data j);
              },
              w,
            )
    -- `handleReadState` on a signal, which starts a call of `readApplied`
    signalled :
        (now : ℕ) (state : ReadState) (r : Read) (reads : Reads) (s : Serving DB) (w : W)
        → s.node.read_state_coming ≡ true
        → handle_read_state now s.node.reads ≡ returns (state, r, reads)
        → Turn
            (s, w)
            (
              record s {
                node = record s.node { reads = reads; read_state_coming = false };
                tasks = (state, r, read_state r.ctx s.node.reads.read_state_table) ∷ s.tasks;
              },
              w,
            )

  pub data Turns (start : Serving DB × W) : Serving DB × W → Type 0 where
    here : Turns start start
    there : (mid last : Serving DB × W) → Turns start mid → Turn mid last → Turns start last
