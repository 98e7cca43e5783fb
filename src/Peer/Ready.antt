-- ===== src/Peer/Ready.antt =====
-- peer.go: what a peer does with a Ready of raft, and its ticks. The channel of `Advance` is raft's.
pub mod Handled
pub mod Loop
pub mod Serving
pub mod Fresh
use talent_challenge.Prelude.{ℕ, Bool, true, List, [], ◌∷◌}
use talent_challenge.Prelude.Outcome.{Outcome, returns, ◌>>=◌}
use talent_challenge.Vendor.Pebble.{Pebble}
use talent_challenge.Messages.{Proto}
use talent_challenge.PeerStorage.State.{Etcd}
use talent_challenge.PeerStorage.Ready.{Ready, save_ready_state}
use talent_challenge.Peer.State.{Peer}
use talent_challenge.Peer.Apply.{process_all}
use talent_challenge.Peer.Reading.{ReadState, Reads, put_states}
use talent_challenge.Transport.Client.{Message, Grpc}
use talent_challenge.Transport.Router.{Router, send_raft_msgs}

-- raft.Ready: what the storage reads of it, and the rest
pub record RaftReady : Type 0 where
  pub stored : Ready
  pub read_states : List ReadState
  pub messages : List Message

-- `peer`, with its tables, its router, and whether `readStateComing` holds a signal
pub record Node (DB : Type 0) : Type 0 where
  pub peer : Peer DB
  pub reads : Reads
  pub read_state_coming : Bool
  pub router : Router

-- The channel has room for one signal; where it is full, the sender waits until it was taken.
abbrev pub signal : List ReadState → Bool → Bool
signal [] coming = coming
signal (state ∷ states) coming = true

module _ {DB W : Type 0} (p : Pebble DB) (pb : Proto) (etcd : Etcd) (grpc : Grpc W) where
  -- `handleReady` up to its loop over the committed entries; the error of `saveReadyState` is dropped.
  unfoldable pub begin_ready : RaftReady → Node DB → W → Outcome (Node DB × W)
  unfolding put_states send_raft_msgs
  begin_ready rd n w = do
    saved ← save_ready_state p pb etcd rd.stored n.peer.ps
    let sent = send_raft_msgs grpc rd.messages n.router w
    returns (
      record {
        peer = record n.peer { ps = saved.1 };
        reads = put_states rd.read_states n.reads;
        read_state_coming = signal rd.read_states n.read_state_coming;
        router = sent.0;
      },
      sent.1,
    )

  unfoldable pub handle_ready : RaftReady → Node DB → W → Outcome (Node DB × W)
  unfolding begin_ready process_all
  handle_ready rd n w = do
    begun ← begin_ready rd n w
    peer ← process_all p pb rd.stored.committed_entries begun.0.peer
    returns (record begun.0 { peer = peer }, begun.1)
