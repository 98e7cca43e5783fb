-- ===== src/Peer/Ready/Handled.antt =====
-- `handleReady` of peer.go as one step: the log, the states, the user data and the messages.
use talent_challenge.Prelude.{ℕ, ◌≡◌, refl, sym, ap, subst, ◌∙◌, Option, List, arith}
use talent_challenge.Prelude.Outcome.{Result, returns, returns-injective}
use talent_challenge.Prelude.Bytes.{Bytes}
use talent_challenge.Vendor.Pebble.{Pebble, IsReliable}
use talent_challenge.Storage.Pair.{Pair}
use talent_challenge.Storage.Engines.{read_kv}
use talent_challenge.Messages.{Proto, IsLosslessProto}
use talent_challenge.PeerStorage.State.{Etcd}
use talent_challenge.PeerStorage.State.Saved.{IsSaved}
use talent_challenge.PeerStorage.Log.Spec.{Log, Represents, spec_append}
use talent_challenge.PeerStorage.Ready.Steps.{base, installed_read, installed_index, IsReady}
use talent_challenge.PeerStorage.Ready.Saves.{save_ready_state-IsSaved}
use talent_challenge.Peer.State.{Peer}
use talent_challenge.Peer.Apply.Machine.{
  Command, CarryAll, spec_reads, last_applied, process_all-Runs,
}
use talent_challenge.Peer.Apply.Logged.{spec_cuts, CutAll, process_all-Represents}
use talent_challenge.Peer.Ready.{RaftReady, Node, signal, handle_ready}
use talent_challenge.Peer.Reading.{put_states}
use talent_challenge.Transport.Client.{Grpc}
use talent_challenge.Transport.Router.{send_raft_msgs}

-- The log behind a Ready: its snapshot's, or the old one, with its entries, before its commands
abbrev pub stored_log : Etcd → RaftReady → Log → Log
stored_log etcd rd log = spec_append rd.stored.entries (base etcd rd.stored log)

module _ {DB W : Type 0} (p : Pebble DB) (pb : Proto) (reliable : IsReliable p)
    (lossless : IsLosslessProto pb) (etcd : Etcd) (grpc : Grpc W) where
  -- A Ready that raft may hand over, whose committed entries carry commands with compactions that
  -- fit the log, is handled without a panic by a peer whose storage represents a log and is saved.
  -- Behind it the storage represents the log that the snapshot, the entries and the compactions make,
  -- and is saved; every read of user data gives what the commands make of the snapshot's data over
  -- the old; the applied index is that of the last committed entry, or the snapshot's, or the old
  -- one; the read states are in the table, and the router has sent the messages.
  pub handle_ready-Represents :
      (rd : RaftReady) (n : Node DB) (w : W) (log : Log) (pairs : List Pair) (cmds : List Command)
      → Represents p pb n.peer.ps log
      → IsSaved p pb n.peer.ps
      → IsReady etcd rd.stored log pairs
      → CarryAll pb rd.stored.committed_entries cmds
      → CutAll cmds (stored_log etcd rd log)
      → (n' : Node DB) × (handle_ready p pb etcd grpc rd n w
          ≡ returns (n', (send_raft_msgs grpc rd.messages n.router w).1))
        × Represents p pb n'.peer.ps (spec_cuts cmds (stored_log etcd rd log))
        × IsSaved p pb n'.peer.ps
        × ((j : Bytes)
            → read_kv p j n'.peer.ps.engines
              ≡ spec_reads cmds j
                  (installed_read etcd rd.stored pairs j (read_kv p j n.peer.ps.engines)))
        × (n'.peer.ps.apply_state.apply_index
            ≡ last_applied
                (installed_index etcd rd.stored n.peer.ps.apply_state.apply_index)
                rd.stored.committed_entries)
        × (n'.reads ≡ put_states rd.read_states n.reads)
        × (n'.router ≡ (send_raft_msgs grpc rd.messages n.router w).0)
  unfolding handle_ready
  handle_ready-Represents rd n w log pairs cmds r s ready carried cuts =
      let (ps', saved, r', s', hard, reads, index) =
        save_ready_state-IsSaved p pb reliable lossless etcd rd.stored log pairs n.peer.ps r s
          ready in
      let start : Peer DB = record n.peer { ps = ps' } in
      let (peer, ran, runs, applied, is_saved) =
        process_all-Runs p pb reliable lossless rd.stored.committed_entries cmds start carried in
      let (peer', ran', r'') =
        process_all-Represents p pb reliable lossless rd.stored.committed_entries cmds start
          (stored_log etcd rd log) carried r' cuts in
      let same : peer' ≡ peer = returns-injective (sym ran' ∙ ran) in
      (
        record {
          peer = peer;
          reads = put_states rd.read_states n.reads;
          read_state_coming = signal rd.read_states n.read_state_coming;
          router = (send_raft_msgs grpc rd.messages n.router w).0;
        },
        ground (arith, saved, ran),
        subst (λ (pr : Peer DB). Represents p pb pr.ps (spec_cuts cmds (stored_log etcd rd log)))
            same r'',
        is_saved s',
        λ j. runs j ∙ ap (λ (old : Result (Option Bytes)). spec_reads cmds j old) (reads j),
        applied ∙ ap (λ (i : ℕ). last_applied i rd.stored.committed_entries) index,
        refl,
        refl,
      )
