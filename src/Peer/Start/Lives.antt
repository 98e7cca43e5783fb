-- ===== src/Peer/Start/Lives.antt =====
-- The life of a peer of peer.go: a first start, ticks and Readies, and starts on what it has left.
use talent_challenge.Prelude.{ℕ, ◌≡◌, sym, ap, subst, ◌∙◌, []}
use talent_challenge.Prelude.Outcome.{returns, returns-injective}
use talent_challenge.Vendor.Pebble.{Pebble, IsReliable}
use talent_challenge.Storage.Engines.{Engines}
use talent_challenge.Messages.{Proto, IsLosslessProto}
use talent_challenge.PeerStorage.State.{PeerStorage, Etcd}
use talent_challenge.PeerStorage.State.Saved.{reopened, new_peer_storage-IsSaved}
use talent_challenge.PeerStorage.Log.Spec.{Log}
use talent_challenge.Peer.Ready.{Node}
use talent_challenge.Peer.Ready.Loop.{Step, IsSound, Step-Sound}
use talent_challenge.Peer.Start.{Raft, start_peer}
use talent_challenge.Peer.Start.Begins.{
  empty_log, IsMade, Starts, start_on-Starts, start_peer-IsSound,
}
use talent_challenge.Transport.Client.{Grpc}

module _ {DB W R : Type 0} (p : Pebble DB) (pb : Proto) (etcd : Etcd) (grpc : Grpc W)
    (raft : Raft DB R) where
  -- What a peer may come to: a start on databases without metadata, a tick or a Ready that raft may
  -- hand over, and a new start on the peer's databases. Beside it goes the log.
  pub data Lives (id : ℕ) : Node DB × W × Log → Type 0 where
    starts :
        (engines : Engines DB) (n : Node DB) (r : R) (w : W)
        → p.items engines.meta ≡ []
        → start_peer p pb raft id engines ≡ returns (n, r)
        → Lives id (n, w, empty_log)
    steps :
        (mid last : Node DB × W × Log) → Lives id mid → Step p pb etcd grpc mid last → Lives id last
    restarts :
        (n n' : Node DB) (r : R) (w w' : W) (log : Log)
        → Lives id (n, w, log)
        → start_peer p pb raft id n.peer.ps.engines ≡ returns (n', r)
        → Lives id (n', w', log)

module _ {DB R : Type 0} (p : Pebble DB) (pb : Proto) (reliable : IsReliable p)
    (lossless : IsLosslessProto pb) (raft : Raft DB R) where
  reopened-IsSound :
      (ps : PeerStorage DB) (log : Log) → IsSound p pb ps log → IsSound p pb (reopened p pb ps) log
  reopened-IsSound ps log sound =
      let rep = sound.represents in
      record {
        represents = record {
          offset = rep.offset;
          offset_term = rep.offset_term;
          last = rep.last;
          last_term = rep.last_term;
          consecutive = rep.consecutive;
          holds = rep.holds;
          bounded = rep.bounded;
        };
        saved = record {
          local_state = sound.saved.local_state;
          apply_state = sound.saved.apply_state;
          conf_state = sound.saved.conf_state;
        };
        applied = sound.applied;
      }

  start_peer-Starts :
      (id : ℕ) (ps : PeerStorage DB) (log : Log)
      → IsSound p pb ps log
      → (n : Node DB) × (r : R) × (start_peer p pb raft id ps.engines ≡ returns (n, r))
        × Starts raft id (reopened p pb ps) n.peer.ps r
        × IsSound p pb n.peer.ps log
        × IsMade id log n
        × (n.peer.ps.engines.kv ≡ ps.engines.kv)
  unfolding start_peer
  start_peer-Starts id ps log sound =
      let (n, r, done, kind, sound', made, kv) =
        start_on-Starts p pb reliable lossless raft id (reopened p pb ps) log
          (reopened-IsSound ps log sound) in
      (n, r, rw (new_peer_storage-IsSaved p pb ps sound.saved) done, kind, sound', made, kv)

module _ {DB W R : Type 0} (p : Pebble DB) (pb : Proto) (reliable : IsReliable p)
    (lossless : IsLosslessProto pb) (etcd : Etcd) (grpc : Grpc W) (raft : Raft DB R) where
  Lives-IsSound :
      (id : ℕ) (s : Node DB × W × Log)
      → Lives p pb etcd grpc raft id s
      → IsSound p pb s.0.peer.ps s.2
  Lives-IsSound id s (starts engines n r w empty started) =
      let (m, r', done, asked, configured, sound, made, back, kv) =
        start_peer-IsSound p pb reliable lossless raft id engines empty in
      subst (λ (x : Node DB). IsSound p pb x.peer.ps empty_log)
        (ap (λ (x : Node DB × R). x.0) (returns-injective (sym done ∙ started))) sound
  Lives-IsSound id s (steps mid last before step) =
      Step-Sound p pb reliable lossless etcd grpc mid last step (Lives-IsSound id mid before)
  Lives-IsSound id s (restarts n n' r w w' log before started) =
      let (m, r', done, kind, sound, made, kv) =
        start_peer-Starts p pb reliable lossless raft id n.peer.ps log
          (Lives-IsSound id (n, w, log) before) in
      subst (λ (x : Node DB). IsSound p pb x.peer.ps log)
        (ap (λ (x : Node DB × R). x.0) (returns-injective (sym done ∙ started))) sound

  -- A peer starts on databases without metadata, and then ticks, Readies that raft may hand over, and
  -- new starts on its databases take it anywhere, in any order and number. There `newPeer` on its
  -- databases returns. Raft gets the storage that they bring back, with its applied index, and is
  -- restarted, with nothing written, where the storage has a configuration, and else started for the
  -- peers 1, 2 and 3, with the configuration that it reports saved. The new peer has a storage that
  -- represents the log that the Readies made, with its states saved and an applied index within the
  -- log, takes the log's compacted index for the last one compacted, is at the address of its id if
  -- there is one, has nothing asked for, connected or collected, and has the user data as it was.
  pub start_peer-Lives :
      (id : ℕ) (n : Node DB) (w : W) (log : Log)
      → Lives p pb etcd grpc raft id (n, w, log)
      → (n' : Node DB) × (r : R) × (start_peer p pb raft id n.peer.ps.engines ≡ returns (n', r))
        × Starts raft id (reopened p pb n.peer.ps) n'.peer.ps r
        × IsSound p pb n'.peer.ps log
        × IsMade id log n'
        × (n'.peer.ps.engines.kv ≡ n.peer.ps.engines.kv)
  start_peer-Lives id n w log lives =
      start_peer-Starts p pb reliable lossless raft id n.peer.ps log
        (Lives-IsSound id (n, w, log) lives)
