-- ===== src/Peer/Ready/Loop.antt =====
-- `onTick` of peer.go: ticks and Readies in any order, as a step relation. Beside the peer goes the
-- log that its storage is to represent.
use native.Mathlib.Decide.{dec_lt}
use talent_challenge.Prelude.{
  ℕ, ◌+◌, ◌-◌, ◌≤◌, ◌≡◌, refl, sym, ap, subst, ◌∙◌, inl, inr, Bool-cases, Option, none, List, [],
  ◌∷◌, arith, ◌==◌, ==_iff, leb, le→leb, lt→leb, length-drop,
}
use talent_challenge.Prelude.Outcome.{returns, >>=-eq-returns, returns-injective}
use talent_challenge.Vendor.Pebble.{Pebble, IsReliable}
use talent_challenge.Storage.Pair.{Pair}
use talent_challenge.Messages.{Proto, IsLosslessProto, RaftCmdRequest}
use talent_challenge.PeerStorage.State.{PeerStorage, Etcd, new_peer_storage}
use talent_challenge.PeerStorage.State.Saved.{IsSaved, reopened, new_peer_storage-IsSaved}
use talent_challenge.PeerStorage.Log.Spec.{Log, last_of, Represents}
use talent_challenge.PeerStorage.Ready.Steps.{installed_index, IsReady}
use talent_challenge.Peer.State.{Peer}
use talent_challenge.Peer.Apply.Machine.{Command, CarryAll, last_applied}
use talent_challenge.Peer.Apply.Logged.{spec_cut, spec_cuts, CutsAt, CutAll}
use talent_challenge.Peer.Compaction.{on_log_gc_task, tick_log_gc}
use talent_challenge.Peer.Compaction.Trigger.{on_log_gc_task-Represents}
use talent_challenge.Peer.Ready.{RaftReady, Node, handle_ready}
use talent_challenge.Peer.Ready.Handled.{stored_log, handle_ready-Represents}
use talent_challenge.Transport.Client.{Grpc}

-- What raft may hand over to a peer with this log: it commits only entries of the log.
pub record IsHandedOver (pb : Proto) (etcd : Etcd) (rd : RaftReady) (applied : ℕ) (log : Log)
    (cmds : List Command) : Type 0 where
  pub pairs : List Pair
  pub stored : IsReady etcd rd.stored log pairs
  pub carried : CarryAll pb rd.stored.committed_entries cmds
  pub cuts : CutAll cmds (stored_log etcd rd log)
  pub committed :
      last_applied (installed_index etcd rd.stored applied) rd.stored.committed_entries
      ≤ last_of (stored_log etcd rd log)

module _ {DB W : Type 0} (p : Pebble DB) (pb : Proto) (etcd : Etcd) (grpc : Grpc W) where
  pub data Step : Node DB × W × Log → Node DB × W × Log → Type 0 where
    tick :
        (lead : ℕ) (cmd : Option RaftCmdRequest) (n : Node DB) (peer : Peer DB) (w : W) (log : Log)
        → tick_log_gc p pb lead n.peer ≡ returns (peer, cmd)
        → Step (n, w, log) (record n { peer = peer }, w, log)
    ready :
        (rd : RaftReady) (cmds : List Command) (n n' : Node DB) (w w' : W) (log : Log)
        → IsHandedOver pb etcd rd n.peer.ps.apply_state.apply_index log cmds
        → handle_ready p pb etcd grpc rd n w ≡ returns (n', w')
        → Step (n, w, log) (n', w', spec_cuts cmds (stored_log etcd rd log))

  pub data Reach (start : Node DB × W × Log) : Node DB × W × Log → Type 0 where
    here : Reach start start
    there : (mid last : Node DB × W × Log) → Reach start mid → Step mid last → Reach start last

last_of-spec_cut :
    (i t : ℕ) (log : Log)
    → CutsAt (Command.compact_log i t) log
    → last_of (spec_cut (Command.compact_log i t) log) ≡ last_of log
last_of-spec_cut i t log (inl old) = rw (lt→leb log.offset i old) refl
last_of-spec_cut i t log (inr (low, high, found)) =
    rw (le→leb log.offset i low) (omega (arith, length-drop (i - log.offset) log.items))

last_of-spec_cuts :
    (cmds : List Command) (log : Log) → CutAll cmds log → last_of (spec_cuts cmds log) ≡ last_of log
last_of-spec_cuts [] log cuts = refl
last_of-spec_cuts (Command.put k v ∷ cmds) log cuts = last_of-spec_cuts cmds log cuts.1
last_of-spec_cuts (Command.delete k ∷ cmds) log cuts = last_of-spec_cuts cmds log cuts.1
last_of-spec_cuts (Command.nothing ∷ cmds) log cuts = last_of-spec_cuts cmds log cuts.1
last_of-spec_cuts (Command.compact_log i t ∷ cmds) log cuts =
    last_of-spec_cuts cmds (spec_cut (Command.compact_log i t) log) cuts.1
    ∙ last_of-spec_cut i t log cuts.0

module _ {DB : Type 0} (p : Pebble DB) (pb : Proto) where
  -- What holds of a peer's storage between two rounds of the loop
  pub record IsSound (ps : PeerStorage DB) (log : Log) : Type 0 where
    pub represents : Represents p pb ps log
    pub saved : IsSaved p pb ps
    pub applied : ps.apply_state.apply_index ≤ last_of log

  on_log_gc_task-returns :
      (lead : ℕ) (pr : Peer DB) (log : Log)
      → Represents p pb pr.ps log
      → pr.ps.apply_state.apply_index ≤ last_of log
      → (cmd : Option RaftCmdRequest) × (on_log_gc_task p pb lead pr ≡ returns cmd)
  on_log_gc_task-returns lead pr log r below =
      let (idle, due) = on_log_gc_task-Represents p pb lead pr log r below in
      elim (Bool-cases (lead == pr.id)) [
        | inr other ↦ (none, idle (inl (λ same. ground (arith, other, ==_iff lead pr.id, same))))
        | inl leads ↦ elim (dec_lt pr.ps.apply_state.apply_index (log.offset + 1001)) [
          | yes few ↦ (none, idle (inr few))
          | no enough ↦
              let (ent, picked, found, task) = due ((==_iff lead pr.id).0 leads) (omega arith) in
              (_, task)
        ]
      ]

  tick_log_gc-returns :
      (lead : ℕ) (pr : Peer DB) (log : Log)
      → Represents p pb pr.ps log
      → pr.ps.apply_state.apply_index ≤ last_of log
      → (r : Peer DB × Option RaftCmdRequest) × (tick_log_gc p pb lead pr ≡ returns r)
  unfolding tick_log_gc
  tick_log_gc-returns lead pr log r below =
      let reset : Peer DB = record pr { compaction_elapse = 0 } in
      let (cmd, task) = on_log_gc_task-returns lead reset log r below in
      elim (Bool-cases (leb pr.compaction_timeout (pr.compaction_elapse + 1))) [
        | inl due ↦ ((reset, cmd), rw due (rw task refl))
        | inr early ↦
            ((record pr { compaction_elapse = pr.compaction_elapse + 1 }, none), rw early refl)
      ]

  pub ps-tick_log_gc :
      (lead : ℕ) (cmd : Option RaftCmdRequest) (pr pr' : Peer DB)
      → tick_log_gc p pb lead pr ≡ returns (pr', cmd)
      → pr'.ps ≡ pr.ps
  unfolding tick_log_gc
  ps-tick_log_gc lead cmd pr pr' h =
      elim (Bool-cases (leb pr.compaction_timeout (pr.compaction_elapse + 1))) [
        | inl due ↦
            let reset : Peer DB = record pr { compaction_elapse = 0 } in
            let h' = rw due at h in
            let (c, task, same) = >>=-eq-returns (on_log_gc_task p pb lead reset) _ h' in
            ap (λ (x : Peer DB × Option RaftCmdRequest). x.0.ps) (sym (returns-injective same))
        | inr early ↦
            let h' = rw early at h in
            ap (λ (x : Peer DB × Option RaftCmdRequest). x.0.ps) (sym (returns-injective h'))
      ]

module _ {DB W : Type 0} (p : Pebble DB) (pb : Proto) (reliable : IsReliable p)
    (lossless : IsLosslessProto pb) (etcd : Etcd) (grpc : Grpc W) where
  abbrev Sound : Node DB × W × Log → Type 0
  Sound s = IsSound p pb s.0.peer.ps s.2

  pub Step-Sound : (s t : Node DB × W × Log) → Step p pb etcd grpc s t → Sound s → Sound t
  Step-Sound s t (tick lead cmd n peer w log done) sound =
      subst (λ ps. IsSound p pb ps log) (sym (ps-tick_log_gc p pb lead cmd n.peer peer done)) sound
  Step-Sound s t (ready rd cmds n n' w w' log over done) sound =
      let (m, done', r, saved, reads, applied, table, router) =
        handle_ready-Represents p pb reliable lossless etcd grpc rd n w log over.pairs cmds
          sound.represents sound.saved over.stored over.carried over.cuts in
      let same : m ≡ n' = ap (λ (x : Node DB × W). x.0) (returns-injective (sym done' ∙ done)) in
      let log' = spec_cuts cmds (stored_log etcd rd log) in
      subst (λ (x : Node DB). IsSound p pb x.peer.ps log') same
        (record {
          represents = r;
          saved = saved;
          applied = omega (
            arith,
            applied,
            over.committed,
            last_of-spec_cuts cmds (stored_log etcd rd log) over.cuts,
          );
        })

  Reach-Sound : (s t : Node DB × W × Log) → Reach p pb etcd grpc s t → Sound s → Sound t
  Reach-Sound s t here sound = sound
  Reach-Sound s t (there mid last before step) sound =
      Step-Sound mid last step (Reach-Sound s mid before sound)

  -- The loop of ticks and Readies, in any order and number, each Ready such that raft may hand it
  -- over then, starts at a peer whose storage represents a log, is saved, and has an applied index
  -- within the log. Wherever the loop gets, the storage represents the log that the Readies make,
  -- a restart from its engines brings back its states, the applied index is within the log, and
  -- the next tick and the next Ready that raft may hand over return without a panic.
  pub Reach-IsSound :
      (n n' : Node DB) (w w' : W) (log log' : Log)
      → IsSound p pb n.peer.ps log
      → Reach p pb etcd grpc (n, w, log) (n', w', log')
      → (lead : ℕ) (rd : RaftReady) (cmds : List Command)
      → IsHandedOver pb etcd rd n'.peer.ps.apply_state.apply_index log' cmds
      → IsSound p pb n'.peer.ps log'
        × (new_peer_storage p pb n'.peer.ps.engines ≡ returns (reopened p pb n'.peer.ps))
        × ((r : Peer DB × Option RaftCmdRequest) × (tick_log_gc p pb lead n'.peer ≡ returns r))
        × ((r : Node DB × W) × (handle_ready p pb etcd grpc rd n' w' ≡ returns r))
  Reach-IsSound n n' w w' log log' sound reached lead rd cmds over =
      let sound' = Reach-Sound (n, w, log) (n', w', log') reached sound in
      let (m, done, r, saved, reads, applied, table, router) =
        handle_ready-Represents p pb reliable lossless etcd grpc rd n' w' log' over.pairs cmds
          sound'.represents sound'.saved over.stored over.carried over.cuts in
      (
        sound',
        new_peer_storage-IsSaved p pb n'.peer.ps sound'.saved,
        tick_log_gc-returns p pb lead n'.peer log' sound'.represents sound'.applied,
        (_, done),
      )
