-- ===== src/PeerStorage/Ready/Saves.antt =====
-- `saveReadyState` of peer_storage.go: the represented log after it, and what a restart brings back.
use talent_challenge.Prelude.{◌≡◌, refl, ap, ◌∙◌, none, List, arith, if◌then◌else◌}
use talent_challenge.Prelude.Outcome.{returns}
use talent_challenge.Vendor.Pebble.{Pebble, IsReliable}
use talent_challenge.Storage.Pair.{Pair}
use talent_challenge.Storage.Engines.{Engines, read, read_kv}
use talent_challenge.Prelude.Bytes.{Bytes}
use talent_challenge.Messages.{Proto, IsLosslessProto, RaftLocalState, RaftApplyState, HardState}
use talent_challenge.PeerStorage.State.{PeerStorage, Etcd, new_peer_storage}
use talent_challenge.PeerStorage.State.Saved.{IsSaved, reopened, new_peer_storage-IsSaved}
use talent_challenge.PeerStorage.Log.Spec.{Log, Represents, spec_append}
use talent_challenge.PeerStorage.Append.Refines.{truncate_and_append-Represents}
use talent_challenge.PeerStorage.Ready.{Ready, set_hard_state, save_ready_state}
use talent_challenge.PeerStorage.Ready.Steps.{
  base, installed_read, installed_index, IsReady, IsSavedButLocal, IsSavedButLocal-KeepsRest,
  write_local_state-IsSaved, install_step, voted_step,
}

module _ {DB : Type 0} (p : Pebble DB) (pb : Proto) (reliable : IsReliable p)
    (lossless : IsLosslessProto pb) where
  -- On a storage whose states are saved, `saveReadyState` returns without an error on every Ready
  -- that raft may hand over. The storage then represents the log that the Ready asks for, its hard
  -- state is the Ready's unless that is empty, all three states are saved again, and the user data
  -- and the applied index are those of the snapshot, if there is one, over the old.
  pub save_ready_state-IsSaved :
      (etcd : Etcd) (rd : Ready) (log : Log) (pairs : List Pair) (ps : PeerStorage DB)
      → Represents p pb ps log
      → IsSaved p pb ps
      → IsReady etcd rd log pairs
      → (ps' : PeerStorage DB) × (save_ready_state p pb etcd rd ps ≡ returns (none, ps'))
        × Represents p pb ps' (spec_append rd.entries (base etcd rd log))
        × IsSaved p pb ps'
        × (ps'.local_state.hard_state ≡ (
            if etcd.is_empty_hard_state rd.hard_state
            then ps.local_state.hard_state
            else rd.hard_state))
        × ((k : Bytes)
            → read_kv p k ps'.engines ≡ installed_read etcd rd pairs k (read_kv p k ps.engines))
        × (ps'.apply_state.apply_index ≡ installed_index etcd rd ps.apply_state.apply_index)
  unfolding save_ready_state read_kv
  save_ready_state-IsSaved etcd rd log pairs ps r s h =
      let start : IsSavedButLocal p pb reliable lossless ps = record {
        apply_state = s.apply_state;
        conf_state = s.conf_state;
      } in
      let (mid, installed, mid_log, mid_saved, mid_hard, mid_reads, mid_index) =
        install_step p pb reliable lossless etcd rd log pairs ps r start h in
      let log' = spec_append rd.entries (base etcd rd log) in
      let (grown, appended, grown_log, rest) =
        truncate_and_append-Represents p pb reliable lossless rd.entries mid (base etcd rd log)
          mid_log h.batch in
      let grown_saved = IsSavedButLocal-KeepsRest p pb reliable lossless mid grown mid_saved rest in
      let (voted_log, voted_saved, voted_hard, voted_engines, voted_apply) =
        voted_step p pb reliable lossless etcd rd.hard_state grown log' grown_log grown_saved in
      let (ps', written, r', s', local, apply, kv) =
        write_local_state-IsSaved p pb reliable lossless
          (set_hard_state p pb etcd rd.hard_state grown) log' voted_log voted_saved in
      (
        ps',
        ground (arith, installed, appended, written),
        r',
        s',
        ap (λ (l : RaftLocalState). l.hard_state) local
            ∙ voted_hard
            ∙ ap
                (λ (hs : HardState).
                  if etcd.is_empty_hard_state rd.hard_state then hs else rd.hard_state)
                (rest.hard_state ∙ mid_hard),
        λ k.
            ap (λ (d : DB). read p k d) (kv ∙ ap (λ (e : Engines DB). e.kv) voted_engines ∙ rest.kv)
            ∙ mid_reads k,
        ap (λ (a : RaftApplyState). a.apply_index) (apply ∙ voted_apply ∙ rest.apply_state)
            ∙ mid_index,
      )

  -- On a storage that represents a log and whose states are saved, `saveReadyState` returns without
  -- an error on every Ready that raft may hand over. The storage then represents the log that the
  -- Ready asks for, its hard state is the Ready's unless that is empty, all three states are saved
  -- again, and a restart brings back the same log and the same states.
  pub restart-save_ready_state :
      (etcd : Etcd) (rd : Ready) (log : Log) (pairs : List Pair) (ps : PeerStorage DB)
      → Represents p pb ps log
      → IsSaved p pb ps
      → IsReady etcd rd log pairs
      → (ps' ps'' : PeerStorage DB) × (save_ready_state p pb etcd rd ps ≡ returns (none, ps'))
        × Represents p pb ps' (spec_append rd.entries (base etcd rd log))
        × IsSaved p pb ps'
        × (ps'.local_state.hard_state ≡ (
            if etcd.is_empty_hard_state rd.hard_state
            then ps.local_state.hard_state
            else rd.hard_state))
        × (new_peer_storage p pb ps'.engines ≡ returns ps'')
        × Represents p pb ps'' (spec_append rd.entries (base etcd rd log))
        × (ps''.local_state ≡ ps'.local_state)
        × (ps''.apply_state ≡ ps'.apply_state)
        × (ps''.conf_state ≡ ps'.conf_state)
  restart-save_ready_state etcd rd log pairs ps r s h =
      let (ps', done, r', s', hard, reads, index) =
        save_ready_state-IsSaved etcd rd log pairs ps r s h in
      (
        ps',
        reopened p pb ps',
        done,
        r',
        s',
        hard,
        new_peer_storage-IsSaved p pb ps' s',
        record {
          offset = r'.offset;
          offset_term = r'.offset_term;
          last = r'.last;
          last_term = r'.last_term;
          consecutive = r'.consecutive;
          holds = r'.holds;
          bounded = r'.bounded;
        },
        refl,
        refl,
        refl,
      )
