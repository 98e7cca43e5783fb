-- ===== src/PeerStorage/Ready/Steps.antt =====
-- The steps of `saveReadyState` of peer_storage.go, one by one.
use talent_challenge.Prelude.{
  ℕ, ◌+◌, ◌^◌, ◌<◌, ◌≡◌, refl, sym, ap, ◌∙◌, false, Option, none, List, All, arith, if◌then◌else◌,
  Bool-cases, inl, inr,
}
use talent_challenge.Prelude.Outcome.{Result, returns, ok}
use talent_challenge.Prelude.Bytes.{Bytes, bytes_eq}
use talent_challenge.Vendor.Pebble.{Pebble, IsReliable}
use talent_challenge.Storage.Pair.{Pair, encode}
use talent_challenge.Storage.Pair.RoundTrip.{Fits}
use talent_challenge.Storage.Engines.{read, read_meta, read_kv}
use talent_challenge.Messages.{Snapshot, Proto, IsLosslessProto, HardState, RaftApplyState}
use talent_challenge.Meta.Key.{
  raft_log_entry_key, raft_local_state_key, raft_apply_state_key, raft_conf_state_key, local_entry,
  local_apply, local_conf, conf_apply, entry_apply, entry_conf,
}
use talent_challenge.Meta.Value.{get_raft_apply_state, get_raft_conf_state}
use talent_challenge.PeerStorage.State.{PeerStorage, Etcd, write_local_state}
use talent_challenge.PeerStorage.State.Writes.{
  with_meta, put_meta-returns, read_meta-with_meta, read_entry-with_meta_other,
}
use talent_challenge.PeerStorage.State.Saved.{
  IsSaved, get_local-saved, get_apply-saved, get_conf-saved, get_apply-agree, get_conf-agree,
}
use talent_challenge.PeerStorage.Log.Spec.{Log, Represents, IsBatch}
use talent_challenge.PeerStorage.Append.Writes.{Holds-agree}
use talent_challenge.PeerStorage.Append.Refines.{KeepsRest}
use talent_challenge.PeerStorage.Snapshots.{apply_snapshot}
use talent_challenge.PeerStorage.Snapshots.Installed.{
  latest, overlay, log_behind, installed_state, states_written, apply_snapshot-returns,
}
use talent_challenge.PeerStorage.Ready.{Ready, set_hard_state}

-- The log that the entries of a Ready are appended to.
abbrev pub base : Etcd → Ready → Log → Log
base etcd rd log = if etcd.is_empty_snap rd.snapshot then log else log_behind rd.snapshot

-- What a read of user data gives behind the snapshot of a Ready, if it has one
abbrev pub installed_read :
    Etcd → Ready → List Pair → Bytes → Result (Option Bytes) → Result (Option Bytes)
installed_read etcd rd pairs k old =
    if etcd.is_empty_snap rd.snapshot then old else overlay (latest k pairs) old

-- The applied index behind the snapshot of a Ready, if it has one
abbrev pub installed_index : Etcd → Ready → ℕ → ℕ
installed_index etcd rd old =
    if etcd.is_empty_snap rd.snapshot then old else rd.snapshot.metadata.index

-- What raft hands over: a snapshot that another peer has encoded, or none, and entries that
-- leave no gap behind the log.
pub record IsReady (etcd : Etcd) (rd : Ready) (log : Log) (pairs : List Pair) : Type 0 where
  pub install :
      etcd.is_empty_snap rd.snapshot ≡ false
      → (rd.snapshot.metadata.index + 1 < 2 ^ 64)
        × All Fits pairs
        × (rd.snapshot.payload ≡ encode pairs)
  pub batch : IsBatch rd.entries (base etcd rd log)

module _ {DB : Type 0} (p : Pebble DB) (pb : Proto) (reliable : IsReliable p)
    (lossless : IsLosslessProto pb) where
  -- A write of a state under its own key keeps the log.
  pub Represents-with_meta :
      (key b : Bytes) (ps : PeerStorage DB) (log : Log)
      → ((i : ℕ) → bytes_eq key (raft_log_entry_key i) ≡ false)
      → Represents p pb ps log
      → Represents p pb (record ps { engines = with_meta p key b ps.engines }) log
  Represents-with_meta key b ps log other r = record {
    offset = r.offset;
    offset_term = r.offset_term;
    last = r.last;
    last_term = r.last_term;
    consecutive = r.consecutive;
    holds =
        Holds-agree p pb reliable lossless log.items (log.offset + 1) (with_meta p key b ps.engines)
          ps.engines
          (λ j lo hi. read_entry-with_meta_other p pb reliable key b ps.engines j (other j))
          r.holds;
    bounded = r.bounded;
  }

  -- The apply state and the configuration are saved; the local state may have moved on.
  pub record IsSavedButLocal (ps : PeerStorage DB) : Type 0 where
    pub apply_state : get_raft_apply_state p pb ps.engines ≡ ok ps.apply_state
    pub conf_state : get_raft_conf_state p pb ps.engines ≡ ok ps.conf_state

  pub IsSavedButLocal-KeepsRest :
      (ps ps' : PeerStorage DB) → IsSavedButLocal ps → KeepsRest p ps ps' → IsSavedButLocal ps'
  IsSavedButLocal-KeepsRest ps ps' s k = record {
    apply_state =
        get_apply-agree p pb ps'.engines ps.engines (k.state_keys raft_apply_state_key entry_apply)
        ∙ s.apply_state
        ∙ ap ok (sym k.apply_state);
    conf_state =
        get_conf-agree p pb ps'.engines ps.engines (k.state_keys raft_conf_state_key entry_conf)
        ∙ s.conf_state
        ∙ ap ok (sym k.conf_state);
  }

  -- The local state is saved behind the others.
  pub write_local_state-IsSaved :
      (ps : PeerStorage DB) (log : Log)
      → Represents p pb ps log
      → IsSavedButLocal ps
      → (ps' : PeerStorage DB) × (write_local_state p pb ps ≡ returns (none, ps'))
        × Represents p pb ps' log
        × IsSaved p pb ps'
        × (ps'.local_state ≡ ps.local_state)
        × (ps'.apply_state ≡ ps.apply_state)
        × (ps'.engines.kv ≡ ps.engines.kv)
  unfolding write_local_state
  write_local_state-IsSaved ps log r s =
      let b = (lossless.local_state.round_trip ps.local_state).0 in
      let key = raft_local_state_key in
      (
        record ps { engines = with_meta p key b ps.engines },
        put_meta-returns p pb reliable pb.local_state lossless.local_state key ps.local_state ps,
        Represents-with_meta key b ps log local_entry r,
        record {
          local_state = get_local-saved p pb reliable lossless ps.local_state ps.engines;
          apply_state =
              get_apply-agree p pb (with_meta p key b ps.engines) ps.engines (
                ground (
                  arith,
                  read_meta-with_meta p pb reliable key b ps.engines raft_apply_state_key,
                  local_apply,
                ))
              ∙ s.apply_state;
          conf_state =
              get_conf-agree p pb (with_meta p key b ps.engines) ps.engines (
                ground (
                  arith,
                  read_meta-with_meta p pb reliable key b ps.engines raft_conf_state_key,
                  local_conf,
                ))
              ∙ s.conf_state;
        },
        refl,
        refl,
        refl,
      )

  IsSavedButLocal-states_written :
      (s : Snapshot) (ps mid : PeerStorage DB)
      → mid.apply_state ≡ installed_state s
      → mid.conf_state ≡ s.metadata.conf_state
      → mid.engines.meta ≡ (states_written p pb reliable lossless s ps).meta
      → IsSavedButLocal mid
  unfolding read_meta
  IsSavedButLocal-states_written s ps mid apply conf meta =
      let engines = states_written p pb reliable lossless s ps in
      let b = (lossless.apply_state.round_trip (installed_state s)).0 in
      let c = (lossless.conf_state.round_trip s.metadata.conf_state).0 in
      let inner = with_meta p raft_apply_state_key b ps.engines in
      record {
        apply_state =
            get_apply-agree p pb mid.engines engines
              (ap (λ (d : DB). read p raft_apply_state_key d) meta)
            ∙ get_apply-agree p pb engines inner (
                ground (
                  arith,
                  read_meta-with_meta p pb reliable raft_conf_state_key c inner
                      raft_apply_state_key,
                  conf_apply,
                ))
            ∙ get_apply-saved p pb reliable lossless (installed_state s) ps.engines
            ∙ ap ok (sym apply);
        conf_state =
            get_conf-agree p pb mid.engines engines
              (ap (λ (d : DB). read p raft_conf_state_key d) meta)
            ∙ get_conf-saved p pb reliable lossless s.metadata.conf_state inner
            ∙ ap ok (sym conf);
      }

  -- The first step: the snapshot of the Ready is installed, if it has one.
  pub install_step :
      (etcd : Etcd) (rd : Ready) (log : Log) (pairs : List Pair) (ps : PeerStorage DB)
      → Represents p pb ps log
      → IsSavedButLocal ps
      → IsReady etcd rd log pairs
      → (mid : PeerStorage DB) × ((if etcd.is_empty_snap rd.snapshot
            then returns ps
            else apply_snapshot p pb rd.snapshot ps)
          ≡ returns mid)
        × Represents p pb mid (base etcd rd log)
        × IsSavedButLocal mid
        × (mid.local_state.hard_state ≡ ps.local_state.hard_state)
        × ((k : Bytes)
            → read_kv p k mid.engines ≡ installed_read etcd rd pairs k (read_kv p k ps.engines))
        × (mid.apply_state.apply_index ≡ installed_index etcd rd ps.apply_state.apply_index)
  install_step etcd rd log pairs ps r s h = elim (Bool-cases (etcd.is_empty_snap rd.snapshot)) [
    | inl empty ↦ (ps, rw empty, rw empty r, s, refl, λ k. rw empty refl, rw empty refl)
    | inr full ↦
        let (small, fits, payload) = h.install full in
        let (mid, done, log', applied, conf, hard, meta, reads) =
          apply_snapshot-returns p pb reliable lossless rd.snapshot pairs ps small fits payload in
        (
          mid,
          rw full done,
          rw full log',
          IsSavedButLocal-states_written rd.snapshot ps mid applied conf meta,
          hard,
          λ k. rw full (reads k),
          rw full (ap (λ (a : RaftApplyState). a.apply_index) applied),
        )
  ]

  -- The hard state of the Ready is taken over unless it is empty.
  pub voted_step :
      (etcd : Etcd) (hs : HardState) (ps : PeerStorage DB) (log : Log)
      → Represents p pb ps log
      → IsSavedButLocal ps
      → Represents p pb (set_hard_state p pb etcd hs ps) log
        × IsSavedButLocal (set_hard_state p pb etcd hs ps)
        × ((set_hard_state p pb etcd hs ps).local_state.hard_state
            ≡ (if etcd.is_empty_hard_state hs then ps.local_state.hard_state else hs))
        × ((set_hard_state p pb etcd hs ps).engines ≡ ps.engines)
        × ((set_hard_state p pb etcd hs ps).apply_state ≡ ps.apply_state)
  voted_step etcd hs ps log r s = elim (Bool-cases (etcd.is_empty_hard_state hs)) [
    | inl empty ↦ rw empty (r, s, refl, refl, refl)
    | inr full ↦ rw full (
      record {
        offset = r.offset;
        offset_term = r.offset_term;
        last = r.last;
        last_term = r.last_term;
        consecutive = r.consecutive;
        holds = r.holds;
        bounded = r.bounded;
      },
      record { apply_state = s.apply_state; conf_state = s.conf_state },
      refl,
      refl,
      refl,
    )
  ]
