-- ===== src/PeerStorage/State/Saved.antt =====
-- The three states of peer_storage.go against what the metadata holds of them: a storage whose
-- states are saved comes back when its engines are opened again.
use talent_challenge.Prelude.{◌≡◌, none, arith}
use talent_challenge.Prelude.Outcome.{ok, returns}
use talent_challenge.Prelude.Bytes.{bytes_eq_refl}
use talent_challenge.Vendor.Pebble.{Pebble, IsReliable}
use talent_challenge.Storage.Engines.{Engines, read_meta}
use talent_challenge.Messages.{Proto, IsLosslessProto, RaftLocalState, RaftApplyState, ConfState}
use talent_challenge.Meta.Key.{raft_local_state_key, raft_apply_state_key, raft_conf_state_key}
use talent_challenge.Meta.Value.{
  get_raft_local_state, get_raft_apply_state, get_raft_conf_state, init_raft_local_state,
  init_raft_apply_state, init_raft_conf_state,
}
use talent_challenge.PeerStorage.State.{PeerStorage, relaxed, new_peer_storage}
use talent_challenge.PeerStorage.State.Writes.{with_meta, read_meta-with_meta, parse_as-shown}

module _ {DB : Type 0} (p : Pebble DB) (pb : Proto) where
  pub record IsSaved (ps : PeerStorage DB) : Type 0 where
    pub local_state : get_raft_local_state p pb ps.engines ≡ ok ps.local_state
    pub apply_state : get_raft_apply_state p pb ps.engines ≡ ok ps.apply_state
    pub conf_state : get_raft_conf_state p pb ps.engines ≡ ok ps.conf_state

  -- What `newPeerStorage` makes of the engines: the saved states, and a fresh snapshot state.
  abbrev pub reopened : PeerStorage DB → PeerStorage DB
  reopened ps = record ps {
    snap_state = record { state_type = relaxed; receiver = none };
    snap_tried_cnt = 0;
    next_chan = 0;
    buffers = λ c. none;
  }

  pub new_peer_storage-IsSaved :
      (ps : PeerStorage DB) → IsSaved ps → new_peer_storage p pb ps.engines ≡ returns (reopened ps)
  unfolding new_peer_storage init_raft_local_state init_raft_apply_state init_raft_conf_state
  new_peer_storage-IsSaved ps h = rw (h.local_state, h.apply_state, h.conf_state)

module _ {DB : Type 0} (p : Pebble DB) (pb : Proto) (reliable : IsReliable p)
    (lossless : IsLosslessProto pb) where
  pub get_local-saved :
      (a : RaftLocalState) (engines : Engines DB)
      → get_raft_local_state p pb
          (with_meta p raft_local_state_key (lossless.local_state.round_trip a).0 engines)
        ≡ ok a
  unfolding get_raft_local_state
  get_local-saved a engines =
      let (b, marshalled, back) = lossless.local_state.round_trip a in
      ground (
        arith,
        read_meta-with_meta p pb reliable raft_local_state_key b engines raft_local_state_key,
        bytes_eq_refl raft_local_state_key,
        parse_as-shown pb.local_state a b back,
      )

  pub get_apply-saved :
      (a : RaftApplyState) (engines : Engines DB)
      → get_raft_apply_state p pb
          (with_meta p raft_apply_state_key (lossless.apply_state.round_trip a).0 engines)
        ≡ ok a
  unfolding get_raft_apply_state
  get_apply-saved a engines =
      let (b, marshalled, back) = lossless.apply_state.round_trip a in
      ground (
        arith,
        read_meta-with_meta p pb reliable raft_apply_state_key b engines raft_apply_state_key,
        bytes_eq_refl raft_apply_state_key,
        parse_as-shown pb.apply_state a b back,
      )

  pub get_conf-saved :
      (a : ConfState) (engines : Engines DB)
      → get_raft_conf_state p pb
          (with_meta p raft_conf_state_key (lossless.conf_state.round_trip a).0 engines)
        ≡ ok a
  unfolding get_raft_conf_state
  get_conf-saved a engines =
      let (b, marshalled, back) = lossless.conf_state.round_trip a in
      ground (
        arith,
        read_meta-with_meta p pb reliable raft_conf_state_key b engines raft_conf_state_key,
        bytes_eq_refl raft_conf_state_key,
        parse_as-shown pb.conf_state a b back,
      )

module _ {DB : Type 0} (p : Pebble DB) (pb : Proto) where
  -- A state is read alike from engines that agree on its key.
  pub get_local-agree :
      (a b : Engines DB)
      → read_meta p raft_local_state_key a ≡ read_meta p raft_local_state_key b
      → get_raft_local_state p pb a ≡ get_raft_local_state p pb b
  unfolding get_raft_local_state
  get_local-agree a b h = ground (arith, h)

  pub get_apply-agree :
      (a b : Engines DB)
      → read_meta p raft_apply_state_key a ≡ read_meta p raft_apply_state_key b
      → get_raft_apply_state p pb a ≡ get_raft_apply_state p pb b
  unfolding get_raft_apply_state
  get_apply-agree a b h = ground (arith, h)

  pub get_conf-agree :
      (a b : Engines DB)
      → read_meta p raft_conf_state_key a ≡ read_meta p raft_conf_state_key b
      → get_raft_conf_state p pb a ≡ get_raft_conf_state p pb b
  unfolding get_raft_conf_state
  get_conf-agree a b h = ground (arith, h)
