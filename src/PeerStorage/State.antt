-- ===== src/PeerStorage/State.antt =====
-- peer_storage.go: the state of a peer's storage, how it is opened, and its writes of metadata.
-- An error that a caller drops is still a result of the callee.
pub mod Writes
pub mod Saved
use talent_challenge.Prelude.{
  ℕ, zero, ◌+◌, ◌%◌, ◌^◌, Bool, true, Option, none, some, List, [], ◌∷◌, ◌&&◌, length, ◌==◌,
}
use talent_challenge.Prelude.Outcome.{Error, Outcome, returns, ◌>>=◌}
use talent_challenge.Prelude.Bytes.{Bytes}
use talent_challenge.Vendor.Pebble.{Pebble}
use talent_challenge.Vendor.Codec.{Codec}
use talent_challenge.Storage.Modify
use talent_challenge.Storage.Engines.{Engines, write_meta}
use talent_challenge.Messages.{
  RaftLocalState, RaftApplyState, ConfState, HardState, Snapshot, Entry, Proto, empty_hard_state,
  empty_conf_state,
}
use talent_challenge.Meta.Key.{
  raft_local_state_key, raft_apply_state_key, raft_conf_state_key, raft_log_entry_key,
}
use talent_challenge.Meta.Value.{init_raft_local_state, init_raft_apply_state, init_raft_conf_state}

-- The functions of etcd's raft package that test for an empty value.
pub record Etcd : Type 0 where
  pub is_empty_hard_state : HardState → Bool
  pub is_empty_snap : Snapshot → Bool

-- snap/snapshot.go
pub data SnapStateType : Type 0 where
  generating relaxed applying : SnapStateType

-- `receiver` names a channel; nil is `none`.
pub record SnapState : Type 0 where
  pub state_type : SnapStateType
  pub receiver : Option ℕ

-- The channels that `Snapshot` has made are numbered below `next_chan`; `buffers` holds what has
-- been sent to each and not received.
pub record PeerStorage (DB : Type 0) : Type 0 where
  pub engines : Engines DB
  pub local_state : RaftLocalState
  pub apply_state : RaftApplyState
  pub conf_state : ConfState
  pub snap_state : SnapState
  pub snap_tried_cnt : ℕ
  pub next_chan : ℕ
  pub buffers : ℕ → Option Snapshot

-- uint64 arithmetic
abbrev pub u64 : ℕ → ℕ
u64 n = n % 2 ^ 64

-- util.go
unfoldable pub is_empty_conf_state : ConfState → Bool
is_empty_conf_state c =
    length c.voters == 0
    && (length c.voters_outgoing == 0 && (length c.learners == 0 && length c.learners_next == 0))

module _ {DB : Type 0} where
  unfoldable pub applied_index : PeerStorage DB → ℕ
  applied_index ps = ps.apply_state.apply_index

  unfoldable pub truncate_index : PeerStorage DB → ℕ
  truncate_index ps = ps.apply_state.truncated_state.index

  unfoldable pub truncate_term : PeerStorage DB → ℕ
  truncate_term ps = ps.apply_state.truncated_state.term

  unfoldable pub last_index : PeerStorage DB → ℕ
  last_index ps = ps.local_state.last_index

  unfoldable pub first_index : PeerStorage DB → ℕ
  unfolding truncate_index
  first_index ps = u64 (truncate_index ps + 1)

module _ {DB : Type 0} (p : Pebble DB) (pb : Proto) where
  -- `newPeerStorage`, on engines that are open
  unfoldable pub new_peer_storage : Engines DB → Outcome (PeerStorage DB)
  new_peer_storage engines = do
    local_state ← init_raft_local_state p pb engines
    apply_state ← init_raft_apply_state p pb engines
    conf_state ← init_raft_conf_state p pb engines
    returns (record {
      engines = engines;
      local_state = local_state;
      apply_state = apply_state;
      conf_state = conf_state;
      snap_state = record { state_type = relaxed; receiver = none };
      snap_tried_cnt = 0;
      next_chan = 0;
      buffers = λ c. none;
    })

  unfoldable pub put_meta :
      {A : Type 0} → Codec A → Bytes → A → PeerStorage DB → Outcome (Option Error × PeerStorage DB)
  unfolding Modify.put_meta write_meta
  put_meta c key msg ps = do
    modify ← Modify.put_meta c key msg true
    let r = write_meta p modify ps.engines
    returns (r.0, record ps { engines = r.1 })

  -- The message that `deleteMeta` is given is not used.
  unfoldable pub delete_meta : Bytes → PeerStorage DB → Option Error × PeerStorage DB
  unfolding Modify.delete_meta write_meta
  delete_meta key ps =
      let r = write_meta p (Modify.delete_meta key true) ps.engines in
      (r.0, record ps { engines = r.1 })

  unfoldable pub write_local_state : PeerStorage DB → Outcome (Option Error × PeerStorage DB)
  write_local_state ps = put_meta pb.local_state raft_local_state_key ps.local_state ps

  unfoldable pub write_apply_state : PeerStorage DB → Outcome (Option Error × PeerStorage DB)
  write_apply_state ps = put_meta pb.apply_state raft_apply_state_key ps.apply_state ps

  unfoldable pub write_conf_state : PeerStorage DB → Outcome (Option Error × PeerStorage DB)
  write_conf_state ps = put_meta pb.conf_state raft_conf_state_key ps.conf_state ps

  -- The loops of `appendLogEntries` and `deleteLogEntries` end at the first error.
  unfoldable pub append_log_entries :
      List Entry → PeerStorage DB → Outcome (Option Error × PeerStorage DB)
  append_log_entries [] ps = returns (none, ps)
  append_log_entries (ent ∷ ents) ps = do
    r ← put_meta pb.entry (raft_log_entry_key ent.index) ent ps
    elim r.0 [ none ↦ append_log_entries ents r.1 | some e ↦ returns (some e, r.1) ]

  unfoldable pub delete_log_entries : List Entry → PeerStorage DB → Option Error × PeerStorage DB
  delete_log_entries [] ps = (none, ps)
  delete_log_entries (ent ∷ ents) ps =
      let r = delete_meta (raft_log_entry_key ent.index) ps in
      elim r.0 [ none ↦ delete_log_entries ents r.1 | some e ↦ (some e, r.1) ]

module _ (etcd : Etcd) {DB : Type 0} where
  -- `InitialState`; its error is always nil.
  unfoldable pub initial_state : PeerStorage DB → HardState × ConfState
  initial_state ps = (
    elim (etcd.is_empty_hard_state ps.local_state.hard_state) [
      | true ↦ empty_hard_state
      | _ ↦ ps.local_state.hard_state
    ],
    elim (is_empty_conf_state ps.conf_state) [ true ↦ empty_conf_state | _ ↦ ps.conf_state ],
  )
