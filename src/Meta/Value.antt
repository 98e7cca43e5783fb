-- ===== src/Meta/Value.antt =====
-- meta/value.go: reading the stored states back, with what stands for a state never stored.
use talent_challenge.Prelude.{Bool, true, false, Option, none, some, if◌then◌else◌}
use talent_challenge.Prelude.Outcome.{
  Error, Result, ok, err, Outcome, returns, panics, not_found, bad_message,
}
use talent_challenge.Prelude.Bytes.{Bytes}
use talent_challenge.Vendor.Pebble.{Pebble}
use talent_challenge.Vendor.Codec.{Codec}
use talent_challenge.Storage.Engines.{Engines, read_meta, bytes_of}
use talent_challenge.Messages.{
  RaftLocalState, RaftApplyState, ConfState, Proto, empty_hard_state, empty_conf_state,
}
use talent_challenge.Meta.Key.{raft_local_state_key, raft_apply_state_key, raft_conf_state_key}

-- `err == storage.ErrNotFound`
abbrev pub is_not_found : Error → Bool
is_not_found not_found = true
is_not_found _ = false

-- `proto.Unmarshal(value, msg)` with its error
abbrev pub parse_as : {A : Type 0} → Codec A → Option Bytes → Result A
parse_as c value = elim (c.unmarshal (bytes_of value)) [ none ↦ err bad_message | some a ↦ ok a ]

abbrev pub init_state : {A : Type 0} → Result A → Outcome A
init_state (ok a) = returns a
init_state (err e) = panics

-- The body that the three `Get` functions share.
abbrev get_state : {A : Type 0} → Codec A → A → Result (Option Bytes) → Result A
get_state c unset (ok value) = parse_as c value
get_state c unset (err e) = if is_not_found e then ok unset else err e

module _ {DB : Type 0} (p : Pebble DB) (pb : Proto) where
  unfoldable pub get_raft_local_state : Engines DB → Result RaftLocalState
  get_raft_local_state engines =
      let unset : RaftLocalState = record {
        hard_state = empty_hard_state;
        last_index = 0;
        last_term = 0;
      } in
      get_state pb.local_state unset (read_meta p raft_local_state_key engines)

  unfoldable pub init_raft_local_state : Engines DB → Outcome RaftLocalState
  init_raft_local_state engines = init_state (get_raft_local_state engines)

  unfoldable pub get_raft_apply_state : Engines DB → Result RaftApplyState
  get_raft_apply_state engines =
      let unset : RaftApplyState = record {
        apply_index = 0;
        truncated_state = record { index = 0; term = 0 };
      } in
      get_state pb.apply_state unset (read_meta p raft_apply_state_key engines)

  unfoldable pub init_raft_apply_state : Engines DB → Outcome RaftApplyState
  init_raft_apply_state engines = init_state (get_raft_apply_state engines)

  unfoldable pub get_raft_conf_state : Engines DB → Result ConfState
  get_raft_conf_state engines =
      get_state pb.conf_state empty_conf_state (read_meta p raft_conf_state_key engines)

  unfoldable pub init_raft_conf_state : Engines DB → Outcome ConfState
  init_raft_conf_state engines = init_state (get_raft_conf_state engines)
