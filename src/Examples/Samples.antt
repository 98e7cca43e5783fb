-- ===== src/Examples/Samples.antt =====
-- A storage with a compacted prefix of three entries and two more, as in peer_storage_test.go,
-- over the reference database.
use talent_challenge.Prelude.{ℕ, refl, none, List, [], ◌∷◌, arith, ◌==◌}
use talent_challenge.Prelude.Bytes.{bytes_eq, le_bytes}
use talent_challenge.Vendor.Pebble.{Item}
use talent_challenge.Vendor.Reference.{list_db}
use talent_challenge.Storage.Engines.{read, read_meta}
use talent_challenge.Messages.{
  Entry, empty_hard_state, empty_conf_state, RaftCmdRequest, RaftLocalState, RaftApplyState,
}
use talent_challenge.Meta.Key.{
  raft_log_entry_key, raft_local_state_key, raft_apply_state_key, raft_conf_state_key,
}
use talent_challenge.Meta.Value.{get_raft_local_state, get_raft_apply_state, get_raft_conf_state}
use talent_challenge.PeerStorage.State.{PeerStorage, Etcd, relaxed}
use talent_challenge.PeerStorage.State.Saved.{IsSaved}
use talent_challenge.PeerStorage.Log.{read_entry}
use talent_challenge.PeerStorage.Log.Spec.{Log, Represents}
use talent_challenge.Examples.Codecs.{
  proto, entry_format, local_state_format, apply_state_format, command_format,
}

abbrev pub Db : Type 0
Db = List Item

abbrev pub entry : ℕ → ℕ → Entry
entry t i = record { term = t; index = i; entry_type = 0; payload = [] }

abbrev stored : Entry → Item
stored e = (raft_log_entry_key e.index, entry_format.print e [])

abbrev pub local_state : RaftLocalState
local_state = record { hard_state = empty_hard_state; last_index = 5; last_term = 5 }

abbrev pub apply_state : RaftApplyState
apply_state = record { apply_index = 5; truncated_state = record { index = 3; term = 3 } }

abbrev pub ps : PeerStorage Db
ps = record {
  engines = record {
    kv = (b'a' ∷ [], b'x' ∷ []) ∷ (b'b' ∷ [], b'y' ∷ []) ∷ [];
    meta =
        (raft_local_state_key, local_state_format.print local_state [])
        ∷ (raft_apply_state_key, apply_state_format.print apply_state [])
        ∷ stored (entry 4 4)
        ∷ stored (entry 5 5)
        ∷ [];
  };
  local_state = local_state;
  apply_state = apply_state;
  conf_state = empty_conf_state;
  snap_state = record { state_type = relaxed; receiver = none };
  snap_tried_cnt = 0;
  next_chan = 0;
  buffers = λ c. none;
}

abbrev pub log : Log
log = record { offset = 3; offset_term = 3; items = entry 4 4 ∷ entry 5 5 ∷ [] }

pub ps-Represents : Represents list_db proto ps log
unfolding read_entry read_meta read list_db raft_log_entry_key raft_local_state_key
    raft_apply_state_key bytes_eq le_bytes
ps-Represents = record {
  offset = refl;
  offset_term = refl;
  last = refl;
  last_term = refl;
  consecutive = (refl, (refl, tt));
  holds = (refl, (refl, tt));
  bounded = omega arith;
}

pub ps-IsSaved : IsSaved list_db proto ps
unfolding get_raft_local_state get_raft_apply_state get_raft_conf_state read_meta read list_db
    raft_log_entry_key raft_local_state_key raft_apply_state_key raft_conf_state_key bytes_eq
    le_bytes
ps-IsSaved = record { local_state = refl; apply_state = refl; conf_state = refl }

-- The emptiness tests as the raft library documents them.
abbrev pub etcd : Etcd
etcd = record { is_empty_hard_state = λ h. h.term == 0; is_empty_snap = λ s. s.metadata.index == 0 }

-- An entry whose payload is a marshalled command.
abbrev pub carrying : ℕ → ℕ → RaftCmdRequest → Entry
carrying t i cmd = record {
  term = t;
  index = i;
  entry_type = 0;
  payload = command_format.print cmd [];
}
