-- ===== src/PeerStorage/Snapshots.antt =====
-- peer_storage.go: making a snapshot of the user data, handing it to raft, and installing one.
pub mod Installed
pub mod Delivered
use talent_challenge.Prelude.{
  ℕ, ◌+◌, Bool, true, false, Option, none, some, List, [], ◌∷◌, leb, ◌==◌, if◌then◌else◌,
}
use talent_challenge.Prelude.Outcome.{
  Error, Result, ok, err, Outcome, returns, ◌>>=◌, snapshot_temporarily_unavailable, no_snapshot,
}
use talent_challenge.Vendor.Pebble.{Pebble}
use talent_challenge.Storage.Modify
use talent_challenge.Storage.Engines.{write_kv, kv_snapshot}
use talent_challenge.Storage.Pair.{Pair, decode}
use talent_challenge.Messages.{Snapshot, SnapshotMetadata, Proto, empty_conf_state}
use talent_challenge.PeerStorage.State.{
  PeerStorage, SnapState, Etcd, generating, relaxed, applying, applied_index, truncate_index,
  write_apply_state, write_conf_state,
}
use talent_challenge.PeerStorage.Log.{term}

abbrev default_snap_tried_cnt : ℕ
default_snap_tried_cnt = 5

-- `var snapshot raftpb.Snapshot`
abbrev pub no_data : Snapshot
no_data = record {
  payload = [];
  metadata = record { conf_state = empty_conf_state; index = 0; term = 0 };
}

unfoldable pub snapshot_valid : {DB : Type 0} → Snapshot → PeerStorage DB → Bool
unfolding truncate_index
snapshot_valid snapshot ps = leb (truncate_index ps) snapshot.metadata.index

-- What a call of `Snapshot` returns, with the channel that it hands to a new goroutine.
pub record Call (DB : Type 0) : Type 0 where
  pub snapshot : Snapshot
  pub error : Option Error
  pub spawned : Option ℕ
  pub storage : PeerStorage DB

module _ {DB : Type 0} where
  -- The part of `Snapshot` below its first `if`.
  unfoldable pub try_again : Snapshot → PeerStorage DB → Call DB
  try_again snapshot ps =
      if leb default_snap_tried_cnt ps.snap_tried_cnt
      then (let reset : PeerStorage DB = record ps { snap_tried_cnt = 0 } in
          record {
            snapshot = snapshot;
            error = some (no_snapshot reset.snap_tried_cnt);
            spawned = none;
            storage = reset;
          })
      else record {
        snapshot = snapshot;
        error = some snapshot_temporarily_unavailable;
        spawned = some ps.next_chan;
        storage = record ps {
          snap_tried_cnt = ps.snap_tried_cnt + 1;
          snap_state = record { state_type = generating; receiver = some ps.next_chan };
          next_chan = ps.next_chan + 1;
        };
      }

  -- A channel that has been made and holds a value gives it up; any other would block.
  unfoldable pub receive : Option ℕ → PeerStorage DB → Option Snapshot × PeerStorage DB
  receive none ps = (none, ps)
  receive (some chan) ps =
      (ps.buffers chan, record ps { buffers = λ c. if c == chan then none else ps.buffers c })

  unfoldable pub snapshot : Etcd → PeerStorage DB → Call DB
  unfolding try_again receive snapshot_valid
  snapshot etcd ps =
      let (received, ps') = receive ps.snap_state.receiver ps in
      elim ps.snap_state.state_type [
        | generating ↦ elim received [
          | none ↦ record {
            snapshot = no_data;
            error = some snapshot_temporarily_unavailable;
            spawned = none;
            storage = ps;
          }
          | some s ↦
              let calm : PeerStorage DB = record ps' {
                snap_state = record ps'.snap_state { state_type = relaxed };
              } in
              if etcd.is_empty_snap s
              then try_again s calm
              else (let fresh : PeerStorage DB = record calm { snap_tried_cnt = 0 } in
                  if snapshot_valid s fresh
                  then record { snapshot = s; error = none; spawned = none; storage = fresh }
                  else try_again s fresh)
        ]
        | _ ↦ try_again no_data ps
      ]

module _ {DB : Type 0} (p : Pebble DB) (pb : Proto) where
  -- The goroutine that `Snapshot` starts; the error of `Term` is dropped.
  unfoldable pub sched_snap_gen : ℕ → PeerStorage DB → PeerStorage DB
  unfolding applied_index
  sched_snap_gen sender ps =
      let made : Snapshot = record {
        payload = kv_snapshot p ps.engines;
        metadata = record {
          conf_state = ps.conf_state;
          index = applied_index ps;
          term = elim (term p pb (applied_index ps) ps) [ ok t ↦ t | err e ↦ 0 ];
        };
      } in
      record ps { buffers = λ c. if c == sender then some made else ps.buffers c }

  -- The loop over the decoded pairs; the errors of the writes are dropped.
  unfoldable pub put_pairs : List Pair → PeerStorage DB → PeerStorage DB
  put_pairs [] ps = ps
  put_pairs (pair ∷ pairs) ps =
      let r = write_kv p (Modify.put_data pair.key pair.val true) ps.engines in
      put_pairs pairs (record ps { engines = r.1 })

  unfoldable pub apply_snapshot : Snapshot → PeerStorage DB → Outcome (PeerStorage DB)
  apply_snapshot s ps = do
    let meta = s.metadata
    let moved : PeerStorage DB = record ps {
      local_state = record ps.local_state { last_index = meta.index; last_term = meta.term };
      apply_state = record {
        apply_index = meta.index;
        truncated_state = record { index = meta.index; term = meta.term };
      };
    }
    r ← write_apply_state p pb moved
    let configured : PeerStorage DB = record r.1 { conf_state = meta.conf_state }
    r' ← write_conf_state p pb configured
    let ready : PeerStorage DB = record r'.1 {
      snap_state = record r'.1.snap_state { state_type = applying };
    }
    pairs ← decode s.payload
    returns (put_pairs pairs ready)
