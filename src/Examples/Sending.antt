-- ===== src/Examples/Sending.antt =====
-- The theorems on making a snapshot at the sample storage.
use talent_challenge.Prelude.{◌+◌, ◌≤◌, ◌<◌, ◌≡◌, ◌≢◌, refl, false, none, some, arith}
use talent_challenge.Prelude.Outcome.{snapshot_temporarily_unavailable, no_snapshot}
use talent_challenge.Vendor.Reference.{list_db}
use talent_challenge.PeerStorage.State.{PeerStorage, relaxed, applied_index, truncate_index}
use talent_challenge.PeerStorage.Snapshots.{snapshot, try_again, sched_snap_gen}
use talent_challenge.PeerStorage.Snapshots.Delivered.{
  generated, snapshot-sched_snap_gen, snapshot_error_count,
}
use talent_challenge.Examples.Codecs.{proto}
use talent_challenge.Examples.Samples.{Db, ps, etcd}

-- The storage when the goroutine is done.
later : PeerStorage Db
later = sched_snap_gen list_db proto 0 (snapshot etcd ps).storage

later_state : later.snap_state ≡ (snapshot etcd ps).storage.snap_state
unfolding later sched_snap_gen
later_state = refl

later_buffer :
    later.buffers 0 ≡ (sched_snap_gen list_db proto 0 (snapshot etcd ps).storage).buffers 0
unfolding later
later_buffer = refl

generated_full : etcd.is_empty_snap (generated list_db proto (snapshot etcd ps).storage) ≡ false
unfolding snapshot try_again
generated_full = refl

snapshot-sched_snap_gen_example :
    ((snapshot etcd ps).error ≡ some snapshot_temporarily_unavailable)
    × ((snapshot etcd ps).spawned ≡ some 0)
    × (truncate_index later ≤ applied_index (snapshot etcd ps).storage
        → ((snapshot etcd later).error ≡ none)
          × ((snapshot etcd later).snapshot ≡ generated list_db proto (snapshot etcd ps).storage)
          × ((snapshot etcd later).spawned ≡ none)
          × ((snapshot etcd later).storage.snap_state.state_type ≡ relaxed)
          × ((snapshot etcd later).storage.snap_tried_cnt ≡ 0))
    × (applied_index (snapshot etcd ps).storage < truncate_index later
        → ((snapshot etcd later).error ≡ some snapshot_temporarily_unavailable)
          × ((snapshot etcd later).spawned ≡ some later.next_chan)
          × ((snapshot etcd later).storage.snap_tried_cnt ≡ 1))
snapshot-sched_snap_gen_example =
    snapshot-sched_snap_gen list_db proto etcd ps (snapshot etcd ps).storage later refl
      (omega arith) later_state later_buffer generated_full

abbrev tired : PeerStorage Db
tired = record ps { snap_tried_cnt = 5 }

tired_error : (snapshot etcd tired).error ≡ some (no_snapshot 0)
unfolding snapshot try_again
tired_error = refl

snapshot_error_count_example : (snapshot etcd tired).error ≢ some (no_snapshot (4 + 1))
snapshot_error_count_example = snapshot_error_count etcd tired 4
