-- ===== src/PeerStorage/Snapshots/Delivered.antt =====
-- `Snapshot` of peer_storage.go with the goroutine of `SchedSnapGen` that it starts.
use talent_challenge.Prelude.{
  ℕ, ◌+◌, ◌<◌, ◌≤◌, ◌≡◌, ◌≢◌, refl, sym, ap, ◌∙◌, subst, false, none, some, leb, le→leb, lt→leb,
  ==_refl, arith, if◌then◌else◌, ◌==◌,
}
use talent_challenge.Prelude.Outcome.{ok, err, snapshot_temporarily_unavailable, no_snapshot}
use talent_challenge.Vendor.Pebble.{Pebble}
use talent_challenge.Storage.Engines.{kv_snapshot}
use talent_challenge.Messages.{Snapshot, Proto}
use talent_challenge.PeerStorage.State.{
  PeerStorage, Etcd, SnapState, SnapStateType, relaxed, generating, applied_index, truncate_index,
}
use talent_challenge.PeerStorage.Log.{term}
use talent_challenge.PeerStorage.Snapshots.{
  snapshot, snapshot_valid, try_again, receive, sched_snap_gen, no_data,
}

module _ {DB : Type 0} where
  -- The storage after the channel is received from.
  abbrev received_from : ℕ → PeerStorage DB → PeerStorage DB
  received_from c ps = record ps {
    buffers = λ d. if d == c then none else ps.buffers d;
    snap_state = record ps.snap_state { state_type = relaxed };
    snap_tried_cnt = 0;
  }

  snapshot-relaxed :
      (etcd : Etcd) (ps : PeerStorage DB)
      → ps.snap_state.state_type ≡ relaxed
      → snapshot etcd ps ≡ try_again no_data ps
  unfolding snapshot
  snapshot-relaxed etcd ps calm =
      let is_state : ps.snap_state
          ≡ record { state_type = relaxed; receiver = ps.snap_state.receiver } =
        ap (λ (t : SnapStateType). record { state_type = t; receiver = ps.snap_state.receiver })
          calm in
      subst
        (λ (state : SnapState).
          snapshot etcd (record ps { snap_state = state })
          ≡ try_again no_data (record ps { snap_state = state }))
        (sym is_state) refl

  try_again-few :
      (s : Snapshot) (ps : PeerStorage DB)
      → ps.snap_tried_cnt < 5
      → try_again s ps ≡ record {
        snapshot = s;
        error = some snapshot_temporarily_unavailable;
        spawned = some ps.next_chan;
        storage = record ps {
          snap_tried_cnt = ps.snap_tried_cnt + 1;
          snap_state = record { state_type = generating; receiver = some ps.next_chan };
          next_chan = ps.next_chan + 1;
        };
      }
  unfolding try_again
  try_again-few s ps few = rw (lt→leb 5 ps.snap_tried_cnt few, try_again) refl

  snapshot-received :
      (etcd : Etcd) (ps : PeerStorage DB) (c : ℕ) (s : Snapshot)
      → ps.snap_state ≡ record { state_type = generating; receiver = some c }
      → ps.buffers c ≡ some s
      → etcd.is_empty_snap s ≡ false
      → snapshot etcd ps ≡ (
          if leb (truncate_index ps) s.metadata.index
          then record { snapshot = s; error = none; spawned = none; storage = received_from c ps }
          else try_again s (received_from c ps))
  unfolding snapshot receive snapshot_valid truncate_index
  snapshot-received etcd ps c s state there full =
      subst
        (λ (x : SnapState). snapshot etcd (record ps { snap_state = x }) ≡ (
          if leb (truncate_index ps) s.metadata.index
          then record {
            snapshot = s;
            error = none;
            spawned = none;
            storage = received_from c (record ps { snap_state = x });
          }
          else try_again s (received_from c (record ps { snap_state = x }))))
        (sym state) (rw there (rw full refl))

  -- The error of `Snapshot` never reports one try or more, whatever was tried.
  pub snapshot_error_count :
      (etcd : Etcd) (ps : PeerStorage DB) (n : ℕ)
      → (snapshot etcd ps).error ≢ some (no_snapshot (n + 1))
  unfolding snapshot try_again snapshot_valid receive truncate_index
  snapshot_error_count etcd ps n h = ground (arith, h)

module _ {DB : Type 0} (p : Pebble DB) (pb : Proto) where
  -- The snapshot that the goroutine sends when it runs on the storage.
  abbrev pub generated : PeerStorage DB → Snapshot
  generated ps = record {
    payload = kv_snapshot p ps.engines;
    metadata = record {
      conf_state = ps.conf_state;
      index = ps.apply_state.apply_index;
      term = elim (term p pb ps.apply_state.apply_index ps) [ ok t ↦ t | err e ↦ 0 ];
    };
  }

  sent : (c : ℕ) (ps : PeerStorage DB) → (sched_snap_gen p pb c ps).buffers c ≡ some (generated ps)
  unfolding sched_snap_gen applied_index
  sent c ps = rw (==_refl c) refl

  -- A call of `Snapshot` that finds no snapshot under way and has tries left asks raft to come back,
  -- and starts a goroutine with a new channel. The goroutine runs on some later storage, `made`,
  -- and the call after it, on `later`, finds the channel. Where the log was not compacted past the
  -- snapshot meanwhile, that call returns the user data of `made` with its applied index, and no
  -- try counts any more. Else it asks raft to come back again and starts another goroutine.
  pub snapshot-sched_snap_gen :
      (etcd : Etcd) (ps made later : PeerStorage DB)
      → ps.snap_state.state_type ≡ relaxed
      → ps.snap_tried_cnt < 5
      → later.snap_state ≡ (snapshot etcd ps).storage.snap_state
      → later.buffers ps.next_chan ≡ (sched_snap_gen p pb ps.next_chan made).buffers ps.next_chan
      → etcd.is_empty_snap (generated made) ≡ false
      → ((snapshot etcd ps).error ≡ some snapshot_temporarily_unavailable)
        × ((snapshot etcd ps).spawned ≡ some ps.next_chan)
        × (truncate_index later ≤ applied_index made
            → ((snapshot etcd later).error ≡ none)
              × ((snapshot etcd later).snapshot ≡ generated made)
              × ((snapshot etcd later).spawned ≡ none)
              × ((snapshot etcd later).storage.snap_state.state_type ≡ relaxed)
              × ((snapshot etcd later).storage.snap_tried_cnt ≡ 0))
        × (applied_index made < truncate_index later
            → ((snapshot etcd later).error ≡ some snapshot_temporarily_unavailable)
              × ((snapshot etcd later).spawned ≡ some later.next_chan)
              × ((snapshot etcd later).storage.snap_tried_cnt ≡ 1))
  unfolding snapshot try_again snapshot_valid receive applied_index truncate_index
  snapshot-sched_snap_gen etcd ps made later calm few state buffer full =
      let first : snapshot etcd ps ≡ try_again no_data ps = snapshot-relaxed etcd ps calm in
      let started = first ∙ try_again-few no_data ps few in
      let found = buffer ∙ sent ps.next_chan made in
      let state' = state ∙ ap (λ call. call.storage.snap_state) started in
      let next = snapshot-received etcd later ps.next_chan (generated made) state' found full in
      (
        ap (λ call. call.error) started,
        ap (λ call. call.spawned) started,
        λ valid.
            let got = rw (le→leb (truncate_index later) (applied_index made) valid) at next in
            (
              ap (λ call. call.error) got,
              ap (λ call. call.snapshot) got,
              ap (λ call. call.spawned) got,
              ap (λ call. call.storage.snap_state.state_type) got,
              ap (λ call. call.storage.snap_tried_cnt) got,
            ),
        λ late.
            let got =
              rw (lt→leb (truncate_index later) (applied_index made) late) at next
              ∙ try_again-few (generated made) (received_from ps.next_chan later) (omega arith) in
            (
              ap (λ call. call.error) got,
              ap (λ call. call.spawned) got,
              ap (λ call. call.storage.snap_tried_cnt) got,
            ),
      )
