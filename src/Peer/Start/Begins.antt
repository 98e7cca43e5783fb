-- ===== src/Peer/Start/Begins.antt =====
-- `newPeer` of peer.go on a sound storage, and on databases without metadata.
use talent_challenge.Prelude.{
  ℕ, ◌≡◌, refl, sym, ap, subst, ◌∙◌, inl, inr, true, false, Option, none, some, [], ◌∷◌, String,
  arith, Bool-cases,
}
use talent_challenge.Prelude.Outcome.{returns, err, not_found}
use talent_challenge.Prelude.Bytes.{Bytes}
use talent_challenge.Vendor.Pebble.{Pebble, IsReliable, lookup_item}
use talent_challenge.Storage.Engines.{Engines, get, read, read_meta}
use talent_challenge.Messages.{
  Proto, IsLosslessProto, ConfState, empty_hard_state, empty_conf_state,
}
use talent_challenge.Meta.Key.{
  raft_local_state_key, raft_apply_state_key, raft_conf_state_key, conf_local, conf_apply,
  conf_entry,
}
use talent_challenge.Meta.Value.{get_raft_local_state, get_raft_apply_state, get_raft_conf_state}
use talent_challenge.PeerStorage.State.{
  PeerStorage, relaxed, is_empty_conf_state, new_peer_storage, write_conf_state, truncate_index,
  applied_index,
}
use talent_challenge.PeerStorage.State.Writes.{with_meta, read_meta-with_meta, put_meta-returns}
use talent_challenge.PeerStorage.State.Saved.{
  IsSaved, reopened, new_peer_storage-IsSaved, get_local-agree, get_apply-agree, get_conf-saved,
}
use talent_challenge.PeerStorage.Log.Spec.{Log, Represents}
use talent_challenge.PeerStorage.Ready.Steps.{Represents-with_meta}
use talent_challenge.Peer.State.{new_peer}
use talent_challenge.Peer.Ready.{Node}
use talent_challenge.Peer.Ready.Loop.{IsSound}
use talent_challenge.Peer.Start.{
  Raft, RaftConfig, raft_config, addr_of, bootstrap, made_node, conf_state, start_on, start_peer,
}
use talent_challenge.Transport.Client.{new_raft_client}
use talent_challenge.Transport.Router.{peer_addr, new_router, load_raft_peers}

abbrev pub empty_log : Log
empty_log = record { offset = 0; offset_term = 0; items = [] }

-- The storage of a peer that has no metadata yet
abbrev pub fresh_storage : {DB : Type 0} → Engines DB → PeerStorage DB
fresh_storage engines = record {
  engines = engines;
  local_state = record { hard_state = empty_hard_state; last_index = 0; last_term = 0 };
  apply_state = record { apply_index = 0; truncated_state = record { index = 0; term = 0 } };
  conf_state = empty_conf_state;
  snap_state = record { state_type = relaxed; receiver = none };
  snap_tried_cnt = 0;
  next_chan = 0;
  buffers = λ c. none;
}

module _ {DB : Type 0} (p : Pebble DB) (pb : Proto) (reliable : IsReliable p) where
  read_meta-empty :
      (key : Bytes) (engines : Engines DB)
      → p.items engines.meta ≡ []
      → read_meta p key engines ≡ err not_found
  unfolding read_meta read get
  read_meta-empty key engines empty =
      ground (arith, reliable.get_items engines.meta key, ap (lookup_item key) empty)

  fresh_storage-IsSaved :
      (engines : Engines DB) → p.items engines.meta ≡ [] → IsSaved p pb (fresh_storage engines)
  unfolding get_raft_local_state get_raft_apply_state get_raft_conf_state
  fresh_storage-IsSaved engines empty = record {
    local_state = rw (read_meta-empty raft_local_state_key engines empty) refl;
    apply_state = rw (read_meta-empty raft_apply_state_key engines empty) refl;
    conf_state = rw (read_meta-empty raft_conf_state_key engines empty) refl;
  }

module _ {DB : Type 0} (p : Pebble DB) (pb : Proto) (reliable : IsReliable p)
    (lossless : IsLosslessProto pb) where
  -- A write of the configuration saves it and leaves the other states.
  write_conf_state-IsSaved :
      (ps : PeerStorage DB) (c : ConfState)
      → IsSaved p pb ps
      → (engines : Engines DB) × (write_conf_state p pb (record ps { conf_state = c })
          ≡ returns (none, record ps { conf_state = c; engines = engines }))
        × IsSaved p pb (record ps { conf_state = c; engines = engines })
        × ((log : Log)
            → Represents p pb ps log
            → Represents p pb (record ps { conf_state = c; engines = engines }) log)
        × (engines.kv ≡ ps.engines.kv)
  unfolding write_conf_state
  write_conf_state-IsSaved ps c s =
      let b = (lossless.conf_state.round_trip c).0 in
      let engines = with_meta p raft_conf_state_key b ps.engines in
      (
        engines,
        put_meta-returns p pb reliable pb.conf_state lossless.conf_state raft_conf_state_key c
            (record ps { conf_state = c }),
        record {
          local_state =
              get_local-agree p pb engines ps.engines (
                ground (
                  arith,
                  conf_local,
                  read_meta-with_meta p pb reliable raft_conf_state_key b ps.engines
                      raft_local_state_key,
                ))
              ∙ s.local_state;
          apply_state =
              get_apply-agree p pb engines ps.engines (
                ground (
                  arith,
                  conf_apply,
                  read_meta-with_meta p pb reliable raft_conf_state_key b ps.engines
                      raft_apply_state_key,
                ))
              ∙ s.apply_state;
          conf_state = get_conf-saved p pb reliable lossless c ps.engines;
        },
        λ log r.
            Represents-with_meta p pb reliable lossless raft_conf_state_key b
              (record ps { conf_state = c }) log conf_entry
              (record {
                offset = r.offset;
                offset_term = r.offset_term;
                last = r.last;
                last_term = r.last_term;
                consecutive = r.consecutive;
                holds = r.holds;
                bounded = r.bounded;
              }),
        refl,
      )

addr_of-peer_addr : (id : ℕ) (a : String) → peer_addr id ≡ some a → addr_of id ≡ a
addr_of-peer_addr id a known =
    ap (λ (o : Option String). elim o [ none ↦ "" | some addr ↦ addr ]) known

-- The peer that a start is to make: on the storage and at the address of its id, with
-- nothing asked for, connected or collected
pub record IsMade {DB : Type 0} (id : ℕ) (log : Log) (n : Node DB) : Type 0 where
  pub own : n.peer.id ≡ id
  pub elapse : n.peer.compaction_elapse ≡ 0
  pub timeout : n.peer.compaction_timeout ≡ 100
  pub last_compacted : n.peer.last_compacted_idx ≡ log.offset
  pub gc_tasks : n.peer.gc_tasks ≡ []
  pub readc : n.reads.readc ≡ []
  pub table : n.reads.read_state_table ≡ []
  pub quiet : n.read_state_coming ≡ false
  pub addr : (a : String) → peer_addr id ≡ some a → n.router.addr ≡ a
  pub conns : (a : String) → n.router.raft_client.conns a ≡ none

-- What raft is to get with a storage: its applied index, and the constants of the code
abbrev pub config_on : {DB : Type 0} → ℕ → PeerStorage DB → RaftConfig DB
config_on id ps = record {
  id = id;
  election_tick = 10;
  heartbeat_tick = 1;
  storage = ps;
  applied = ps.apply_state.apply_index;
  max_size_per_msg = 1048576;
  max_uncommitted_entries_size = 1073741824;
  max_inflight_msgs = 256;
  pre_vote = true;
}

module _ {DB R : Type 0} (raft : Raft DB R) where
  -- The storage has the configuration that raft reports.
  pub record IsConfigured (r : R) (ps : PeerStorage DB) : Type 0 where
    pub voters : ps.conf_state.voters ≡ (raft.status r).config.incoming
    pub voters_outgoing : ps.conf_state.voters_outgoing ≡ (raft.status r).config.outgoing
    pub learners : ps.conf_state.learners ≡ (raft.status r).config.learners
    pub learners_next : ps.conf_state.learners_next ≡ (raft.status r).config.learners_next
    pub auto_leave : ps.conf_state.auto_leave ≡ (raft.status r).config.auto_leave

  -- Without a configuration raft starts anew, for the peers 1, 2 and 3, and what it reports is the
  -- storage's; with one it restarts, and the storage is as it was.
  pub data Starts (id : ℕ) (ps ps' : PeerStorage DB) (r : R) : Type 0 where
    anew :
        is_empty_conf_state ps.conf_state ≡ true
        → r ≡ raft.start_node (config_on id ps) (1 ∷ 2 ∷ 3 ∷ [])
        → IsConfigured r ps'
        → Starts id ps ps' r
    again :
        is_empty_conf_state ps.conf_state ≡ false
        → r ≡ raft.restart_node (config_on id ps)
        → ps' ≡ ps
        → Starts id ps ps' r

module _ {DB R : Type 0} (p : Pebble DB) (pb : Proto) (reliable : IsReliable p)
    (lossless : IsLosslessProto pb) (raft : Raft DB R) where
  start_on-anew :
      (id : ℕ) (ps : PeerStorage DB) (log : Log)
      → IsSound p pb ps log
      → is_empty_conf_state ps.conf_state ≡ true
      → (n : Node DB) × (start_on p pb raft id ps
          ≡ returns (n, raft.start_node (config_on id ps) (1 ∷ 2 ∷ 3 ∷ [])))
        × IsConfigured raft (raft.start_node (config_on id ps) (1 ∷ 2 ∷ 3 ∷ [])) n.peer.ps
        × IsSound p pb n.peer.ps log
        × IsMade id log n
        × (n.peer.ps.engines.kv ≡ ps.engines.kv)
  unfolding start_on bootstrap made_node raft_config load_raft_peers conf_state new_peer new_router
      truncate_index applied_index new_raft_client
  start_on-anew id ps log sound empty =
      let r = raft.start_node (config_on id ps) (1 ∷ 2 ∷ 3 ∷ []) in
      let (engines, written, saved, keeps, kv) =
        write_conf_state-IsSaved p pb reliable lossless ps (conf_state raft r) sound.saved in
      let ps' : PeerStorage DB = record ps { conf_state = conf_state raft r; engines = engines } in
      (
        record (made_node id ps) { peer = record (new_peer id ps) { ps = ps' } },
        rw (start_on, empty) (rw written refl),
        record {
          voters = refl;
          voters_outgoing = refl;
          learners = refl;
          learners_next = refl;
          auto_leave = refl;
        },
        record { represents = keeps log sound.represents; saved = saved; applied = sound.applied },
        record {
          own = refl;
          elapse = refl;
          timeout = refl;
          last_compacted = sound.represents.offset;
          gc_tasks = refl;
          readc = refl;
          table = refl;
          quiet = refl;
          addr = addr_of-peer_addr id;
          conns = λ a. refl;
        },
        kv,
      )

  start_on-again :
      (id : ℕ) (ps : PeerStorage DB) (log : Log)
      → IsSound p pb ps log
      → is_empty_conf_state ps.conf_state ≡ false
      → (n : Node DB) × (start_on p pb raft id ps
          ≡ returns (n, raft.restart_node (config_on id ps)))
        × (n.peer.ps ≡ ps)
        × IsMade id log n
  unfolding start_on bootstrap made_node raft_config new_peer new_router truncate_index
      applied_index new_raft_client
  start_on-again id ps log sound configured = (
    made_node id ps,
    rw (start_on, configured) refl,
    refl,
    record {
      own = refl;
      elapse = refl;
      timeout = refl;
      last_compacted = sound.represents.offset;
      gc_tasks = refl;
      readc = refl;
      table = refl;
      quiet = refl;
      addr = addr_of-peer_addr id;
      conns = λ a. refl;
    },
  )

  -- A start on a sound storage
  pub start_on-Starts :
      (id : ℕ) (ps : PeerStorage DB) (log : Log)
      → IsSound p pb ps log
      → (n : Node DB) × (r : R) × (start_on p pb raft id ps ≡ returns (n, r))
        × Starts raft id ps n.peer.ps r
        × IsSound p pb n.peer.ps log
        × IsMade id log n
        × (n.peer.ps.engines.kv ≡ ps.engines.kv)
  start_on-Starts id ps log sound = elim (Bool-cases (is_empty_conf_state ps.conf_state)) [
    | inl empty ↦
        let (n, done, configured, sound', made, kv) = start_on-anew id ps log sound empty in
        (n, _, done, anew empty refl configured, sound', made, kv)
    | inr configured ↦
        let (n, done, same, made) = start_on-again id ps log sound configured in
        (
          n,
          _,
          done,
          again configured refl same,
          subst (λ (x : PeerStorage DB). IsSound p pb x log) (sym same) sound,
          made,
          ap (λ (x : PeerStorage DB). x.engines.kv) same,
        )
  ]

  fresh_storage-IsSound :
      (engines : Engines DB)
      → p.items engines.meta ≡ []
      → IsSound p pb (fresh_storage engines) empty_log
  fresh_storage-IsSound engines empty = record {
    represents = record {
      offset = refl;
      offset_term = refl;
      last = refl;
      last_term = refl;
      consecutive = tt;
      holds = tt;
      bounded = omega arith;
    };
    saved = fresh_storage-IsSaved p pb reliable engines empty;
    applied = omega arith;
  }

  -- On databases without metadata, `newPeer` returns with raft started for the peers 1, 2 and 3 on a
  -- storage of an empty log, with the applied index 0 and the code's constants. The storage then has
  -- saved the configuration that raft reports, set by set, represents the empty log, and is brought
  -- back by a restart; the peer is new, at the address of its id if there is one, with nothing asked
  -- for, connected or collected, and the user data is as it was.
  pub start_peer-IsSound :
      (id : ℕ) (engines : Engines DB)
      → p.items engines.meta ≡ []
      → (n : Node DB) × (r : R) × (start_peer p pb raft id engines ≡ returns (n, r))
        × (r ≡ raft.start_node (config_on id (fresh_storage engines)) (1 ∷ 2 ∷ 3 ∷ []))
        × IsConfigured raft r n.peer.ps
        × IsSound p pb n.peer.ps empty_log
        × IsMade id empty_log n
        × (new_peer_storage p pb n.peer.ps.engines ≡ returns (reopened p pb n.peer.ps))
        × (n.peer.ps.engines.kv ≡ engines.kv)
  unfolding start_peer is_empty_conf_state
  start_peer-IsSound id engines empty =
      let ps = fresh_storage engines in
      let sound = fresh_storage-IsSound engines empty in
      let (n, done, configured, sound', made, kv) = start_on-anew id ps empty_log sound refl in
      (
        n,
        _,
        rw (new_peer_storage-IsSaved p pb ps sound.saved) done,
        refl,
        configured,
        sound',
        made,
        new_peer_storage-IsSaved p pb n.peer.ps sound'.saved,
        kv,
      )
