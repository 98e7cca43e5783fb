-- ===== src/PeerStorage/Snapshots/Installed.antt =====
-- What `applySnapshot` of peer_storage.go leaves: the log that begins behind the snapshot, and the
-- user data, in which keys that the snapshot lacks keep their old values.
use native.Mathlib.Nat.{add-zero}
use talent_challenge.Prelude.{
  ◌+◌, ◌^◌, ◌<◌, ◌≡◌, refl, sym, ap, ◌∙◌, true, Option, none, some, List, [], ◌∷◌, map, All, arith,
  if◌then◌else◌,
}
use talent_challenge.Prelude.Outcome.{Result, ok, err, returns}
use talent_challenge.Prelude.Bytes.{Bytes, bytes_eq, bytes_eq_iff}
use talent_challenge.Vendor.Pebble.{
  Pebble, IsReliable, Item, Lookup, found, missing, lookup_item, DistinctKeys,
}
use talent_challenge.Storage.Modify
use talent_challenge.Storage.Modify.{Modify}
use talent_challenge.Storage.Engines.{Engines, write_kv, read_kv, read, kv_snapshot, snapshot}
use talent_challenge.Storage.Engines.Reads.{shown, read-put, read-found, read-missing}
use talent_challenge.Storage.Pair.{Pair, encode}
use talent_challenge.Storage.Pair.RoundTrip.{Fits, decode-encode}
use talent_challenge.Messages.{Snapshot, RaftApplyState, RaftLocalState, Proto, IsLosslessProto}
use talent_challenge.Meta.Key.{raft_apply_state_key, raft_conf_state_key}
use talent_challenge.PeerStorage.State.{PeerStorage, applying}
use talent_challenge.PeerStorage.Log.Spec.{Log, Represents}
use talent_challenge.PeerStorage.State.Writes.{with_meta, put_meta-returns}
use talent_challenge.PeerStorage.State.{write_apply_state, write_conf_state}
use talent_challenge.PeerStorage.Snapshots.{put_pairs, apply_snapshot}

-- The last value that the pairs give a key.
abbrev pub latest : Bytes → List Pair → Option Bytes
latest k [] = none
latest k (pair ∷ pairs) = elim (latest k pairs) [
  | some v ↦ some v
  | none ↦ if bytes_eq pair.key k then some pair.val else none
]

abbrev pub overlay : Option Bytes → Result (Option Bytes) → Result (Option Bytes)
overlay none old = old
overlay (some v) old = ok (shown v)

-- All but the user data is as it was.
pub record SameButKv {DB : Type 0} (ps ps' : PeerStorage DB) : Type 0 where
  pub local_state : ps'.local_state ≡ ps.local_state
  pub apply_state : ps'.apply_state ≡ ps.apply_state
  pub conf_state : ps'.conf_state ≡ ps.conf_state
  pub snap_state : ps'.snap_state ≡ ps.snap_state
  pub meta : ps'.engines.meta ≡ ps.engines.meta

module _ {DB : Type 0} (p : Pebble DB) (pb : Proto) where
  put_pairs-SameButKv :
      (pairs : List Pair) (ps : PeerStorage DB) → SameButKv ps (put_pairs p pb pairs ps)
  unfolding put_pairs write_kv
  put_pairs-SameButKv [] ps = record {
    local_state = refl;
    apply_state = refl;
    conf_state = refl;
    snap_state = refl;
    meta = refl;
  }
  put_pairs-SameButKv (pair ∷ pairs) ps =
      let r = write_kv p (Modify.put_data pair.key pair.val true) ps.engines in
      let ih = put_pairs-SameButKv pairs (record ps { engines = r.1 }) in
      record {
        local_state = ih.local_state;
        apply_state = ih.apply_state;
        conf_state = ih.conf_state;
        snap_state = ih.snap_state;
        meta = ih.meta;
      }

  read_kv-put_pairs :
      IsReliable p
      → (pairs : List Pair) (ps : PeerStorage DB) (k : Bytes)
      → read_kv p k (put_pairs p pb pairs ps).engines
        ≡ overlay (latest k pairs) (read_kv p k ps.engines)
  unfolding put_pairs write_kv read_kv Modify.put_data
  read_kv-put_pairs reliable [] ps k = refl
  read_kv-put_pairs reliable (pair ∷ pairs) ps k =
      let r = write_kv p (Modify.put_data pair.key pair.val true) ps.engines in
      ground (
        arith,
        read_kv-put_pairs reliable pairs (record ps { engines = r.1 }) k,
        read-put p reliable pair.key pair.val true ps.engines.kv k,
      )

-- The log behind an installed snapshot.
abbrev pub log_behind : Snapshot → Log
log_behind s = record { offset = s.metadata.index; offset_term = s.metadata.term; items = [] }

abbrev pub installed_state : Snapshot → RaftApplyState
installed_state s = record {
  apply_index = s.metadata.index;
  truncated_state = record { index = s.metadata.index; term = s.metadata.term };
}

module _ {DB : Type 0} (p : Pebble DB) (pb : Proto) (reliable : IsReliable p)
    (lossless : IsLosslessProto pb) where
  -- The engines after the two states are written.
  abbrev pub states_written : Snapshot → PeerStorage DB → Engines DB
  states_written s ps =
      with_meta p raft_conf_state_key (lossless.conf_state.round_trip s.metadata.conf_state).0 (
        with_meta p raft_apply_state_key (lossless.apply_state.round_trip (installed_state s)).0
          ps.engines)

  -- An encoded snapshot whose pairs fit in 32 bits and whose index is below the largest uint64 is
  -- installed: the storage then represents the empty log behind it, its
  -- states and their saved copies are the snapshot's, and a read of user data gives the
  -- snapshot's value of the key, or what it gave before where the snapshot has none.
  pub apply_snapshot-returns :
      (s : Snapshot) (pairs : List Pair) (ps : PeerStorage DB)
      → s.metadata.index + 1 < 2 ^ 64
      → All Fits pairs
      → s.payload ≡ encode pairs
      → (ps' : PeerStorage DB) × (apply_snapshot p pb s ps ≡ returns ps')
        × Represents p pb ps' (log_behind s)
        × (ps'.apply_state ≡ installed_state s)
        × (ps'.conf_state ≡ s.metadata.conf_state)
        × (ps'.local_state.hard_state ≡ ps.local_state.hard_state)
        × (ps'.engines.meta ≡ (states_written s ps).meta)
        × ((k : Bytes)
            → read_kv p k ps'.engines ≡ overlay (latest k pairs) (read_kv p k ps.engines))
  unfolding apply_snapshot write_apply_state write_conf_state read_kv
  apply_snapshot-returns s pairs ps small fits payload =
      let meta = s.metadata in
      let apply = installed_state s in
      let moved : PeerStorage DB = record ps {
        local_state = record ps.local_state { last_index = meta.index; last_term = meta.term };
        apply_state = apply;
      } in
      let b = (lossless.apply_state.round_trip apply).0 in
      let configured : PeerStorage DB = record moved {
        engines = with_meta p raft_apply_state_key b ps.engines;
        conf_state = meta.conf_state;
      } in
      let ready : PeerStorage DB = record configured {
        engines = states_written s ps;
        snap_state = record ps.snap_state { state_type = applying };
      } in
      let same = put_pairs-SameButKv p pb pairs ready in
      let first =
        put_meta-returns p pb reliable pb.apply_state lossless.apply_state raft_apply_state_key
          apply moved in
      let second =
        put_meta-returns p pb reliable pb.conf_state lossless.conf_state raft_conf_state_key
          meta.conf_state configured in
      (
        put_pairs p pb pairs ready,
        ground (arith, first, second, payload, decode-encode pairs fits),
        record {
          offset = ap (λ (a : RaftApplyState). a.truncated_state.index) same.apply_state;
          offset_term = ap (λ (a : RaftApplyState). a.truncated_state.term) same.apply_state;
          last =
              ap (λ (l : RaftLocalState). l.last_index) same.local_state
              ∙ sym (add-zero meta.index);
          last_term = ap (λ (l : RaftLocalState). l.last_term) same.local_state;
          consecutive = tt;
          holds = tt;
          bounded = omega arith;
        },
        same.apply_state,
        same.conf_state,
        ap (λ (l : RaftLocalState). l.hard_state) same.local_state,
        same.meta,
        λ k. read_kv-put_pairs p pb reliable pairs ready k,
      )

-- What the user data holds, as the pairs of its snapshot.
abbrev pub to_pair : Item → Pair
to_pair item = record { key = item.0; val = item.1 }

abbrev looked_up : Option Bytes → Lookup
looked_up none = missing
looked_up (some v) = found v

lookup_item-latest :
    (k : Bytes) (items : List Item)
    → DistinctKeys items
    → lookup_item k items ≡ looked_up (latest k (map to_pair items))
lookup_item-latest k [] h = refl
lookup_item-latest k ((j, v) ∷ items) h =
    ground (arith, lookup_item-latest k items h.1, h.0, bytes_eq_iff j k)

-- A read after the transfer, from a read of the sender and one of the receiver before.
abbrev pub newer : Result (Option Bytes) → Result (Option Bytes) → Result (Option Bytes)
newer (ok v) old = ok v
newer (err e) old = old

overlay-latest :
    {DB : Type 0} (p : Pebble DB) (reliable : IsReliable p) (d : DB) (k : Bytes)
    (old : Result (Option Bytes))
    → overlay (latest k (map to_pair (p.items d))) old ≡ newer (read p k d) old
overlay-latest p reliable d k old =
    let held =
      reliable.get_items d k ∙ lookup_item-latest k (p.items d) (reliable.items_distinct d) in
    by_cases (latest k (map to_pair (p.items d))) held
  where
    by_cases : (o : Option Bytes) → p.get k d ≡ looked_up o → overlay o old ≡ newer (read p k d) old
    by_cases none h = rw (read-missing p k d h)
    by_cases (some v) h = rw (read-found p k v d h)

module _ {DB : Type 0} (p : Pebble DB) (pb : Proto) (reliable : IsReliable p)
    (lossless : IsLosslessProto pb) where
  -- The data of one storage, whose pairs fit in 32 bits, sent as a snapshot whose index is below
  -- the largest uint64 and installed in another: a read of a key gives
  -- what it gives at the sender where the sender has the key, and what it gave before where not.
  pub read_kv-apply_snapshot :
      (sender : Engines DB) (s : Snapshot) (ps : PeerStorage DB)
      → s.metadata.index + 1 < 2 ^ 64
      → All Fits (map to_pair (p.items sender.kv))
      → s.payload ≡ kv_snapshot p sender
      → (ps' : PeerStorage DB) × (apply_snapshot p pb s ps ≡ returns ps')
        × ((k : Bytes)
            → read_kv p k ps'.engines ≡ newer (read_kv p k sender) (read_kv p k ps.engines))
  unfolding kv_snapshot snapshot read_kv
  read_kv-apply_snapshot sender s ps small fits payload =
      let (ps', done, log, applied, conf, hard, meta, reads) =
        apply_snapshot-returns p pb reliable lossless s (map to_pair (p.items sender.kv)) ps small
          fits payload in
      (ps', done, λ k. reads k ∙ overlay-latest p reliable sender.kv k (read_kv p k ps.engines))
