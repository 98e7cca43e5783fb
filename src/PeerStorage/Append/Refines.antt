-- ===== src/PeerStorage/Append/Refines.antt =====
-- `truncateAndAppend` of peer_storage.go makes the represented log what raft asks for, and leaves
-- the rest of the storage alone.
use native.Mathlib.Decide.{dec_lt}
use talent_challenge.Prelude.{
  ℕ, ◌+◌, ◌-◌, ◌^◌, ◌≤◌, ◌<◌, ◌≡◌, refl, sym, ◌∙◌, inl, List, [], ◌∷◌, ◌++◌, length, take, arith,
  length-append, length-take, le→ltb, le→leb, lt→leb,
}
use talent_challenge.Prelude.Outcome.{returns}
use talent_challenge.Prelude.Bytes.{Bytes}
use talent_challenge.Vendor.Pebble.{Pebble, IsReliable}
use talent_challenge.Storage.Engines.{Engines, read_meta}
use talent_challenge.Messages.{Entry, Proto, IsLosslessProto}
use talent_challenge.PeerStorage.State.{PeerStorage, u64, first_index, last_index, truncate_index}
use talent_challenge.PeerStorage.Log.{read_entry}
use talent_challenge.PeerStorage.Log.Spec.{
  Log, last_of, Consecutive, Holds, Represents, fresh, spec_append, IsBatch,
}
use talent_challenge.PeerStorage.Log.Reads.{Consecutive-take, Holds-take}
use talent_challenge.PeerStorage.Append.{last_entry, delete_after, truncate_and_append}
use talent_challenge.PeerStorage.Append.Writes.{
  IsStateKey, written, append_log_entries-returns, kv-written, read_meta-written,
  read_entry-written, Holds-written, Holds-agree, erased, delete_log_entries-eq, kv-erased,
  read_meta-erased, read_entry-erased, deleted_range-returns,
}
use talent_challenge.PeerStorage.Append.Shapes.{
  index-last_entry, last_term_or-append, Consecutive-append, Holds-append, cut_compacted-returns,
  fresh_shape,
}

-- What a change of the log leaves as it was: all but the log's entries and its last index and term.
pub record KeepsRest {DB : Type 0} (p : Pebble DB) (ps ps' : PeerStorage DB) : Type 0 where
  pub apply_state : ps'.apply_state ≡ ps.apply_state
  pub conf_state : ps'.conf_state ≡ ps.conf_state
  pub hard_state : ps'.local_state.hard_state ≡ ps.local_state.hard_state
  pub snap_state : ps'.snap_state ≡ ps.snap_state
  pub kv : ps'.engines.kv ≡ ps.engines.kv
  pub state_keys :
      (key : Bytes) → IsStateKey key → read_meta p key ps'.engines ≡ read_meta p key ps.engines

KeepsRest-refl : {DB : Type 0} (p : Pebble DB) (ps : PeerStorage DB) → KeepsRest p ps ps
KeepsRest-refl p ps = record {
  apply_state = refl;
  conf_state = refl;
  hard_state = refl;
  snap_state = refl;
  kv = refl;
  state_keys = λ key h. refl;
}

module _ {DB : Type 0} (p : Pebble DB) (pb : Proto) (reliable : IsReliable p)
    (lossless : IsLosslessProto pb) where
  -- The deletion behind the last new entry: what it leaves, and what it does not touch.
  delete_after-returns :
      (last : ℕ) (ps : PeerStorage DB)
      → ps.local_state.last_index + 1 < 2 ^ 64
      → last + 1 < 2 ^ 64
      → (engines : Engines DB) × (delete_after p pb last ps
          ≡ returns (record ps { engines = engines }))
        × (engines.kv ≡ ps.engines.kv)
        × ((key : Bytes) → IsStateKey key → read_meta p key engines ≡ read_meta p key ps.engines)
        × ((j : ℕ) → j ≤ last → read_entry p pb j engines ≡ read_entry p pb j ps.engines)
  unfolding delete_after last_index
  delete_after-returns last ps small small' = elim (dec_lt last ps.local_state.last_index) [
    | no done ↦ (
      ps.engines,
      rw (le→ltb last ps.local_state.last_index (omega arith)),
      refl,
      λ key h. refl,
      λ j h. refl,
    )
    | yes more ↦
        let next : u64 (last + 1) ≡ last + 1 = omega arith in
        let (ents, found, c, len) =
          deleted_range-returns (ps.local_state.last_index + 1) (last + 1) ps.local_state.last_index
            small (omega arith) in
        (
          erased p pb reliable lossless ents ps.engines,
          ground (arith, more, next, found, delete_log_entries-eq p pb reliable lossless ents ps),
          kv-erased p pb reliable lossless ents ps.engines,
          λ key h. read_meta-erased p pb reliable lossless ents ps.engines key h,
          λ j h.
              read_entry-erased p pb reliable lossless ents ps.engines (last + 1) j c (omega arith)
                (omega arith),
        )
  ]

  -- The entries that stay and the new ones are held, in engines that agree up to the last one.
  Holds-after :
      (ent : Entry) (ents : List Entry) (log : Log) (before after : Engines DB)
      → Consecutive ent.index (ent ∷ ents)
      → ent.index ≤ last_of log + 1
      → log.offset < ent.index + length ents
      → ent.index + length ents + 1 < 2 ^ 64
      → Holds p pb (log.offset + 1) log.items before
      → ((j : ℕ)
          → j ≤ ent.index + length ents
          → read_entry p pb j after
            ≡ read_entry p pb j (written p pb reliable lossless (fresh log.offset ent ents) before))
      → Holds p pb
          (log.offset + 1)
          (take (ent.index - log.offset - 1) log.items ++ fresh log.offset ent ents)
          after
  Holds-after ent ents log before after c gap above small held same =
      let n = ent.index - log.offset - 1 in
      let kept = fresh log.offset ent ents in
      let (kept_c, kept_len, kept_term) = fresh_shape log.offset ent ents c above in
      let stays_len : length (take n log.items) ≡ n = omega (arith, length-take n log.items) in
      let stays =
        Holds-agree p pb reliable lossless (take n log.items) (log.offset + 1) after before
          (λ j lo hi.
            same j (omega arith)
            ∙ read_entry-written p pb reliable lossless kept before (log.offset + 1 + n) j kept_c
                (omega arith) (omega arith) (inl (omega arith)))
          (Holds-take p pb before n (log.offset + 1) log.items held) in
      let arrives =
        Holds-agree p pb reliable lossless kept (log.offset + 1 + n) after
          (written p pb reliable lossless kept before) (λ j lo hi. same j (omega arith))
          (Holds-written p pb reliable lossless kept before (log.offset + 1 + n) kept_c
            (omega arith)) in
      Holds-append p pb (log.offset + 1) (take n log.items) kept after stays (rw stays_len arrives)

  -- `truncateAndAppend` returns on every batch that raft may hand over. Afterwards the storage
  -- represents the log with the new entries in place of all from their first index on, less those
  -- that are compacted; the rest of the storage is as before.
  pub truncate_and_append-Represents :
      (ents : List Entry) (ps : PeerStorage DB) (log : Log)
      → Represents p pb ps log
      → IsBatch ents log
      → (ps' : PeerStorage DB) × (truncate_and_append p pb ents ps ≡ returns ps')
        × Represents p pb ps' (spec_append ents log)
        × KeepsRest p ps ps'
  unfolding truncate_and_append first_index truncate_index
  truncate_and_append-Represents [] ps log r batch = (ps, refl, r, KeepsRest-refl p ps)
  truncate_and_append-Represents (ent ∷ ents) ps log r (c, gap, small) =
      let top = last_entry ent ents in
      let top_is = index-last_entry ent.index ent ents c in
      elim (dec_lt log.offset top.index) [
        | no old ↦ (
          ps,
          ground (arith, old),
          rw (le→leb top.index log.offset (omega arith)) r,
          KeepsRest-refl p ps,
        )
        | yes new ↦
            let kept = fresh log.offset ent ents in
            let (kept_c, kept_len, kept_term) = fresh_shape log.offset ent ents c (omega arith) in
            let n = ent.index - log.offset - 1 in
            let stays_len : length (take n log.items) ≡ n =
              omega (arith, length-take n log.items) in
            let appended = written p pb reliable lossless kept ps.engines in
            let longer : PeerStorage DB = record ps { engines = appended } in
            let (engines, deleted, kv, keys, agree) =
              delete_after-returns top.index longer (omega arith) small in
            let cut =
              cut_compacted-returns p pb ent ents ps log.offset r.offset (omega arith)
                (omega arith) in
            (
              record ps {
                engines = engines;
                local_state = record ps.local_state {
                  last_index = top.index;
                  last_term = top.term;
                };
              },
              ground (
                arith,
                new,
                cut,
                append_log_entries-returns p pb reliable lossless kept ps,
                deleted,
              ),
              rw (lt→leb top.index log.offset new) (record {
                offset = r.offset;
                offset_term = r.offset_term;
                last = omega (arith, length-append (take n log.items) kept);
                last_term = sym (
                    last_term_or-append log.offset_term (take n log.items) kept (omega arith)
                    ∙ kept_term log.offset_term);
                consecutive =
                    Consecutive-append (log.offset + 1) (take n log.items) kept
                      (Consecutive-take n (log.offset + 1) log.items r.consecutive)
                      (rw stays_len kept_c);
                holds =
                    Holds-after ent ents log ps.engines engines c gap (omega arith) (omega arith)
                      r.holds (λ j h. agree j (omega arith));
                bounded = omega (arith, length-append (take n log.items) kept);
              }),
              record {
                apply_state = refl;
                conf_state = refl;
                hard_state = refl;
                snap_state = refl;
                kv = kv ∙ kv-written p pb reliable lossless kept ps.engines;
                state_keys = λ key h.
                    keys key h ∙ read_meta-written p pb reliable lossless kept ps.engines key h;
              },
            )
      ]
