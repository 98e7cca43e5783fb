-- ===== src/Peer/Compaction/Trigger.antt =====
-- When `onLogGCTask` of peer.go asks for a compaction, and what the compaction does to the log.
use native.Mathlib.Decide.{dec_lt}
use talent_challenge.Prelude.{
  ℕ, suc, zero, ◌+◌, ◌-◌, ◌≤◌, ◌<◌, ◌≡◌, ◌≢◌, refl, sym, ap, subst, ◌⊎◌, ◌∙◌, none, some, List, [],
  ◌∷◌, ◌++◌, length, drop, get_elem?, get_elem?-some, arith, length-drop, ==_iff, inl, inr,
}
use talent_challenge.Prelude.Outcome.{ok, returns}
use talent_challenge.Vendor.Pebble.{Pebble, IsReliable}
use talent_challenge.Messages.{Entry, Proto, IsLosslessProto, RaftApplyState, CompactLogRequest}
use talent_challenge.Meta.Key.{raft_apply_state_key, apply_entry}
use talent_challenge.PeerStorage.State.{u64, applied_index, first_index, truncate_index}
use talent_challenge.PeerStorage.Log.Spec.{
  Log, last_of, last_term_or, spec_term, Consecutive, Holds, Represents,
}
use talent_challenge.PeerStorage.Log.Reads.{
  Consecutive-drop, Holds-drop, term-Represents, get_elem?-last,
}
use talent_challenge.PeerStorage.Ready.Steps.{Represents-with_meta}
use talent_challenge.Peer.Commands.{new_compact_cmd_request}
use talent_challenge.Peer.State.{Peer}
use talent_challenge.Peer.Apply.{compact}
use talent_challenge.Peer.Apply.Machine.{with_apply_state, write_apply_state-returns}
use talent_challenge.Peer.Compaction.{on_log_gc_task}

-- The log without the entries up to an index.
abbrev pub cut : CompactLogRequest → Log → Log
cut c log = record {
  offset = c.compact_index;
  offset_term = c.compact_term;
  items = drop (c.compact_index - log.offset) log.items;
}

spec_term_inside :
    (i : ℕ) (log : Log)
    → log.offset < i
    → i ≤ last_of log
    → (ent : Entry) × (get_elem? log.items (i - log.offset - 1) ≡ some ent)
      × (spec_term i log ≡ ok ent.term)
spec_term_inside i log above below =
    let (ent, picked) = get_elem?-some (i - log.offset - 1) log.items (omega arith) in
    (ent, picked, ground (arith, picked, above, below))

last_term_or-drop_inside :
    (s t n : ℕ) (ents : List Entry)
    → n < length ents
    → last_term_or s (drop n ents) ≡ last_term_or t ents
last_term_or-drop_inside s t zero [] h = absurd (omega arith)
last_term_or-drop_inside s t (suc n) [] h = absurd (omega arith)
last_term_or-drop_inside s t zero (ent ∷ ents) h = refl
last_term_or-drop_inside s t (suc n) (ent ∷ []) h = absurd (omega arith)
last_term_or-drop_inside s t (suc n) (ent ∷ next ∷ ents) h =
    last_term_or-drop_inside s t n (next ∷ ents) (omega arith)

last_term_or-drop_all :
    (s n : ℕ) (ents : List Entry) → length ents ≤ n → last_term_or s (drop n ents) ≡ s
last_term_or-drop_all s zero [] h = refl
last_term_or-drop_all s (suc n) [] h = refl
last_term_or-drop_all s zero (ent ∷ ents) h = absurd (omega arith)
last_term_or-drop_all s (suc n) (ent ∷ ents) h = last_term_or-drop_all s n ents (omega arith)

spec_term-last :
    (o s t : ℕ) (ents : List Entry)
    → spec_term (o + length ents) (record { offset = o; offset_term = s; items = ents }) ≡ ok t
    → last_term_or s ents ≡ t
spec_term-last o s t [] h = ground (arith, h)
spec_term-last o s t (ent ∷ ents) h =
    let at : o + length (ent ∷ ents) - o - 1 ≡ length ents = omega arith in
    ground (arith, h, ap (λ (n : ℕ). get_elem? (ent ∷ ents) n) at, get_elem?-last s ent ents)

last_term_cut :
    (c : CompactLogRequest) (log : Log)
    → log.offset ≤ c.compact_index
    → c.compact_index ≤ last_of log
    → spec_term c.compact_index log ≡ ok c.compact_term
    → last_term_or log.offset_term log.items
      ≡ last_term_or c.compact_term (drop (c.compact_index - log.offset) log.items)
last_term_cut c log low high found = elim (dec_lt c.compact_index (last_of log)) [
  | yes inside ↦ sym (
      last_term_or-drop_inside c.compact_term log.offset_term (c.compact_index - log.offset)
        log.items (omega arith))
  | no at_end ↦
      let same : c.compact_index ≡ last_of log = omega arith in
      spec_term-last log.offset log.offset_term c.compact_term log.items
        (subst (λ i. spec_term i log ≡ ok c.compact_term) same found)
      ∙ sym (
          last_term_or-drop_all c.compact_term (c.compact_index - log.offset) log.items
            (omega arith))
]

module _ {DB : Type 0} (p : Pebble DB) (pb : Proto) (reliable : IsReliable p)
    (lossless : IsLosslessProto pb) where
  -- A compaction up to an index of the log, with the term at that index, returns; the storage then
  -- represents the log without the entries up to it.
  pub compact-Represents :
      (c : CompactLogRequest) (pr : Peer DB) (log : Log)
      → Represents p pb pr.ps log
      → log.offset ≤ c.compact_index
      → c.compact_index ≤ last_of log
      → spec_term c.compact_index log ≡ ok c.compact_term
      → (pr' : Peer DB) × (compact p pb c pr ≡ returns pr')
        × Represents p pb pr'.ps (cut c log)
        × (pr'.last_compacted_idx ≡ c.compact_index)
  unfolding compact
  compact-Represents c pr log r low high found =
      let a : RaftApplyState = record pr.ps.apply_state {
        truncated_state = record { index = c.compact_index; term = c.compact_term };
      } in
      let n = c.compact_index - log.offset in
      let len : length (drop n log.items) ≡ length log.items - n = length-drop n log.items in
      let at : log.offset + 1 + n ≡ c.compact_index + 1 = omega arith in
      let moved : Represents p pb (record pr.ps { apply_state = a }) (cut c log) = record {
        offset = refl;
        offset_term = refl;
        last = omega (arith, len);
        last_term = r.last_term ∙ last_term_cut c log low high found;
        consecutive =
            subst (λ k. Consecutive k (drop n log.items)) at
              (Consecutive-drop n (log.offset + 1) log.items r.consecutive);
        holds =
            subst (λ k. Holds p pb k (drop n log.items) pr.ps.engines) at
              (Holds-drop p pb pr.ps.engines n (log.offset + 1) log.items r.holds);
        bounded = omega (arith, len);
      } in
      (
        record pr {
          ps = with_apply_state p pb reliable lossless a pr.ps;
          gc_tasks =
              pr.gc_tasks ++ (u64 (pr.last_compacted_idx + 1), u64 (c.compact_index + 1)) ∷ [];
          last_compacted_idx = c.compact_index;
        },
        ground (arith, low, write_apply_state-returns p pb reliable lossless a pr.ps),
        Represents-with_meta p pb reliable lossless raft_apply_state_key
            (lossless.apply_state.round_trip a).0 (record pr.ps { apply_state = a }) (cut c log)
            apply_entry moved,
        refl,
      )

module _ {DB : Type 0} (p : Pebble DB) (pb : Proto) where
  -- Where the applied index is no more than the log's last: the compaction is asked for only by the
  -- leader, and only when the applied index is 1000 or more past the first entry; then it is for
  -- the index before the applied one, with the term that the log has there.
  pub on_log_gc_task-Represents :
      (lead : ℕ) (pr : Peer DB) (log : Log)
      → Represents p pb pr.ps log
      → pr.ps.apply_state.apply_index ≤ last_of log
      → ((lead ≢ pr.id) ⊎ (pr.ps.apply_state.apply_index < log.offset + 1001)
          → on_log_gc_task p pb lead pr ≡ returns none)
        × (lead ≡ pr.id
            → log.offset + 1001 ≤ pr.ps.apply_state.apply_index
            → (ent : Entry) × (get_elem? log.items (pr.ps.apply_state.apply_index - log.offset - 2)
                ≡ some ent)
              × (spec_term (pr.ps.apply_state.apply_index - 1) log ≡ ok ent.term)
              × (on_log_gc_task p pb lead pr
                  ≡ returns (
                      some (new_compact_cmd_request (pr.ps.apply_state.apply_index - 1) ent.term))))
  unfolding on_log_gc_task applied_index first_index truncate_index
  on_log_gc_task-Represents lead pr log r below =
      let applied = pr.ps.apply_state.apply_index in
      (
        elim [ inl other ↦ ground (arith, ==_iff lead pr.id) | inr few ↦ ground arith ],
        λ leads enough.
            let (ent, picked, found) =
              spec_term_inside (applied - 1) log (omega arith) (omega arith) in
            let place : applied - 1 - log.offset - 1 ≡ applied - log.offset - 2 = omega arith in
            let read = term-Represents p pb (applied - 1) pr.ps log r (omega arith) ∙ found in
            (
              ent,
              subst (λ n. get_elem? log.items n ≡ some ent) place picked,
              found,
              ground (arith, leads, enough, read),
            ),
      )
