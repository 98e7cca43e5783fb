-- ===== src/Peer/Apply/Logged.antt =====
-- What the committed commands make of the log: compactions cut it, and all else leaves it.
use talent_challenge.Prelude.{
  ℕ, ◌+◌, ◌≤◌, ◌<◌, ◌≡◌, refl, ◌⊎◌, inl, inr, List, [], ◌∷◌, arith, leb, if◌then◌else◌, lt→leb,
  le→leb,
}
use talent_challenge.Prelude.Outcome.{ok, returns}
use talent_challenge.Vendor.Pebble.{Pebble, IsReliable}
use talent_challenge.Storage.Modify
use talent_challenge.Storage.Engines.{write_kv, read_meta}
use talent_challenge.Messages.{Entry, Proto, IsLosslessProto, RaftApplyState}
use talent_challenge.Meta.Key.{raft_apply_state_key, apply_entry}
use talent_challenge.PeerStorage.State.{PeerStorage}
use talent_challenge.PeerStorage.Log.{read_entry}
use talent_challenge.PeerStorage.Log.Spec.{Log, last_of, spec_term, Represents}
use talent_challenge.PeerStorage.Append.Writes.{Holds-agree}
use talent_challenge.PeerStorage.Ready.Steps.{Represents-with_meta}
use talent_challenge.Peer.Commands.{
  new_put_cmd_request, new_delete_cmd_request, new_compact_cmd_request,
}
use talent_challenge.Peer.State.{Peer}
use talent_challenge.Peer.Apply.{
  process_request, compact, switch_admin, process_admin_request, mark_applied, run_command, process,
  process_all,
}
use talent_challenge.Peer.Apply.Machine.{
  Command, request_of, Carries, CarryAll, with_apply_state, write_apply_state-returns,
}
use talent_challenge.Peer.Compaction.Trigger.{cut, compact-Represents}

abbrev pub spec_cut : Command → Log → Log
spec_cut (Command.put k v) log = log
spec_cut (Command.delete k) log = log
spec_cut (Command.compact_log i t) log =
    if leb log.offset i then cut (record { compact_index = i; compact_term = t }) log else log
spec_cut Command.nothing log = log

abbrev pub spec_cuts : List Command → Log → Log
spec_cuts [] log = log
spec_cuts (cmd ∷ cmds) log = spec_cuts cmds (spec_cut cmd log)

-- A compaction is to an index that is compacted already, or to an entry of the log with its term.
abbrev pub CutsAt : Command → Log → Type 0
CutsAt (Command.put k v) log = Unit {0}
CutsAt (Command.delete k) log = Unit {0}
CutsAt (Command.compact_log i t) log =
    (i < log.offset) ⊎ ((log.offset ≤ i) × (i ≤ last_of log) × (spec_term i log ≡ ok t))
CutsAt Command.nothing log = Unit {0}

abbrev pub CutAll : List Command → Log → Type 0
CutAll [] log = Unit {0}
CutAll (cmd ∷ cmds) log = CutsAt cmd log × CutAll cmds (spec_cut cmd log)

module _ {DB : Type 0} (p : Pebble DB) (pb : Proto) (reliable : IsReliable p)
    (lossless : IsLosslessProto pb) where
  -- A change of the user data keeps the log.
  Represents-kv :
      (d : DB) (ps : PeerStorage DB) (log : Log)
      → Represents p pb ps log
      → Represents p pb (record ps { engines = record ps.engines { kv = d } }) log
  unfolding read_entry read_meta
  Represents-kv d ps log r = record {
    offset = r.offset;
    offset_term = r.offset_term;
    last = r.last;
    last_term = r.last_term;
    consecutive = r.consecutive;
    holds =
        Holds-agree p pb reliable lossless log.items (log.offset + 1) (record ps.engines { kv = d })
          ps.engines (λ j lo hi. refl) r.holds;
    bounded = r.bounded;
  }

  pub mark_applied-Represents :
      (ent : Entry) (ps : PeerStorage DB) (log : Log)
      → Represents p pb ps log
      → (ps' : PeerStorage DB) × (mark_applied p pb ent ps ≡ returns ps') × Represents p pb ps' log
  unfolding mark_applied
  mark_applied-Represents ent ps log r =
      let a : RaftApplyState = record ps.apply_state { apply_index = ent.index } in
      (
        with_apply_state p pb reliable lossless a ps,
        ground (arith, write_apply_state-returns p pb reliable lossless a ps),
        Represents-with_meta p pb reliable lossless raft_apply_state_key
            (lossless.apply_state.round_trip a).0 (record ps { apply_state = a }) log apply_entry
            (record {
              offset = r.offset;
              offset_term = r.offset_term;
              last = r.last;
              last_term = r.last_term;
              consecutive = r.consecutive;
              holds = r.holds;
              bounded = r.bounded;
            }),
      )

  compact-old :
      (i t : ℕ) (pr : Peer DB) (log : Log)
      → Represents p pb pr.ps log
      → i < log.offset
      → compact p pb (record { compact_index = i; compact_term = t }) pr ≡ returns pr
  unfolding compact
  compact-old i t pr log r old = ground (arith, r.offset, old)

  pub run_command-Represents :
      (cmd : Command) (pr : Peer DB) (log : Log)
      → Represents p pb pr.ps log
      → CutsAt cmd log
      → (pr' : Peer DB) × (run_command p pb (request_of cmd) pr ≡ returns pr')
        × Represents p pb pr'.ps (spec_cut cmd log)
  unfolding run_command process_request write_kv new_put_cmd_request new_delete_cmd_request
      new_compact_cmd_request process_admin_request switch_admin Modify.put_data Modify.delete_data
  run_command-Represents (Command.put k v) pr log r cuts = (_, refl, Represents-kv _ pr.ps log r)
  run_command-Represents (Command.delete k) pr log r cuts = (_, refl, Represents-kv _ pr.ps log r)
  run_command-Represents Command.nothing pr log r cuts = (pr, refl, r)
  run_command-Represents (Command.compact_log i t) pr log r (inl old) =
      (pr, compact-old i t pr log r old, rw (lt→leb log.offset i old) r)
  run_command-Represents (Command.compact_log i t) pr log r (inr (low, high, found)) =
      let (pr', done, r', at) =
        compact-Represents p pb reliable lossless (record { compact_index = i; compact_term = t })
          pr log r low high found in
      (pr', done, rw (le→leb log.offset i low) r')

  process-Represents :
      (ent : Entry) (cmd : Command) (pr : Peer DB) (log : Log)
      → Carries pb ent cmd
      → Represents p pb pr.ps log
      → CutsAt cmd log
      → (pr' : Peer DB) × (process p pb ent pr ≡ returns pr')
        × Represents p pb pr'.ps (spec_cut cmd log)
  unfolding process
  process-Represents ent cmd pr log carried r cuts =
      let (marked, done, r') = mark_applied-Represents ent pr.ps log r in
      let (pr', ran, r'') = run_command-Represents cmd (record pr { ps = marked }) log r' cuts in
      (pr', ground (arith, done, carried, ran), r'')

  -- Entries that carry commands whose compactions fit the log leave the log that the compactions
  -- cut.
  pub process_all-Represents :
      (ents : List Entry) (cmds : List Command) (pr : Peer DB) (log : Log)
      → CarryAll pb ents cmds
      → Represents p pb pr.ps log
      → CutAll cmds log
      → (pr' : Peer DB) × (process_all p pb ents pr ≡ returns pr')
        × Represents p pb pr'.ps (spec_cuts cmds log)
  unfolding process_all
  process_all-Represents [] [] pr log c r cuts = (pr, refl, r)
  process_all-Represents [] (cmd ∷ cmds) pr log c r cuts = absurd c
  process_all-Represents (ent ∷ ents) [] pr log c r cuts = absurd c
  process_all-Represents (ent ∷ ents) (cmd ∷ cmds) pr log c r cuts =
      let (mid, first, r') = process-Represents ent cmd pr log c.0 r cuts.0 in
      let (pr', rest, r'') =
        process_all-Represents ents cmds mid (spec_cut cmd log) c.1 r' cuts.1 in
      (pr', ground (arith, first, rest), r'')
