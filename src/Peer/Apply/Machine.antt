-- ===== src/Peer/Apply/Machine.antt =====
-- The state machine that peer.go replicates: what the committed commands make of the user data.
use talent_challenge.Prelude.{
  ℕ, ◌≡◌, refl, ap, ◌∙◌, true, Option, none, some, List, [], ◌∷◌, ◌++◌, arith, if◌then◌else◌, leb,
  Bool-cases, inl, inr, ◌+◌,
}
use talent_challenge.Prelude.Outcome.{Result, ok, err, not_found, returns}
use talent_challenge.Prelude.Bytes.{Bytes, bytes_eq}
use talent_challenge.Vendor.Pebble.{Pebble, IsReliable}
use talent_challenge.Storage.Modify
use talent_challenge.Storage.Modify.{Modify}
use talent_challenge.Storage.Engines.{write_kv, read_kv, read_meta}
use talent_challenge.Storage.Engines.Reads.{shown, read-put, read-delete}
use talent_challenge.Messages.{
  Entry, Proto, IsLosslessProto, RaftCmdRequest, RaftApplyState, CompactLogRequest,
}
use talent_challenge.Meta.Key.{
  raft_local_state_key, raft_apply_state_key, raft_conf_state_key, apply_local, apply_conf,
}
use talent_challenge.Meta.Value.{get_raft_local_state, get_raft_apply_state, get_raft_conf_state}
use talent_challenge.PeerStorage.State.{PeerStorage, u64, write_apply_state}
use talent_challenge.PeerStorage.State.Writes.{with_meta, put_meta-returns, read_meta-with_meta}
use talent_challenge.PeerStorage.State.Saved.{
  IsSaved, get_apply-saved, get_local-agree, get_conf-agree,
}
use talent_challenge.Peer.Commands.{
  new_put_cmd_request, new_delete_cmd_request, new_compact_cmd_request,
}
use talent_challenge.Peer.State.{Peer}
use talent_challenge.Peer.Apply.{
  process_request, compact, switch_admin, process_admin_request, mark_applied, run_command, process,
  process_all,
}

-- A command of the replicated machine, and the request that carries it. A leader's empty entry
-- carries `nothing`.
pub data Command : Type 0 where
  put : (key value : Bytes) → Command
  delete : (key : Bytes) → Command
  compact_log : (index term : ℕ) → Command
  nothing : Command

abbrev pub request_of : Command → RaftCmdRequest
request_of (put k v) = new_put_cmd_request k v
request_of (delete k) = new_delete_cmd_request k
request_of (compact_log i t) = new_compact_cmd_request i t
request_of nothing = record { request = none; admin_request = none }

-- What a read of the key `j` gives after the command, from what it gave before.
abbrev pub spec_read : Command → Bytes → Result (Option Bytes) → Result (Option Bytes)
spec_read (put k v) j old = if bytes_eq k j then ok (shown v) else old
spec_read (delete k) j old = if bytes_eq k j then err not_found else old
spec_read (compact_log i t) j old = old
spec_read nothing j old = old

abbrev pub spec_reads : List Command → Bytes → Result (Option Bytes) → Result (Option Bytes)
spec_reads [] j old = old
spec_reads (cmd ∷ cmds) j old = spec_reads cmds j (spec_read cmd j old)

-- The index of the last entry.
abbrev pub last_applied : ℕ → List Entry → ℕ
last_applied i [] = i
last_applied i (ent ∷ ents) = last_applied ent.index ents

abbrev pub Carries : Proto → Entry → Command → Type 0
Carries pb ent cmd = pb.command.unmarshal ent.payload ≡ some (request_of cmd)

abbrev pub CarryAll : Proto → List Entry → List Command → Type 0
CarryAll pb [] [] = Unit
CarryAll pb [] (cmd ∷ cmds) = ⊥
CarryAll pb (ent ∷ ents) [] = ⊥
CarryAll pb (ent ∷ ents) (cmd ∷ cmds) = Carries pb ent cmd × CarryAll pb ents cmds

module _ {DB : Type 0} (p : Pebble DB) (pb : Proto) (reliable : IsReliable p)
    (lossless : IsLosslessProto pb) where
  -- The storage after its apply state is replaced and written.
  abbrev pub with_apply_state : RaftApplyState → PeerStorage DB → PeerStorage DB
  with_apply_state a ps = record ps {
    apply_state = a;
    engines = with_meta p raft_apply_state_key (lossless.apply_state.round_trip a).0 ps.engines;
  }

  pub write_apply_state-returns :
      (a : RaftApplyState) (ps : PeerStorage DB)
      → write_apply_state p pb (record ps { apply_state = a })
        ≡ returns (none, with_apply_state a ps)
  unfolding write_apply_state
  write_apply_state-returns a ps =
      put_meta-returns p pb reliable pb.apply_state lossless.apply_state raft_apply_state_key a
        (record ps { apply_state = a })

  pub IsSaved-with_apply_state :
      (a : RaftApplyState) (ps : PeerStorage DB)
      → IsSaved p pb ps
      → IsSaved p pb (with_apply_state a ps)
  IsSaved-with_apply_state a ps s =
      let b = (lossless.apply_state.round_trip a).0 in
      let key = raft_apply_state_key in
      record {
        local_state =
            get_local-agree p pb (with_meta p key b ps.engines) ps.engines (
              ground (
                arith,
                read_meta-with_meta p pb reliable key b ps.engines raft_local_state_key,
                apply_local,
              ))
            ∙ s.local_state;
        apply_state = get_apply-saved p pb reliable lossless a ps.engines;
        conf_state =
            get_conf-agree p pb (with_meta p key b ps.engines) ps.engines (
              ground (
                arith,
                read_meta-with_meta p pb reliable key b ps.engines raft_conf_state_key,
                apply_conf,
              ))
            ∙ s.conf_state;
      }

  -- A change of the user data keeps the saved states.
  IsSaved-kv :
      (d : DB) (ps : PeerStorage DB)
      → IsSaved p pb ps
      → IsSaved p pb (record ps { engines = record ps.engines { kv = d } })
  unfolding get_raft_local_state get_raft_apply_state get_raft_conf_state read_meta
  IsSaved-kv d ps s = record {
    local_state = s.local_state;
    apply_state = s.apply_state;
    conf_state = s.conf_state;
  }

  -- What one command does to a storage.
  pub record Runs (cmd : Command) (index : ℕ) (ps ps' : PeerStorage DB) : Type 0 where
    pub reads : (j : Bytes) → read_kv p j ps'.engines ≡ spec_read cmd j (read_kv p j ps.engines)
    pub applied : ps'.apply_state.apply_index ≡ index
    pub saved : IsSaved p pb ps → IsSaved p pb ps'

  compact-Runs :
      (c : CompactLogRequest) (pr : Peer DB)
      → (pr' : Peer DB) × (compact p pb c pr ≡ returns pr')
        × Runs
            (compact_log c.compact_index c.compact_term)
            pr.ps.apply_state.apply_index
            pr.ps
            pr'.ps
  unfolding compact read_kv
  compact-Runs c pr =
      let a : RaftApplyState = record pr.ps.apply_state {
        truncated_state = record { index = c.compact_index; term = c.compact_term };
      } in
      elim (Bool-cases (leb pr.ps.apply_state.truncated_state.index c.compact_index)) [
        | inr old ↦
            (pr, ground (arith, old), record { reads = λ j. refl; applied = refl; saved = λ s. s })
        | inl new ↦ (
          record pr {
            ps = with_apply_state a pr.ps;
            gc_tasks =
                pr.gc_tasks ++ (u64 (pr.last_compacted_idx + 1), u64 (c.compact_index + 1)) ∷ [];
            last_compacted_idx = c.compact_index;
          },
          ground (arith, new, write_apply_state-returns a pr.ps),
          record {
            reads = λ j. refl;
            applied = refl;
            saved = λ s. IsSaved-with_apply_state a pr.ps s;
          },
        )
      ]

  pub run_command-Runs :
      (cmd : Command) (pr : Peer DB)
      → (pr' : Peer DB) × (run_command p pb (request_of cmd) pr ≡ returns pr')
        × Runs cmd pr.ps.apply_state.apply_index pr.ps pr'.ps
  unfolding run_command process_request write_kv read_kv new_put_cmd_request new_delete_cmd_request
      new_compact_cmd_request process_admin_request switch_admin Modify.put_data Modify.delete_data
  run_command-Runs (put k v) pr = (
    _,
    refl,
    record {
      reads = λ j. read-put p reliable k v true pr.ps.engines.kv j;
      applied = refl;
      saved = λ s. IsSaved-kv _ pr.ps s;
    },
  )
  run_command-Runs (delete k) pr = (
    _,
    refl,
    record {
      reads = λ j. read-delete p reliable k true pr.ps.engines.kv j;
      applied = refl;
      saved = λ s. IsSaved-kv _ pr.ps s;
    },
  )
  run_command-Runs nothing pr =
      (pr, refl, record { reads = λ j. refl; applied = refl; saved = λ s. s })
  run_command-Runs (compact_log i t) pr =
      compact-Runs (record { compact_index = i; compact_term = t }) pr

  pub process-Runs :
      (ent : Entry) (cmd : Command) (pr : Peer DB)
      → Carries pb ent cmd
      → (pr' : Peer DB) × (process p pb ent pr ≡ returns pr') × Runs cmd ent.index pr.ps pr'.ps
  unfolding process mark_applied read_kv
  process-Runs ent cmd pr carried =
      let a : RaftApplyState = record pr.ps.apply_state { apply_index = ent.index } in
      let marked = with_apply_state a pr.ps in
      let (pr', ran, runs) = run_command-Runs cmd (record pr { ps = marked }) in
      (
        pr',
        ground (arith, write_apply_state-returns a pr.ps, carried, ran),
        record {
          reads = runs.reads;
          applied = runs.applied;
          saved = λ s. runs.saved (IsSaved-with_apply_state a pr.ps s);
        },
      )

  -- Entries that carry commands are processed without a panic. Afterwards every read of user data
  -- gives what the commands, one after another, make of the read before, the applied index is
  -- the last entry's, and states that were saved are saved.
  pub process_all-Runs :
      (ents : List Entry) (cmds : List Command) (pr : Peer DB)
      → CarryAll pb ents cmds
      → (pr' : Peer DB) × (process_all p pb ents pr ≡ returns pr')
        × ((j : Bytes) → read_kv p j pr'.ps.engines ≡ spec_reads cmds j (read_kv p j pr.ps.engines))
        × (pr'.ps.apply_state.apply_index ≡ last_applied pr.ps.apply_state.apply_index ents)
        × (IsSaved p pb pr.ps → IsSaved p pb pr'.ps)
  unfolding process_all
  process_all-Runs [] [] pr c = (pr, refl, λ j. refl, refl, λ s. s)
  process_all-Runs [] (cmd ∷ cmds) pr c = absurd c
  process_all-Runs (ent ∷ ents) [] pr c = absurd c
  process_all-Runs (ent ∷ ents) (cmd ∷ cmds) pr c =
      let (mid, first, runs) = process-Runs ent cmd pr c.0 in
      let (pr', rest, reads, applied, saved) = process_all-Runs ents cmds mid c.1 in
      (
        pr',
        ground (arith, first, rest),
        λ j. reads j ∙ ap (λ (r : Result (Option Bytes)). spec_reads cmds j r) (runs.reads j),
        applied ∙ ap (λ (n : ℕ). last_applied n ents) runs.applied,
        λ s. saved (runs.saved s),
      )
