-- ===== src/Peer/Apply.antt =====
-- peer.go: a committed entry is marked as applied, then run.
pub mod Machine
pub mod Crash
pub mod Logged
pub mod Halves
use talent_challenge.Prelude.{
  ℕ, ◌+◌, true, Option, none, some, List, [], ◌∷◌, ◌++◌, leb, if◌then◌else◌,
}
use talent_challenge.Prelude.Outcome.{Outcome, returns, panics, ◌>>=◌}
use talent_challenge.Vendor.Pebble.{Pebble}
use talent_challenge.Storage.Modify
use talent_challenge.Storage.Engines.{write_kv}
use talent_challenge.Messages.{
  Entry, Proto, Request, AdminRequest, AdminCmdType, CompactLogRequest, RaftCmdRequest, PutRequest,
  DeleteRequest, get_cmd, put_cmd, delete_cmd, compact_log_cmd,
}
use talent_challenge.PeerStorage.State.{PeerStorage, u64, write_apply_state}
use talent_challenge.Peer.State.{Peer}

-- A use of a nil pointer panics.
abbrev pub deref : {A : Type 0} → Option A → Outcome A
deref none = panics
deref (some a) = returns a

module _ {DB : Type 0} (p : Pebble DB) (pb : Proto) where
  -- The errors of the writes are dropped.
  unfoldable pub process_request : Request → PeerStorage DB → Outcome (PeerStorage DB)
  process_request request ps = elim request.cmd_type [
    | put_cmd ↦ (do
      put ← deref request.put
      let r = write_kv p (Modify.put_data put.key put.value true) ps.engines
      returns (record ps { engines = r.1 }))
    | delete_cmd ↦ (do
      delete ← deref request.delete
      let r = write_kv p (Modify.delete_data delete.key true) ps.engines
      returns (record ps { engines = r.1 }))
    | get_cmd ↦ returns ps
  ]

  -- The case of `CompactLog`; `applySt` is the pointer to the storage's own apply state.
  unfoldable pub compact : CompactLogRequest → Peer DB → Outcome (Peer DB)
  compact compact_log pr =
      let index = compact_log.compact_index in
      let apply_st = pr.ps.apply_state in
      let compacted : PeerStorage DB = record pr.ps {
        apply_state = record apply_st {
          truncated_state = record { index = index; term = compact_log.compact_term };
        };
      } in
      let advance = (do
        r ← write_apply_state p pb compacted
        returns (record pr {
          ps = r.1;
          gc_tasks = pr.gc_tasks ++ (u64 (pr.last_compacted_idx + 1), u64 (index + 1)) ∷ [];
          last_compacted_idx = index;
        })) in
      if leb apply_st.truncated_state.index index then advance else returns pr

  -- The `switch` on the type of an administrative request
  unfoldable pub switch_admin : AdminCmdType → AdminRequest → Peer DB → Outcome (Peer DB)
  switch_admin compact_log_cmd request pr = do
    compact_log ← deref request.compact_log
    compact compact_log pr

  unfoldable pub process_admin_request : AdminRequest → Peer DB → Outcome (Peer DB)
  unfolding switch_admin
  process_admin_request request pr = switch_admin request.cmd_type request pr

  -- The first two lines of `process`: the entry counts as applied from here on.
  unfoldable pub mark_applied : Entry → PeerStorage DB → Outcome (PeerStorage DB)
  mark_applied ent ps = do
    r ←
        write_apply_state p pb
          (record ps { apply_state = record ps.apply_state { apply_index = ent.index } })
    returns r.1

  -- The rest of `process`
  unfoldable pub run_command : RaftCmdRequest → Peer DB → Outcome (Peer DB)
  run_command cmd pr = elim cmd.request [
    | some request ↦ (do ps ← process_request request pr.ps; returns (record pr { ps = ps }))
    | none ↦ elim cmd.admin_request [
      | some request ↦ process_admin_request request pr
      | none ↦ returns pr
    ]
  ]

  -- The lines of `process` behind the first two
  unfoldable pub run_entry : Entry → Peer DB → Outcome (Peer DB)
  run_entry ent pr = do cmd ← deref (pb.command.unmarshal ent.payload); run_command cmd pr

  unfoldable pub mark_entry : Entry → Peer DB → Outcome (Peer DB)
  mark_entry ent pr = do ps ← mark_applied ent pr.ps; returns (record pr { ps = ps })

  -- The halves of `process`, in the order of its lines. Other goroutines run between them, and the
  -- process may stop there.
  unfoldable pub halves : List (Entry → Peer DB → Outcome (Peer DB))
  unfolding run_entry mark_entry
  halves = mark_entry ∷ run_entry ∷ []

  unfoldable pub run_halves :
      List (Entry → Peer DB → Outcome (Peer DB)) → Entry → Peer DB → Outcome (Peer DB)
  run_halves [] ent pr = returns pr
  run_halves (half ∷ rest) ent pr = do pr' ← half ent pr; run_halves rest ent pr'

  unfoldable pub process : Entry → Peer DB → Outcome (Peer DB)
  unfolding halves run_halves
  process ent pr = run_halves halves ent pr

  -- The loop of `handleReady` over the committed entries
  unfoldable pub process_all : List Entry → Peer DB → Outcome (Peer DB)
  process_all [] pr = returns pr
  process_all (ent ∷ ents) pr = do pr' ← process ent pr; process_all ents pr'
