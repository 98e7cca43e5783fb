-- ===== src/Peer/Compaction.antt =====
-- peer.go: the compaction of the log on ticks, and the collection of compacted entries.
pub mod Garbage
pub mod Trigger
pub mod Due
use talent_challenge.Prelude.{
  ℕ, ◌+◌, ◌-◌, ◌^◌, Bool, true, false, Option, none, some, ltb, leb, ◌&&◌, ◌==◌, if◌then◌else◌,
}
use talent_challenge.Prelude.Outcome.{
  Error, Result, ok, err, Outcome, returns, panics, bad_message, ◌>>=◌,
}
use talent_challenge.Prelude.Bytes.{Bytes}
use talent_challenge.Vendor.Pebble.{Pebble}
use talent_challenge.Messages.{Proto, RaftCmdRequest}
use talent_challenge.PeerStorage.State.{
  PeerStorage, u64, applied_index, first_index, delete_log_entries,
}
use talent_challenge.PeerStorage.Log.{entries, term}
use talent_challenge.Peer.Commands.{new_compact_cmd_request}
use talent_challenge.Peer.State.{Peer, default_log_gc_count_limit}

-- `math.MaxUint64`
abbrev max_uint64 : ℕ
max_uint64 = 2 ^ 64 - 1

-- `propose`, up to the call of raft's `Propose` with the bytes
unfoldable pub propose : Proto → RaftCmdRequest → Result Bytes
propose pb cmd = elim (pb.command.marshal cmd) [ none ↦ err bad_message | some bytes ↦ ok bytes ]

module _ {DB : Type 0} (p : Pebble DB) (pb : Proto) where
  -- `gcRaftLog`: its error, and the storage after it
  unfoldable pub gc_raft_log : (start end : ℕ) → PeerStorage DB → Option Error × PeerStorage DB
  gc_raft_log start end ps = elim (entries p pb start end max_uint64 ps) [
    | err e ↦ (some e, ps)
    | ok ents ↦ delete_log_entries p pb ents ps
  ]

  -- `onLogGCTask`, with the leader that raft reports: the command that it proposes. A failure of
  -- `Term` ends the process, which counts as a panic.
  unfoldable pub on_log_gc_task : (lead : ℕ) → Peer DB → Outcome (Option RaftCmdRequest)
  unfolding applied_index first_index
  on_log_gc_task lead pr =
      let applied = applied_index pr.ps in
      let first = first_index pr.ps in
      let compact_idx = applied - 1 in
      let compact : Outcome (Option RaftCmdRequest) = elim (term p pb compact_idx pr.ps) [
        | ok t ↦ returns (some (new_compact_cmd_request compact_idx t))
        | err e ↦ panics
      ] in
      if lead == pr.id
      then (if ltb first applied && leb default_log_gc_count_limit (applied - first)
          then compact
          else returns none)
      else returns none

  -- `tickLogGC`: the peer after it and what is proposed
  unfoldable pub tick_log_gc : (lead : ℕ) → Peer DB → Outcome (Peer DB × Option RaftCmdRequest)
  tick_log_gc lead pr =
      let elapse = pr.compaction_elapse + 1 in
      let reset : Peer DB = record pr { compaction_elapse = 0 } in
      let due = (do cmd ← on_log_gc_task lead reset; returns (reset, cmd)) in
      if leb pr.compaction_timeout elapse
      then due
      else returns (record pr { compaction_elapse = elapse }, none)
