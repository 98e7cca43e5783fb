-- ===== src/Peer/Compaction/Due.antt =====
-- `tickLogGC` of peer.go tick after tick: when the check for a compaction is made.
use talent_challenge.Prelude.{
  ℕ, zero, suc, ◌+◌, ◌-◌, ◌≤◌, ◌<◌, ◌≡◌, refl, ap, ◌∙◌, Option, none, some, List, [], ◌∷◌, ◌++◌,
  arith, le→leb, lt→leb,
}
use talent_challenge.Prelude.Outcome.{ok, Outcome, returns, ◌>>=◌}
use talent_challenge.Vendor.Pebble.{Pebble}
use talent_challenge.Messages.{Proto, RaftCmdRequest}
use talent_challenge.PeerStorage.Log.Spec.{Log, last_of, spec_term, Represents}
use talent_challenge.Peer.Commands.{new_compact_cmd_request}
use talent_challenge.Peer.State.{Peer}
use talent_challenge.Peer.Compaction.{on_log_gc_task, tick_log_gc}
use talent_challenge.Peer.Compaction.Trigger.{on_log_gc_task-Represents}

abbrev pub proposed : Option RaftCmdRequest → List RaftCmdRequest
proposed none = []
proposed (some cmd) = cmd ∷ []

module _ {DB : Type 0} (p : Pebble DB) (pb : Proto) where
  -- Ticks one after another under one leader: the peer after them and what they propose
  unfoldable pub ticks : (n lead : ℕ) → Peer DB → Outcome (Peer DB × List RaftCmdRequest)
  unfolding tick_log_gc
  ticks zero lead pr = returns (pr, [])
  ticks (suc n) lead pr = do
    first ← tick_log_gc p pb lead pr
    rest ← ticks n lead first.0
    returns (rest.0, proposed first.1 ++ rest.1)

  tick_log_gc-counts :
      (lead : ℕ) (pr : Peer DB)
      → pr.compaction_elapse + 1 < pr.compaction_timeout
      → tick_log_gc p pb lead pr
        ≡ returns (record pr { compaction_elapse = pr.compaction_elapse + 1 }, none)
  unfolding tick_log_gc
  tick_log_gc-counts lead pr early =
      rw (lt→leb pr.compaction_timeout (pr.compaction_elapse + 1) early) refl

  tick_log_gc-due :
      (lead : ℕ) (pr : Peer DB) (cmd : Option RaftCmdRequest)
      → pr.compaction_timeout ≤ pr.compaction_elapse + 1
      → on_log_gc_task p pb lead (record pr { compaction_elapse = 0 }) ≡ returns cmd
      → tick_log_gc p pb lead pr ≡ returns (record pr { compaction_elapse = 0 }, cmd)
  unfolding tick_log_gc
  tick_log_gc-due lead pr cmd due task =
      rw (le→leb pr.compaction_timeout (pr.compaction_elapse + 1) due) (rw task refl)

  -- A leader whose storage represents a log, with an applied index in it that is at least 1000 past
  -- the first entry, and whose counter is short of the timeout by some number of ticks: after exactly
  -- so many ticks it has proposed one command, the compaction up to the index before the applied
  -- one with the term that the log has there, and its counter is 0 again.
  pub ticks-proposes :
      (n lead : ℕ) (pr : Peer DB) (log : Log)
      → pr.compaction_elapse + suc n ≡ pr.compaction_timeout
      → Represents p pb pr.ps log
      → pr.ps.apply_state.apply_index ≤ last_of log
      → lead ≡ pr.id
      → log.offset + 1001 ≤ pr.ps.apply_state.apply_index
      → (t : ℕ) × (spec_term (pr.ps.apply_state.apply_index - 1) log ≡ ok t)
        × (ticks (suc n) lead pr
            ≡ returns (
              record pr { compaction_elapse = 0 },
              new_compact_cmd_request (pr.ps.apply_state.apply_index - 1) t ∷ [],
            ))
  unfolding ticks
  ticks-proposes zero lead pr log due r below leads enough =
      let (ent, picked, found, task) =
        (on_log_gc_task-Represents p pb lead (record pr { compaction_elapse = 0 }) log r below).1
          leads enough in
      let cmd = new_compact_cmd_request (pr.ps.apply_state.apply_index - 1) ent.term in
      (
        ent.term,
        found,
        ap (λ first. first >>= λ f. returns (f.0, proposed f.1 ++ []))
            (tick_log_gc-due lead pr (some cmd) (omega arith) task),
      )
  ticks-proposes (suc n) lead pr log due r below leads enough =
      let counted : Peer DB = record pr { compaction_elapse = pr.compaction_elapse + 1 } in
      let (t, found, rest) = ticks-proposes n lead counted log (omega arith) r below leads enough in
      (
        t,
        found,
        ap
              (λ first. first >>= λ f.
                (ticks (suc n) lead f.0 >>= λ later. returns (later.0, proposed f.1 ++ later.1)))
              (tick_log_gc-counts lead pr (omega arith))
            ∙ ap (λ later. later >>= λ l. returns (l.0, l.1)) rest,
      )
