-- ===== src/Peer/Apply/Halves.antt =====
-- `process` of peer.go by halves: the log, the states and the user data behind each.
use talent_challenge.Prelude.{◌≡◌, refl, sym, subst, ◌∙◌, take, drop, arith}
use talent_challenge.Prelude.Outcome.{returns, returns-injective}
use talent_challenge.Prelude.Bytes.{Bytes}
use talent_challenge.Vendor.Pebble.{Pebble, IsReliable}
use talent_challenge.Storage.Engines.{read_kv}
use talent_challenge.Messages.{Entry, Proto, IsLosslessProto, RaftApplyState}
use talent_challenge.PeerStorage.State.{PeerStorage}
use talent_challenge.PeerStorage.State.Saved.{IsSaved}
use talent_challenge.PeerStorage.Log.Spec.{Log, Represents}
use talent_challenge.Peer.State.{Peer}
use talent_challenge.Peer.Apply.{mark_applied, mark_entry, run_entry, halves, run_halves}
use talent_challenge.Peer.Apply.Machine.{
  Command, Carries, Runs, with_apply_state, write_apply_state-returns, IsSaved-with_apply_state,
  run_command-Runs,
}
use talent_challenge.Peer.Apply.Logged.{
  spec_cut, CutsAt, mark_applied-Represents, run_command-Represents,
}

module _ {DB : Type 0} (p : Pebble DB) (pb : Proto) (reliable : IsReliable p)
    (lossless : IsLosslessProto pb) where
  pub first_half :
      (ent : Entry) (pr : Peer DB) (log : Log)
      → Represents p pb pr.ps log
      → IsSaved p pb pr.ps
      → (half : Peer DB) × (run_halves p pb (take 1 (halves p pb)) ent pr ≡ returns half)
        × Represents p pb half.ps log
        × IsSaved p pb half.ps
        × (half.ps.apply_state.apply_index ≡ ent.index)
        × ((j : Bytes) → read_kv p j half.ps.engines ≡ read_kv p j pr.ps.engines)
  unfolding halves run_halves mark_entry mark_applied read_kv
  first_half ent pr log r s =
      let a : RaftApplyState = record pr.ps.apply_state { apply_index = ent.index } in
      let marked = with_apply_state p pb reliable lossless a pr.ps in
      let written = write_apply_state-returns p pb reliable lossless a pr.ps in
      let (ps, done, r') = mark_applied-Represents p pb reliable lossless ent pr.ps log r in
      let same : ps ≡ marked = returns-injective (sym done ∙ ground (arith, written)) in
      (
        record pr { ps = marked },
        ground (arith, written),
        subst (λ (x : PeerStorage DB). Represents p pb x log) same r',
        IsSaved-with_apply_state p pb reliable lossless a pr.ps s,
        refl,
        λ j. refl,
      )

  pub second_half :
      (ent : Entry) (cmd : Command) (pr : Peer DB) (log : Log)
      → Carries pb ent cmd
      → Represents p pb pr.ps log
      → CutsAt cmd log
      → (last : Peer DB) × (run_halves p pb (drop 1 (halves p pb)) ent pr ≡ returns last)
        × Represents p pb last.ps (spec_cut cmd log)
        × Runs p pb reliable lossless cmd pr.ps.apply_state.apply_index pr.ps last.ps
  unfolding halves run_halves run_entry
  second_half ent cmd pr log carried r cuts =
      let (last, ran, runs) = run_command-Runs p pb reliable lossless cmd pr in
      let (last', ran', r') = run_command-Represents p pb reliable lossless cmd pr log r cuts in
      let same : last' ≡ last = returns-injective (sym ran' ∙ ran) in
      (
        last,
        ground (arith, carried, ran),
        subst (λ (x : Peer DB). Represents p pb x.ps (spec_cut cmd log)) same r',
        runs,
      )
