-- ===== src/Peer/Apply/Crash.antt =====
-- `process` of peer.go between its halves: what a restart finds there, what a reader finds there, and
-- what the rest of `process` comes to.
use talent_challenge.Prelude.{◌≡◌, refl, arith, ◌≤◌, some, take, drop, Option, le→leb}
use talent_challenge.Prelude.Outcome.{returns}
use talent_challenge.Prelude.Bytes.{Bytes}
use talent_challenge.Vendor.Pebble.{Pebble, IsReliable}
use talent_challenge.Storage.Engines.{read_kv}
use talent_challenge.Messages.{Entry, Proto, IsLosslessProto, RaftApplyState}
use talent_challenge.PeerStorage.State.{PeerStorage, new_peer_storage, applied_index}
use talent_challenge.PeerStorage.State.Saved.{IsSaved, reopened, new_peer_storage-IsSaved}
use talent_challenge.Peer.Commands.{new_get_cmd_response}
use talent_challenge.Peer.State.{Peer}
use talent_challenge.Peer.Apply.{mark_applied, mark_entry, run_entry, halves, run_halves, process}
use talent_challenge.Peer.Apply.Machine.{
  Command, Carries, spec_read, with_apply_state, write_apply_state-returns,
  IsSaved-with_apply_state, run_command-Runs,
}
use talent_challenge.Peer.Reading.{Read, ReadState, key, found_or_nil, read_applied}

module _ {DB : Type 0} (p : Pebble DB) (pb : Proto) (reliable : IsReliable p)
    (lossless : IsLosslessProto pb) where
  -- A peer whose states are saved processes an entry that carries a command. Behind the first half of
  -- `process` a restart counts the entry as applied, and every read of user data, there and on the
  -- databases as they are, gives what it gave before the entry, whatever the command: the command is
  -- lost if the process stops there, and a call of `readApplied` for an index up to the entry's
  -- answers with the old value. The second half, and `process` as a whole, end with the entry's
  -- index applied and every read what the command makes of it.
  pub process-halfway :
      (ent : Entry) (cmd : Command) (pr : Peer DB) (r : Read) (state : ReadState) (k : Bytes)
      (value : Option Bytes)
      → IsSaved p pb pr.ps
      → Carries pb ent cmd
      → state.index ≤ ent.index
      → key r ≡ returns k
      → found_or_nil (read_kv p k pr.ps.engines) ≡ returns value
      → (half last : Peer DB) × (restarted : PeerStorage DB) × (run_halves p pb
            (take 1 (halves p pb))
            ent
            pr
          ≡ returns half)
        × (new_peer_storage p pb half.ps.engines ≡ returns restarted)
        × (restarted.apply_state.apply_index ≡ ent.index)
        × ((j : Bytes) → read_kv p j restarted.engines ≡ read_kv p j pr.ps.engines)
        × (read_applied p state r half ≡ returns (some (new_get_cmd_response value)))
        × (run_halves p pb (drop 1 (halves p pb)) ent half ≡ returns last)
        × (process p pb ent pr ≡ returns last)
        × (last.ps.apply_state.apply_index ≡ ent.index)
        × ((j : Bytes) → read_kv p j last.ps.engines ≡ spec_read cmd j (read_kv p j pr.ps.engines))
  unfolding process halves run_halves mark_entry run_entry mark_applied read_kv read_applied
      applied_index
  process-halfway ent cmd pr r state k value s carried early keyed held =
      let a : RaftApplyState = record pr.ps.apply_state { apply_index = ent.index } in
      let marked = with_apply_state p pb reliable lossless a pr.ps in
      let half : Peer DB = record pr { ps = marked } in
      let written = write_apply_state-returns p pb reliable lossless a pr.ps in
      let (last, ran, runs) = run_command-Runs p pb reliable lossless cmd half in
      (
        half,
        last,
        reopened p pb marked,
        ground (arith, written),
        new_peer_storage-IsSaved p pb marked
            (IsSaved-with_apply_state p pb reliable lossless a pr.ps s),
        refl,
        λ j. refl,
        rw (le→leb state.index ent.index early) (rw keyed (rw held refl)),
        ground (arith, carried, ran),
        ground (arith, written, carried, ran),
        runs.applied,
        runs.reads,
      )
