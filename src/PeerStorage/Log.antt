-- ===== src/PeerStorage/Log.antt =====
-- peer_storage.go: what raft reads of the log, `Entries` and `Term`, with their range check.
pub mod Spec
pub mod Reads
use talent_challenge.Prelude.{
  ℕ, zero, suc, ◌+◌, ◌-◌, Bool, true, false, Option, none, some, List, [], ◌∷◌, length, ltb, leb,
  ◌==◌, if◌then◌else◌,
}
use talent_challenge.Prelude.Outcome.{
  Error, Result, ok, err, compacted, unavailable, low_above_high, high_out_of_bound,
}
use talent_challenge.Vendor.Pebble.{Pebble}
use talent_challenge.Storage.Engines.{Engines, read_meta}
use talent_challenge.Messages.{Entry, Proto}
use talent_challenge.Meta.Key.{raft_log_entry_key}
use talent_challenge.Meta.Value.{parse_as}
use talent_challenge.PeerStorage.State.{PeerStorage, u64, truncate_index, truncate_term, last_index}

unfoldable pub check_range : {DB : Type 0} → ℕ → ℕ → PeerStorage DB → Option Error
unfolding truncate_index
check_range lo hi ps =
    if ltb hi lo
    then some low_above_high
    else if ltb (u64 (ps.local_state.last_index + 1)) hi
    then some high_out_of_bound
    else if leb lo (truncate_index ps)
    then some compacted
    else none

module _ {DB : Type 0} (p : Pebble DB) (pb : Proto) where
  -- The entry stored for an index, as the loop of `Entries` and the end of `Term` read it.
  unfoldable pub read_entry : ℕ → Engines DB → Result Entry
  read_entry i engines = elim (read_meta p (raft_log_entry_key i) engines) [
    | ok val ↦ parse_as pb.entry val
    | err e ↦ err e
  ]

  -- `rounds` is `hi - i`. The loop breaks at an entry of another index.
  unfoldable pub entries_loop : (rounds i : ℕ) → Engines DB → Result (List Entry)
  entries_loop zero i engines = ok []
  entries_loop (suc rounds) i engines =
      let rest = entries_loop rounds (i + 1) engines in
      elim (read_entry i engines) [
        | ok ent ↦
            if ent.index == i
            then elim rest [ ok ents ↦ ok (ent ∷ ents) | err e ↦ err e ]
            else ok []
        | err e ↦ err e
      ]

  -- `maxSize` is not used.
  unfoldable pub entries : (lo hi max_size : ℕ) → PeerStorage DB → Result (List Entry)
  entries lo hi max_size ps =
      let found = entries_loop (hi - lo) lo ps.engines in
      elim (check_range lo hi ps) [
        | some e ↦ err e
        | none ↦ if lo == hi then ok [] else elim found [
          | ok ents ↦ if length ents == hi - lo then ok ents else err unavailable
          | err e ↦ err e
        ]
      ]

  unfoldable pub term : ℕ → PeerStorage DB → Result ℕ
  term i ps =
      if i == truncate_index ps
      then ok (truncate_term ps)
      else elim (check_range i (u64 (i + 1)) ps) [
        | some e ↦ err e
        | none ↦
            if i == last_index ps
            then ok ps.local_state.last_term
            else elim (read_entry i ps.engines) [ ok ent ↦ ok ent.term | err e ↦ err e ]
      ]
