-- ===== src/PeerStorage/Append.antt =====
-- peer_storage.go: `truncateAndAppend`, which makes the entries of a Ready the end of the log.
pub mod Writes
pub mod Shapes
pub mod Refines
use talent_challenge.Prelude.{
  ℕ, zero, suc, ◌+◌, ◌-◌, ◌^◌, Bool, true, false, List, [], ◌∷◌, length, drop, ltb, leb, ◌==◌,
  if◌then◌else◌,
}
use talent_challenge.Prelude.Outcome.{Outcome, returns, diverges, ◌>>=◌, ◌>>◌, check}
use talent_challenge.Vendor.Pebble.{Pebble}
use talent_challenge.Messages.{Entry, Proto}
use talent_challenge.PeerStorage.State.{
  PeerStorage, u64, first_index, last_index, truncate_index, append_log_entries, delete_log_entries,
}

-- `ents[len(ents)-1]`
abbrev pub last_entry : Entry → List Entry → Entry
last_entry ent [] = ent
last_entry ent (next ∷ ents) = last_entry next ents

-- `raftpb.Entry{Index: i}`
abbrev pub entry_at : ℕ → Entry
entry_at i = record { term = 0; index = i; entry_type = 0; payload = [] }

-- `for i := …; i <= lasti; i++`: at the largest uint64 the index wraps, and the loop never ends.
unfoldable pub deleted_range : (fuel i lasti : ℕ) → Outcome (List Entry)
deleted_range zero i lasti = diverges
deleted_range (suc fuel) i lasti =
    let rest = deleted_range fuel (u64 (i + 1)) lasti in
    if leb i lasti then (do ents ← rest; returns (entry_at i ∷ ents)) else returns []

module _ {DB : Type 0} (p : Pebble DB) (pb : Proto) where
  -- `if firsti > ents[0].Index { ents = ents[…:] }`
  unfoldable pub cut_compacted : Entry → List Entry → PeerStorage DB → Outcome (List Entry)
  unfolding first_index truncate_index
  cut_compacted ent ents ps =
      let skip = u64 (u64 (truncate_index ps + 2 ^ 64 - ent.index) + 1) in
      if ltb ent.index (first_index ps)
      then (do check (leb skip (length (ent ∷ ents))); returns (drop skip (ent ∷ ents)))
      else returns (ent ∷ ents)

  -- The entries after the last new one are deleted; the error of the deletion is dropped.
  unfoldable pub delete_after : ℕ → PeerStorage DB → Outcome (PeerStorage DB)
  unfolding last_index
  delete_after last ps =
      let delete = (do
        deleted ← deleted_range (last_index ps + 1) (u64 (last + 1)) (last_index ps)
        returns (delete_log_entries p pb deleted ps).1) in
      if ltb last (last_index ps) then delete else returns ps

  unfoldable pub truncate_and_append : List Entry → PeerStorage DB → Outcome (PeerStorage DB)
  unfolding first_index
  truncate_and_append [] ps = returns ps
  truncate_and_append (ent ∷ ents) ps =
      let last = last_entry ent ents in
      let append = (do
        kept ← cut_compacted ent ents ps
        r ← append_log_entries p pb kept ps
        ps' ← delete_after last.index r.1
        returns (record ps' {
          local_state = record ps'.local_state { last_index = last.index; last_term = last.term };
        })) in
      if ltb last.index (first_index ps) then returns ps else append
