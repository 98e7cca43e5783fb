-- ===== src/PeerStorage/Log/Spec.antt =====
-- A raft log as its reader sees it: the entries after a compacted prefix. `Represents` says that
-- a peer's storage holds such a log.
use talent_challenge.Prelude.{
  ℕ, ◌+◌, ◌-◌, ◌^◌, ◌<◌, ◌≤◌, ◌≡◌, none, some, List, [], ◌∷◌, ◌++◌, length, take, drop, get_elem?,
  ltb, leb, ◌==◌, if◌then◌else◌,
}
use talent_challenge.Prelude.Outcome.{
  Result, ok, err, compacted, unavailable, low_above_high, high_out_of_bound,
}
use talent_challenge.Vendor.Pebble.{Pebble}
use talent_challenge.Storage.Engines.{Engines}
use talent_challenge.Messages.{Entry, Proto}
use talent_challenge.PeerStorage.State.{PeerStorage}
use talent_challenge.PeerStorage.Append.{last_entry}
use talent_challenge.PeerStorage.Log.{read_entry}

pub record Log : Type 0 where
  pub offset : ℕ
  pub offset_term : ℕ
  pub items : List Entry

abbrev pub last_of : Log → ℕ
last_of log = log.offset + length log.items

abbrev pub last_term_or : ℕ → List Entry → ℕ
last_term_or t [] = t
last_term_or t (ent ∷ ents) = (last_entry ent ents).term

abbrev pub spec_entries : ℕ → ℕ → Log → Result (List Entry)
spec_entries lo hi log =
    if ltb hi lo
    then err low_above_high
    else if ltb (last_of log + 1) hi
    then err high_out_of_bound
    else if leb lo log.offset
    then err compacted
    else ok (take (hi - lo) (drop (lo - log.offset - 1) log.items))

abbrev pub spec_term : ℕ → Log → Result ℕ
spec_term i log =
    if i == log.offset
    then ok log.offset_term
    else if ltb (last_of log) i
    then err high_out_of_bound
    else if ltb i log.offset
    then err compacted
    else elim (get_elem? log.items (i - log.offset - 1)) [
      | some ent ↦ ok ent.term
      | none ↦ err unavailable
    ]

-- The entries have the indices from `i` on.
abbrev pub Consecutive : ℕ → List Entry → Type 0
Consecutive i [] = Unit
Consecutive i (ent ∷ ents) = (ent.index ≡ i) × Consecutive (i + 1) ents

module _ {DB : Type 0} (p : Pebble DB) (pb : Proto) where
  -- The metadata holds the entries under the indices from `i` on.
  abbrev pub Holds : ℕ → List Entry → Engines DB → Type 0
  Holds i [] engines = Unit
  Holds i (ent ∷ ents) engines = (read_entry p pb i engines ≡ ok ent) × Holds (i + 1) ents engines

  pub record Represents (ps : PeerStorage DB) (log : Log) : Type 0 where
    pub offset : ps.apply_state.truncated_state.index ≡ log.offset
    pub offset_term : ps.apply_state.truncated_state.term ≡ log.offset_term
    pub last : ps.local_state.last_index ≡ log.offset + length log.items
    pub last_term : ps.local_state.last_term ≡ last_term_or log.offset_term log.items
    pub consecutive : Consecutive (log.offset + 1) log.items
    pub holds : Holds (log.offset + 1) log.items ps.engines
    pub bounded : log.offset + length log.items + 1 < 2 ^ 64

-- The part of the new entries that is not compacted yet.
abbrev pub fresh : ℕ → Entry → List Entry → List Entry
fresh offset ent ents =
    if leb ent.index offset then drop (offset + 1 - ent.index) (ent ∷ ents) else ent ∷ ents

-- New entries replace all that stood from their first index on.
abbrev pub spec_append : List Entry → Log → Log
spec_append [] log = log
spec_append (ent ∷ ents) log =
    if leb (last_entry ent ents).index log.offset then log else record log {
      items = take (ent.index - log.offset - 1) log.items ++ fresh log.offset ent ents;
    }

-- What raft hands over: entries with consecutive indices, which leave no gap behind the log.
abbrev pub IsBatch : List Entry → Log → Type 0
IsBatch [] log = Unit
IsBatch (ent ∷ ents) log =
    Consecutive ent.index (ent ∷ ents)
    × (ent.index ≤ last_of log + 1)
    × ((last_entry ent ents).index + 1 < 2 ^ 64)
