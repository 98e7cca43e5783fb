-- ===== src/PeerStorage/Log/Reads.antt =====
-- `Entries` and `Term` of peer_storage.go return what the represented log has, or its error.
use talent_challenge.Prelude.{
  ℕ, zero, suc, ◌+◌, ◌-◌, ◌^◌, ◌≤◌, ◌<◌, ◌≡◌, refl, some, List, [], ◌∷◌, length, take, drop,
  get_elem?, arith, length-take, length-drop,
}
use native.Mathlib.Nat.{add-zero}
use native.Mathlib.Decide.{dec_lt}
use talent_challenge.Prelude.Outcome.{ok}
use talent_challenge.Vendor.Pebble.{Pebble}
use talent_challenge.Storage.Engines.{Engines}
use talent_challenge.Messages.{Entry, Proto}
use talent_challenge.PeerStorage.State.{PeerStorage, truncate_index, truncate_term, last_index}
use talent_challenge.PeerStorage.Append.{last_entry}
use talent_challenge.PeerStorage.Log.{read_entry, check_range, entries_loop, entries, term}
use talent_challenge.PeerStorage.Log.Spec.{
  Log, last_of, last_term_or, spec_entries, spec_term, Consecutive, Holds, Represents,
}

pub Consecutive-drop :
    (n i : ℕ) (ents : List Entry) → Consecutive i ents → Consecutive (i + n) (drop n ents)
Consecutive-drop zero i ents h = rw add-zero h
Consecutive-drop (suc n) i [] h = tt
Consecutive-drop (suc n) i (ent ∷ ents) h =
    let e : i + suc n ≡ i + 1 + n = omega arith in rw e (Consecutive-drop n (i + 1) ents h.1)

pub Consecutive-take :
    (n i : ℕ) (ents : List Entry) → Consecutive i ents → Consecutive i (take n ents)
Consecutive-take zero i ents h = tt
Consecutive-take (suc n) i [] h = tt
Consecutive-take (suc n) i (ent ∷ ents) h = (h.0, Consecutive-take n (i + 1) ents h.1)

module _ {DB : Type 0} (p : Pebble DB) (pb : Proto) (engines : Engines DB) where
  pub Holds-drop :
      (n i : ℕ) (ents : List Entry)
      → Holds p pb i ents engines
      → Holds p pb (i + n) (drop n ents) engines
  Holds-drop zero i ents h = rw add-zero h
  Holds-drop (suc n) i [] h = tt
  Holds-drop (suc n) i (ent ∷ ents) h =
      let e : i + suc n ≡ i + 1 + n = omega arith in rw e (Holds-drop n (i + 1) ents h.1)

  pub Holds-take :
      (n i : ℕ) (ents : List Entry) → Holds p pb i ents engines → Holds p pb i (take n ents) engines
  Holds-take zero i ents h = tt
  Holds-take (suc n) i [] h = tt
  Holds-take (suc n) i (ent ∷ ents) h = (h.0, Holds-take n (i + 1) ents h.1)

  pub entries_loop-Holds :
      (i : ℕ) (ents : List Entry)
      → Consecutive i ents
      → Holds p pb i ents engines
      → entries_loop p pb (length ents) i engines ≡ ok ents
  unfolding entries_loop
  entries_loop-Holds i [] c h = refl
  entries_loop-Holds i (ent ∷ ents) c h =
      ground (arith, h.0, c.0, entries_loop-Holds (i + 1) ents c.1 h.1)

  -- The entry at a position of the entries that are held.
  pub read_entry-Holds :
      (n i : ℕ) (ents : List Entry)
      → Holds p pb i ents engines
      → n < length ents
      → (ent : Entry) × (get_elem? ents n ≡ some ent) × (read_entry p pb (i + n) engines ≡ ok ent)
  read_entry-Holds n i [] h lt = absurd (omega arith)
  read_entry-Holds zero i (ent ∷ ents) h lt = (ent, refl, rw add-zero h.0)
  read_entry-Holds (suc n) i (ent ∷ ents) h lt =
      let e : i + suc n ≡ i + 1 + n = omega arith in
      rw e (read_entry-Holds n (i + 1) ents h.1 (omega arith))

pub get_elem?-last :
    (t : ℕ) (ent : Entry) (ents : List Entry)
    → get_elem? (ent ∷ ents) (length ents) ≡ some (last_entry ent ents)
get_elem?-last t ent [] = refl
get_elem?-last t ent (next ∷ ents) = get_elem?-last t next ents

take_none : (n : ℕ) (ents : List Entry) → n ≡ 0 → take n ents ≡ []
take_none zero ents h = refl
take_none (suc n) ents h = absurd (omega arith)

module _ {DB : Type 0} (p : Pebble DB) (pb : Proto) where
  -- The loop over a range inside the log.
  read_range :
      (lo hi : ℕ) (ps : PeerStorage DB) (log : Log)
      → Represents p pb ps log
      → log.offset < lo
      → lo ≤ hi
      → hi ≤ last_of log + 1
      → (entries_loop p pb (hi - lo) lo ps.engines
          ≡ ok (take (hi - lo) (drop (lo - log.offset - 1) log.items)))
        × (length (take (hi - lo) (drop (lo - log.offset - 1) log.items)) ≡ hi - lo)
  read_range lo hi ps log r above ordered below =
      let skip = lo - log.offset - 1 in
      let ents = take (hi - lo) (drop skip log.items) in
      let at : log.offset + 1 + skip ≡ lo = omega arith in
      let len : length ents ≡ hi - lo =
        omega (arith, length-take (hi - lo) (drop skip log.items), length-drop skip log.items) in
      let consecutive : Consecutive (log.offset + 1 + skip) ents =
        Consecutive-take (hi - lo) (log.offset + 1 + skip) (drop skip log.items)
          (Consecutive-drop skip (log.offset + 1) log.items r.consecutive) in
      let holds : Holds p pb (log.offset + 1 + skip) ents ps.engines =
        Holds-take p pb ps.engines (hi - lo) (log.offset + 1 + skip) (drop skip log.items)
          (Holds-drop p pb ps.engines skip (log.offset + 1) log.items r.holds) in
      let found =
        entries_loop-Holds p pb ps.engines (log.offset + 1 + skip) ents consecutive holds in
      (cc (found, at, len), len)

  -- For every range, `Entries` returns the entries of the log between its bounds, or the error
  -- that the range deserves.
  pub entries-Represents :
      (lo hi max_size : ℕ) (ps : PeerStorage DB) (log : Log)
      → Represents p pb ps log
      → entries p pb lo hi max_size ps ≡ spec_entries lo hi log
  unfolding entries check_range truncate_index
  entries-Represents lo hi max_size ps log r =
      ground (
        arith,
        read_range lo hi ps log r,
        take_none (hi - lo) (drop (lo - log.offset - 1) log.items),
      )

  last_term_lem :
      (t n : ℕ) (ents : List Entry)
      → length ents ≡ suc n
      → (ent : Entry) × (get_elem? ents n ≡ some ent) × (ent.term ≡ last_term_or t ents)
  last_term_lem t n [] h = absurd (omega arith)
  last_term_lem t n (ent ∷ ents) h =
      let e : n ≡ length ents = omega arith in
      (last_entry ent ents, rw e (get_elem?-last t ent ents), refl)

  -- For every index below the largest uint64, `Term` returns the term of the log at the index, its
  -- first compacted term included, or the error that the index deserves.
  pub term-Represents :
      (i : ℕ) (ps : PeerStorage DB) (log : Log)
      → Represents p pb ps log
      → i + 1 < 2 ^ 64
      → term p pb i ps ≡ spec_term i log
  unfolding term check_range truncate_index truncate_term last_index
  term-Represents i ps log r small = elim (dec_lt log.offset i) [
    | no low ↦ ground (arith, low)
    | yes above ↦ elim (dec_lt (last_of log) i) [
      | yes past ↦ ground (arith, above, past)
      | no within ↦
          let skip = i - log.offset - 1 in
          let at : log.offset + 1 + skip ≡ i = omega arith in
          let (ent, picked, read) =
            read_entry-Holds p pb ps.engines skip (log.offset + 1) log.items r.holds
              (omega arith) in
          let read_at : read_entry p pb i ps.engines ≡ ok ent = cc (read, at) in
          let at_last : i ≡ last_of log → ent.term ≡ last_term_or log.offset_term log.items = λ e.
            let (other, picked', same) =
              last_term_lem log.offset_term skip log.items (omega arith) in
            ground (arith, picked, picked', same) in
          ground (arith, above, within, picked, read_at, at_last)
    ]
  ]
