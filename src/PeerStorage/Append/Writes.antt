-- ===== src/PeerStorage/Append/Writes.antt =====
-- The engines after the loops of `appendLogEntries` and `deleteLogEntries`, on a reliable disk.
use talent_challenge.Prelude.{
  ℕ, zero, suc, ◌+◌, ◌-◌, ◌^◌, ◌≤◌, ◌<◌, ◌≡◌, refl, ◌∙◌, ◌⊎◌, false, none, List, [], ◌∷◌, length,
  arith,
}
use native.Mathlib.Decide.{dec_lt}
use talent_challenge.Prelude.Outcome.{returns}
use talent_challenge.Prelude.Bytes.{Bytes, bytes_eq}
use talent_challenge.Vendor.Pebble.{Pebble, IsReliable}
use talent_challenge.Storage.Engines.{Engines, read_meta}
use talent_challenge.Messages.{Entry, Proto, IsLosslessProto}
use talent_challenge.Meta.Key.{raft_log_entry_key}
use talent_challenge.PeerStorage.State.{PeerStorage, u64, append_log_entries, delete_log_entries}
use talent_challenge.PeerStorage.State.Writes.{
  with_meta, without_meta, put_meta-returns, delete_meta-eq, read_entry-with_entry,
  read_entry-without_entry, read_meta-with_meta, read_meta-without_meta,
}
use talent_challenge.PeerStorage.Log.{read_entry}
use talent_challenge.PeerStorage.Log.Spec.{Consecutive, Holds}
use talent_challenge.PeerStorage.Append.{deleted_range, entry_at}

-- A key that is the key of no log entry.
abbrev pub IsStateKey : Bytes → Type 0
IsStateKey key = (i : ℕ) → bytes_eq (raft_log_entry_key i) key ≡ false

module _ {DB : Type 0} (p : Pebble DB) (pb : Proto) (reliable : IsReliable p)
    (lossless : IsLosslessProto pb) where
  -- The engines after the entries are written, in order.
  pub written : List Entry → Engines DB → Engines DB
  written [] engines = engines
  written (ent ∷ ents) engines =
      written ents
        (with_meta p (raft_log_entry_key ent.index) (lossless.entry.round_trip ent).0 engines)

  pub append_log_entries-returns :
      (ents : List Entry) (ps : PeerStorage DB)
      → append_log_entries p pb ents ps
        ≡ returns (none, record ps { engines = written ents ps.engines })
  unfolding append_log_entries written
  append_log_entries-returns [] ps = refl
  append_log_entries-returns (ent ∷ ents) ps =
      rw
        (put_meta-returns p pb reliable pb.entry lossless.entry (raft_log_entry_key ent.index) ent
          ps)
        (append_log_entries-returns ents (record ps {
          engines =
              with_meta p (raft_log_entry_key ent.index) (lossless.entry.round_trip ent).0
                ps.engines;
        }))

  pub kv-written :
      (ents : List Entry) (engines : Engines DB) → (written ents engines).kv ≡ engines.kv
  unfolding written
  kv-written [] engines = refl
  kv-written (ent ∷ ents) engines = kv-written ents _

  pub read_meta-written :
      (ents : List Entry) (engines : Engines DB) (key : Bytes)
      → IsStateKey key
      → read_meta p key (written ents engines) ≡ read_meta p key engines
  unfolding written
  read_meta-written [] engines key h = refl
  read_meta-written (ent ∷ ents) engines key h =
      let b = (lossless.entry.round_trip ent).0 in
      let k = raft_log_entry_key ent.index in
      ground (
        arith,
        h ent.index,
        read_meta-written ents (with_meta p k b engines) key h,
        read_meta-with_meta p pb reliable k b engines key,
      )

  -- Entries outside the range that is written stay.
  pub read_entry-written :
      (ents : List Entry) (engines : Engines DB) (i j : ℕ)
      → Consecutive i ents
      → i + length ents ≤ 2 ^ 64
      → j < 2 ^ 64
      → (j < i) ⊎ (i + length ents ≤ j)
      → read_entry p pb j (written ents engines) ≡ read_entry p pb j engines
  unfolding written
  read_entry-written [] engines i j c fits small out = refl
  read_entry-written (ent ∷ ents) engines i j c fits small out =
      let (b, marshalled, back) = lossless.entry.round_trip ent in
      let k = raft_log_entry_key ent.index in
      ground (
        arith,
        c.0,
        read_entry-written ents (with_meta p k b engines) (i + 1) j c.1 (omega arith) small
            (omega arith),
        read_entry-with_entry p pb reliable ent b engines j (omega (arith, c.0)) small back,
      )

  pub Holds-written :
      (ents : List Entry) (engines : Engines DB) (i : ℕ)
      → Consecutive i ents
      → i + length ents ≤ 2 ^ 64
      → Holds p pb i ents (written ents engines)
  unfolding written
  Holds-written [] engines i c fits = tt
  Holds-written (ent ∷ ents) engines i c fits =
      let (b, marshalled, back) = lossless.entry.round_trip ent in
      let k = raft_log_entry_key ent.index in
      (
        ground (
          arith,
          c.0,
          read_entry-written ents (with_meta p k b engines) (i + 1) i c.1 (omega arith)
              (omega arith) (omega arith),
          read_entry-with_entry p pb reliable ent b engines i (omega (arith, c.0)) (omega arith)
              back,
        ),
        Holds-written ents (with_meta p k b engines) (i + 1) c.1 (omega arith),
      )

  -- The entries held in a range that agrees stay held.
  pub Holds-agree :
      (ents : List Entry) (i : ℕ) (a b : Engines DB)
      → ((j : ℕ) → i ≤ j → j < i + length ents → read_entry p pb j a ≡ read_entry p pb j b)
      → Holds p pb i ents b
      → Holds p pb i ents a
  Holds-agree [] i a b same h = tt
  Holds-agree (ent ∷ ents) i a b same h = (
    same i (omega arith) (omega arith) ∙ h.0,
    Holds-agree ents (i + 1) a b (λ j lo hi. same j (omega arith) (omega arith)) h.1,
  )

  -- The engines after the entries are deleted, in order.
  pub erased : List Entry → Engines DB → Engines DB
  erased [] engines = engines
  erased (ent ∷ ents) engines = erased ents (without_meta p (raft_log_entry_key ent.index) engines)

  pub delete_log_entries-eq :
      (ents : List Entry) (ps : PeerStorage DB)
      → delete_log_entries p pb ents ps ≡ (none, record ps { engines = erased ents ps.engines })
  unfolding delete_log_entries erased
  delete_log_entries-eq [] ps = refl
  delete_log_entries-eq (ent ∷ ents) ps = ground (
    arith,
    delete_meta-eq p pb reliable (raft_log_entry_key ent.index) ps,
    delete_log_entries-eq ents
        (record ps { engines = without_meta p (raft_log_entry_key ent.index) ps.engines }),
  )

  pub kv-erased : (ents : List Entry) (engines : Engines DB) → (erased ents engines).kv ≡ engines.kv
  unfolding erased
  kv-erased [] engines = refl
  kv-erased (ent ∷ ents) engines = kv-erased ents _

  pub read_meta-erased :
      (ents : List Entry) (engines : Engines DB) (key : Bytes)
      → IsStateKey key
      → read_meta p key (erased ents engines) ≡ read_meta p key engines
  unfolding erased
  read_meta-erased [] engines key h = refl
  read_meta-erased (ent ∷ ents) engines key h =
      let k = raft_log_entry_key ent.index in
      ground (
        arith,
        h ent.index,
        read_meta-erased ents (without_meta p k engines) key h,
        read_meta-without_meta p pb reliable k engines key,
      )

  pub read_entry-erased :
      (ents : List Entry) (engines : Engines DB) (i j : ℕ)
      → Consecutive i ents
      → i + length ents ≤ 2 ^ 64
      → j < i
      → read_entry p pb j (erased ents engines) ≡ read_entry p pb j engines
  unfolding erased
  read_entry-erased [] engines i j c fits below = refl
  read_entry-erased (ent ∷ ents) engines i j c fits below =
      let k = raft_log_entry_key ent.index in
      ground (
        arith,
        c.0,
        read_entry-erased ents (without_meta p k engines) (i + 1) j c.1 (omega arith) (omega arith),
        read_entry-without_entry p pb reliable ent.index engines j (omega (arith, c.0))
            (omega arith),
      )

-- The loop over the deleted range ends, where the last index is not the largest uint64.
pub deleted_range-returns :
    (fuel i lasti : ℕ)
    → lasti + 1 < 2 ^ 64
    → lasti + 1 - i < fuel
    → (ents : List Entry) × (deleted_range fuel i lasti ≡ returns ents)
      × Consecutive i ents
      × (length ents ≡ lasti + 1 - i)
unfolding deleted_range
deleted_range-returns zero i lasti small enough = absurd (omega arith)
deleted_range-returns (suc fuel) i lasti small enough = elim (dec_lt lasti i) [
  | yes done ↦ ([], ground (arith, done), tt, omega arith)
  | no more ↦
      let (ents, found, c, len) = deleted_range-returns fuel (i + 1) lasti small (omega arith) in
      let next : u64 (i + 1) ≡ i + 1 = omega arith in
      (entry_at i ∷ ents, ground (arith, more, found, next), (refl, c), omega arith)
]
