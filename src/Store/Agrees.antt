-- ===== src/Store/Agrees.antt =====
-- The two stores side by side: what `Get` of the raft store answers behind the committed commands,
-- and what the memory store holds after the same calls.
use talent_challenge.Prelude.{
  ℕ, ◌<◌, ◌≤◌, ◌^◌, ◌≡◌, refl, ap, ◌∙◌, Option, none, some, List, [], ◌∷◌, if◌then◌else◌, arith,
  le→leb,
}
use talent_challenge.Prelude.Outcome.{Result, ok, err, not_found, returns}
use talent_challenge.Prelude.Bytes.{Bytes, bytes_eq, bytes_eq_iff}
use talent_challenge.Vendor.Pebble.{Pebble, IsReliable}
use talent_challenge.Storage.Engines.{read_kv}
use talent_challenge.Storage.Engines.Reads.{shown}
use talent_challenge.Messages.{Entry, Proto, IsLosslessProto}
use talent_challenge.PeerStorage.State.{applied_index}
use talent_challenge.Peer.Commands.{GetResponse, new_get_cmd_response}
use talent_challenge.Peer.State.{Peer}
use talent_challenge.Peer.Apply.{process_all}
use talent_challenge.Peer.Apply.Machine.{Command, CarryAll, spec_reads, process_all-Runs}
use talent_challenge.Peer.Reading.{Reads, ReadState, linearizable_read, read_applied, found_or_nil}
use talent_challenge.Peer.Reading.Answers.{key-linearizable_read}
use talent_challenge.Store.Memory.{MemoryStore, lookup, remove, set, get, delete}
use talent_challenge.Store.Raft.{get as raft_get}

-- The calls on the memory store that the commands stand for.
abbrev pub run : List Command → MemoryStore → MemoryStore
run [] m = m
run (Command.put k v ∷ cmds) m = run cmds (set k v m)
run (Command.delete k ∷ cmds) m = run cmds (delete k m)
run (Command.compact_log i t ∷ cmds) m = run cmds m
run (Command.nothing ∷ cmds) m = run cmds m

-- A read of the database that holds what the memory store holds.
abbrev pub as_read : Option Bytes → Result (Option Bytes)
as_read none = err not_found
as_read (some v) = ok (shown v)

-- What `Get` of the raft store answers for it: an empty value is an error too.
abbrev pub as_get : Option Bytes → Result Bytes
as_get none = err not_found
as_get (some []) = err not_found
as_get (some (b ∷ bs)) = ok (b ∷ bs)

pub lookup-remove :
    (j k : Bytes) (db : List (Bytes × Bytes))
    → lookup j (remove k db) ≡ (if bytes_eq k j then none else lookup j db)
unfolding lookup remove
lookup-remove j k [] = ground arith
lookup-remove j k ((i, v) ∷ db) =
    ground (arith, lookup-remove j k db, bytes_eq_iff i k, bytes_eq_iff k j, bytes_eq_iff i j)

as_read-put :
    (k v j : Bytes) (m : MemoryStore)
    → (if bytes_eq k j then ok (shown v) else as_read (get j m)) ≡ as_read (get j (set k v m))
unfolding get set lookup
as_read-put k v j m = ground arith

as_read-delete :
    (k j : Bytes) (m : MemoryStore)
    → (if bytes_eq k j then err not_found else as_read (get j m)) ≡ as_read (get j (delete k m))
unfolding get delete
as_read-delete k j m = ground (arith, lookup-remove j k m.db)

spec_reads-run :
    (cmds : List Command) (j : Bytes) (m : MemoryStore)
    → spec_reads cmds j (as_read (get j m)) ≡ as_read (get j (run cmds m))
spec_reads-run [] j m = refl
spec_reads-run (Command.put k v ∷ cmds) j m =
    ap (spec_reads cmds j) (as_read-put k v j m) ∙ spec_reads-run cmds j (set k v m)
spec_reads-run (Command.delete k ∷ cmds) j m =
    ap (spec_reads cmds j) (as_read-delete k j m) ∙ spec_reads-run cmds j (delete k m)
spec_reads-run (Command.compact_log i t ∷ cmds) j m = spec_reads-run cmds j m
spec_reads-run (Command.nothing ∷ cmds) j m = spec_reads-run cmds j m

raft_get-as_read :
    (v : Option Bytes)
    → (value : Option Bytes) × (found_or_nil (as_read v) ≡ returns value)
      × (raft_get (some (new_get_cmd_response value)) ≡ as_get v)
unfolding raft_get new_get_cmd_response
raft_get-as_read none = (none, refl, refl)
raft_get-as_read (some []) = (none, refl, refl)
raft_get-as_read (some (b ∷ bs)) = (some (b ∷ bs), refl, refl)

module _ {DB : Type 0} (p : Pebble DB) (pb : Proto) (reliable : IsReliable p)
    (lossless : IsLosslessProto pb) where
  -- Entries that carry commands are applied to a peer whose user data reads as a memory store
  -- holds it. A read whose index is applied then gets a response, and `Get` of the raft store
  -- answers it with the value that the memory store has behind the same commands, except that a
  -- missing key and an empty value are both the error "not found".
  pub read_applied-run :
      (ents : List Entry) (cmds : List Command) (pr : Peer DB) (m : MemoryStore)
      → CarryAll pb ents cmds
      → ((j : Bytes) → read_kv p j pr.ps.engines ≡ as_read (get j m))
      → (pr' : Peer DB) × (process_all p pb ents pr ≡ returns pr')
        × ((now cb : ℕ) (k : Bytes) (s : Reads) (state : ReadState)
            → now < 2 ^ 64
            → state.index ≤ pr'.ps.apply_state.apply_index
            → (resp : GetResponse) × (read_applied p state (linearizable_read now cb k s).0 pr'
                ≡ returns (some resp))
              × (raft_get (some resp) ≡ as_get (get k (run cmds m))))
  unfolding read_applied applied_index
  read_applied-run ents cmds pr m carried same =
      let (pr', done, reads, applied, saved) =
        process_all-Runs p pb reliable lossless ents cmds pr carried in
      (
        pr',
        done,
        λ now cb k s state small there.
            let r = (linearizable_read now cb k s).0 in
            let is_read : read_kv p k pr'.ps.engines ≡ as_read (get k (run cmds m)) =
              reads k ∙ ap (spec_reads cmds k) (same k) ∙ spec_reads-run cmds k m in
            let (value, found, answer) = raft_get-as_read (get k (run cmds m)) in
            (
              new_get_cmd_response value,
              rw (le→leb state.index pr'.ps.apply_state.apply_index there, read_applied)
                  (rw (key-linearizable_read now cb k s small).0 (rw is_read (rw found refl))),
              answer,
            ),
      )
