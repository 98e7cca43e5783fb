-- ===== src/Peer/Reading.antt =====
-- peer.go and internal/callback.go: linearizable reads. A read waits in a queue until raft reports
-- an index for its context, then until that index is applied. The capacity of the queue, 1024, is
-- not modelled.
pub mod Answers
pub mod Callback
pub mod Covers
use talent_challenge.Prelude.{
  ℕ, zero, suc, ◌+◌, ◌-◌, ◌%◌, ◌^◌, ◌*◌, Bool, true, false, Option, none, some, List, [], ◌∷◌, ◌++◌,
  length, ltb, leb, ◌||◌, if◌then◌else◌,
}
use talent_challenge.Prelude.Outcome.{
  Error, not_found, Result, ok, err, Outcome, returns, panics, ◌>>=◌,
}
use talent_challenge.Prelude.Bytes.{Bytes, bytes_eq, le_bytes, read_le, slice_from}
use talent_challenge.Vendor.Pebble.{Pebble}
use talent_challenge.Storage.Engines.{read_kv}
use talent_challenge.Meta.Value.{is_not_found}
use talent_challenge.PeerStorage.State.{applied_index}
use talent_challenge.Peer.Commands.{GetResponse, new_get_cmd_response}
use talent_challenge.Peer.State.{Peer}

-- `read`; a callback is a number.
pub record Read : Type 0 where
  pub ctx : Bytes
  pub cb : ℕ

-- `raft.ReadState`
pub record ReadState : Type 0 where
  pub index : ℕ
  pub request_ctx : Bytes

-- `readc` and `readStateTable`
pub record Reads : Type 0 where
  pub readc : List Read
  pub read_state_table : List (Bytes × ReadState)

unfoldable pub key : Read → Outcome Bytes
key r = slice_from 8 r.ctx

unfoldable pub timestamp : Read → Outcome ℕ
timestamp r = read_le 8 r.ctx

unfoldable pub build_read_ctx : (now : ℕ) → Bytes → Bytes
build_read_ctx now k = le_bytes 8 now ++ k

-- `linearizableRead` at a time, with a new callback; raft is asked for the index of the context.
unfoldable pub linearizable_read : (now cb : ℕ) → Bytes → Reads → Read × Reads
linearizable_read now cb k s =
    let r : Read = record { ctx = build_read_ctx now k; cb = cb } in
    (r, record s { readc = s.readc ++ r ∷ [] })

unfoldable pub read_state : Bytes → List (Bytes × ReadState) → Option ReadState
read_state ctx [] = none
read_state ctx ((c, state) ∷ table) = if bytes_eq ctx c then some state else read_state ctx table

unfoldable pub remove_state : Bytes → List (Bytes × ReadState) → List (Bytes × ReadState)
remove_state ctx [] = []
remove_state ctx ((c, state) ∷ table) =
    let rest = remove_state ctx table in if bytes_eq ctx c then rest else (c, state) ∷ rest

-- `handleReady`: the read states of a Ready are put into the table.
unfoldable pub put_states : List ReadState → Reads → Reads
put_states [] s = s
put_states (state ∷ states) s =
    put_states states
      (record s { read_state_table = (state.request_ctx, state) ∷ s.read_state_table })

-- `time.Duration(now - ts) < 15*time.Second`, on int64 nanoseconds
unfoldable pub is_recent : (now ts : ℕ) → Bool
is_recent now ts =
    let age = (now + 2 ^ 64 - ts) % 2 ^ 64 in leb (2 ^ 63) age || ltb age (15 * 10 ^ 9)

-- The loop of `handleReadState`: the read that it ends with, and the queue.
unfoldable pub take_read :
    (now size : ℕ)
    → Option Read
    → List Read
    → List (Bytes × ReadState)
    → Outcome (Option Read × List Read)
take_read now zero last queue table = returns (last, queue)
take_read now (suc size) last [] table = returns (last, [])
take_read now (suc size) last (r ∷ queue) table = elim (read_state r.ctx table) [
  | some state ↦ returns (some r, queue)
  | none ↦ (do
    ts ← timestamp r
    take_read now size (some r) (if is_recent now ts then queue ++ r ∷ [] else queue) table)
]

abbrev pub state_or_zero : Option ReadState → ReadState
state_or_zero none = record { index = 0; request_ctx = [] }
state_or_zero (some state) = state

-- `handleReadState` on one signal: the state and the read that go to `readApplied`. The loop has
-- as many rounds as the queue has reads; after none of them `r` is nil, and `r.ctx` panics.
unfoldable pub handle_read_state : (now : ℕ) → Reads → Outcome (ReadState × Read × Reads)
handle_read_state now s = do
  t ← take_read now (length s.readc) none s.readc s.read_state_table
  elim t.0 [
    | none ↦ panics
    | some r ↦ returns (
      state_or_zero (read_state r.ctx s.read_state_table),
      r,
      record { readc = t.1; read_state_table = remove_state r.ctx s.read_state_table },
    )
  ]

-- A value that was read, or nil where the key is not there; other errors panic.
abbrev pub found_or_nil : Result (Option Bytes) → Outcome (Option Bytes)
found_or_nil (ok value) = returns value
found_or_nil (err e) = if is_not_found e then returns none else panics

module _ {DB : Type 0} (p : Pebble DB) where
  -- `readApplied`: none while the applied index is behind, else the response for the callback.
  unfoldable pub read_applied : ReadState → Read → Peer DB → Outcome (Option GetResponse)
  unfolding applied_index
  read_applied state r pr =
      let answer = (do
        k ← key r
        value ← found_or_nil (read_kv p k pr.ps.engines)
        returns (some (new_get_cmd_response value))) in
      if leb state.index (applied_index pr.ps) then answer else returns none
