-- ===== src/Peer/Reading/Answers.antt =====
-- peer.go: which read `handleReadState` answers, and with which state.
use talent_challenge.Prelude.{
  ℕ, zero, suc, ◌+◌, ◌<◌, ◌^◌, ◌≡◌, refl, sym, ap, ◌∙◌, inl, inr, Option, none, some, List, [], ◌∷◌,
  ◌++◌, length, length-append, All, append_assoc, append-nil, if◌then◌else◌, arith, Bool-cases,
}
use talent_challenge.Prelude.Outcome.{Outcome, returns, panics, diverges}
use talent_challenge.Prelude.Bytes.{
  Bytes, le_bytes, length-le_bytes, read_le-append, slice_from-append,
}
use talent_challenge.Peer.Reading.{
  Read, Reads, ReadState, key, timestamp, build_read_ctx, linearizable_read, read_state,
  remove_state, is_recent, take_read, handle_read_state,
}

abbrev pub IsStamped : Read → Type 0
IsStamped r = (ts : ℕ) × (timestamp r ≡ returns ts)

-- The reads that are put back into the queue: the recent ones.
abbrev pub kept_if : ℕ → Read → Outcome ℕ → List Read → List Read
kept_if now r (returns ts) rs = if is_recent now ts then r ∷ rs else rs
kept_if now r panics rs = rs
kept_if now r diverges rs = rs

abbrev pub kept : ℕ → List Read → List Read
kept now [] = []
kept now (r ∷ rs) = kept_if now r (timestamp r) (kept now rs)

-- A read that waits: it has a time, and no state has come for it.
abbrev pub Waits : List (Bytes × ReadState) → Read → Type 0
Waits table r = IsStamped r × (read_state r.ctx table ≡ none)

-- At a time that fits in 64 bits, the context of a read gives back its key and its time.
pub key-linearizable_read :
    (now cb : ℕ) (k : Bytes) (s : Reads)
    → now < 2 ^ 64
    → (key (linearizable_read now cb k s).0 ≡ returns k)
      × (timestamp (linearizable_read now cb k s).0 ≡ returns now)
unfolding key timestamp linearizable_read build_read_ctx
key-linearizable_read now cb k s small = (
  slice_from-append 8 (le_bytes 8 now) k (sym (length-le_bytes 8 now)),
  read_le-append 8 now k (omega arith),
)

-- One round of the loop on a read that waits.
take_read-Waits :
    (now m : ℕ) (last : Option Read) (x : Read) (queue : List Read)
    (table : List (Bytes × ReadState))
    → (w : Waits table x)
    → take_read now (suc m) last (x ∷ queue) table
      ≡ take_read now m (some x) (if is_recent now w.0.0 then queue ++ x ∷ [] else queue) table
unfolding take_read
take_read-Waits now m last x queue table ((ts, stamped), none_yet) =
    rw (none_yet, take_read) (rw stamped refl)

kept-Waits :
    (now : ℕ) (table : List (Bytes × ReadState)) (x : Read) (pre : List Read)
    → (w : Waits table x)
    → kept now (x ∷ pre) ≡ (if is_recent now w.0.0 then x ∷ kept now pre else kept now pre)
kept-Waits now table x pre ((ts, stamped), none_yet) = rw stamped refl

take_read-found :
    (now n : ℕ) (last : Option Read) (pre post : List Read) (r : Read)
    (table : List (Bytes × ReadState)) (state : ReadState)
    → All (Waits table) pre
    → read_state r.ctx table ≡ some state
    → take_read now (suc (length pre + n)) last (pre ++ r ∷ post) table
      ≡ returns (some r, post ++ kept now pre)
take_read-found now n last [] post r table state w found =
    unfold take_read in
    rw (found, take_read) (ap (λ q. returns (some r, q)) (sym (append-nil post)))
take_read-found now n last (x ∷ pre) post r table state w found =
    let size : suc (length pre) + n ≡ suc (length pre + n) = omega arith in
    rw (take_read-Waits now (suc (length pre) + n) last x (pre ++ r ∷ post) table w.0) (
      rw size (
        rw (kept-Waits now table x pre w.0) (elim (Bool-cases (is_recent now w.0.0.0)) [
          | inl recent ↦ rw recent (
              rw (append_assoc pre (r ∷ post) (x ∷ [])) (
                take_read-found now n (some x) pre (post ++ x ∷ []) r table state w.1 found
                ∙ ap (λ q. returns (some r, q)) (append_assoc post (x ∷ []) (kept now pre))))
          | inr old ↦ rw old (take_read-found now n (some x) pre post r table state w.1 found)
        ])))

take_read-none :
    (now : ℕ) (last : Option Read) (pre post : List Read) (r : Read)
    (table : List (Bytes × ReadState))
    → All (Waits table) pre
    → Waits table r
    → take_read now (suc (length pre)) last (pre ++ r ∷ post) table
      ≡ returns (some r, post ++ kept now (pre ++ r ∷ []))
take_read-none now last [] post r table w wr = rw (take_read-Waits now zero last r post table wr) (
    rw (kept-Waits now table r [] wr) (elim (Bool-cases (is_recent now wr.0.0)) [
      | inl recent ↦ rw recent (unfold take_read in refl)
      | inr old ↦ rw old (unfold take_read in ap (λ q. returns (some r, q)) (sym (append-nil post)))
    ]))
take_read-none now last (x ∷ pre) post r table w wr =
    rw (take_read-Waits now (suc (length pre)) last x (pre ++ r ∷ post) table w.0) (
      rw (kept-Waits now table x (pre ++ r ∷ []) w.0) (elim (Bool-cases (is_recent now w.0.0.0)) [
        | inl recent ↦ rw recent (
            rw (append_assoc pre (r ∷ post) (x ∷ [])) (
              take_read-none now (some x) pre (post ++ x ∷ []) r table w.1 wr
              ∙ ap (λ q. returns (some r, q))
                  (append_assoc post (x ∷ []) (kept now (pre ++ r ∷ [])))))
        | inr old ↦ rw old (take_read-none now (some x) pre post r table w.1 wr)
      ]))

-- On a signal, the first read of the queue whose state has come is taken with that state. The
-- reads before it go to the end of the queue, in order, less those that are 15 seconds old.
pub handle_read_state-found :
    (now : ℕ) (pre post : List Read) (r : Read) (table : List (Bytes × ReadState))
    (state : ReadState)
    → All (Waits table) pre
    → read_state r.ctx table ≡ some state
    → handle_read_state now (record { readc = pre ++ r ∷ post; read_state_table = table })
      ≡ returns (
        state,
        r,
        record { readc = post ++ kept now pre; read_state_table = remove_state r.ctx table },
      )
unfolding handle_read_state
handle_read_state-found now pre post r table state w found =
    let size : length (pre ++ r ∷ post) ≡ suc (length pre + length post) =
      omega (arith, length-append pre (r ∷ post)) in
    rw (size, handle_read_state)
      (rw (take_read-found now (length post) none pre post r table state w found) (rw found refl))

-- On a signal while no state has come for any read of the queue, the last read is taken with the
-- zero state, and if it is not 15 seconds old it stays in the queue too.
pub handle_read_state-none :
    (now : ℕ) (pre : List Read) (r : Read) (table : List (Bytes × ReadState))
    → All (Waits table) pre
    → Waits table r
    → handle_read_state now (record { readc = pre ++ r ∷ []; read_state_table = table })
      ≡ returns (
        record { index = 0; request_ctx = [] },
        r,
        record { readc = kept now (pre ++ r ∷ []); read_state_table = remove_state r.ctx table },
      )
unfolding handle_read_state
handle_read_state-none now pre r table w wr =
    let size : length (pre ++ r ∷ []) ≡ suc (length pre) =
      omega (arith, length-append pre (r ∷ [])) in
    rw (size, handle_read_state) (rw (take_read-none now none pre [] r table w wr) (rw wr.1 refl))
