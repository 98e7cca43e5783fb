-- ===== src/Peer/Reading/Covers.antt =====
-- peer.go: the states of reads in the table against what was committed when the reads were asked for.
use talent_challenge.Prelude.{
  ℕ, ◌≤◌, ◌≡◌, sym, ap, subst, ◌∙◌, inl, inr, Bool-cases, false, Option, none, some, List, [], ◌∷◌,
  All, length, some-injective, if◌then◌else◌,
}
use talent_challenge.Prelude.Outcome.{Outcome, returns, panics, >>=-eq-returns, returns-injective}
use talent_challenge.Prelude.Bytes.{Bytes, bytes_eq, bytes_eq_iff}
use talent_challenge.Peer.Reading.{
  Read, ReadState, Reads, put_states, read_state, remove_state, take_read, handle_read_state,
  state_or_zero,
}

-- What was committed when the read of a context was asked for, behind one more read
abbrev pub asked_at : Bytes → ℕ → (Bytes → ℕ) → Bytes → ℕ
asked_at ctx commit asked c = if bytes_eq ctx c then commit else asked c

pub asked_at-le :
    (ctx c : Bytes) (commit i : ℕ) (asked : Bytes → ℕ)
    → bytes_eq ctx c ≡ false
    → asked c ≤ i
    → asked_at ctx commit asked c ≤ i
asked_at-le ctx c commit i asked other below = rw other below

-- The states of a table are no older than the reads of their contexts.
abbrev pub Covers : (Bytes → ℕ) → List (Bytes × ReadState) → Type 0
Covers asked table = All (λ e. asked e.0 ≤ e.1.index) table

pub put_states-Covers :
    (asked : Bytes → ℕ) (states : List ReadState) (s : Reads)
    → All (λ state. asked state.request_ctx ≤ state.index) states
    → Covers asked s.read_state_table
    → Covers asked (put_states states s).read_state_table
unfolding put_states
put_states-Covers asked [] s new old = old
put_states-Covers asked (state ∷ states) s new old =
    put_states-Covers asked states
      (record s { read_state_table = (state.request_ctx, state) ∷ s.read_state_table }) new.1
      (new.0, old)

pub remove_state-Covers :
    (asked : Bytes → ℕ) (ctx : Bytes) (table : List (Bytes × ReadState))
    → Covers asked table
    → Covers asked (remove_state ctx table)
unfolding remove_state
remove_state-Covers asked ctx [] h = tt
remove_state-Covers asked ctx ((c, state) ∷ table) h = elim (Bool-cases (bytes_eq ctx c)) [
  | inl same ↦ rw same (remove_state-Covers asked ctx table h.1)
  | inr other ↦ rw other (h.0, remove_state-Covers asked ctx table h.1)
]

pub read_state-Covers :
    (asked : Bytes → ℕ) (ctx : Bytes) (table : List (Bytes × ReadState)) (state : ReadState)
    → Covers asked table
    → read_state ctx table ≡ some state
    → asked ctx ≤ state.index
unfolding read_state
read_state-Covers asked ctx [] state h found = cc
read_state-Covers asked ctx ((c, x) ∷ table) state h found = elim (Bool-cases (bytes_eq ctx c)) [
  | inl same ↦
      let x≡state : x ≡ state = some-injective (rw same at found) in
      let ctx≡c = (bytes_eq_iff ctx c).0 same in
      subst (λ (y : ReadState). asked ctx ≤ y.index) x≡state
        (subst (λ (d : Bytes). asked d ≤ x.index) (sym ctx≡c) h.0)
  | inr other ↦ read_state-Covers asked ctx table state h.1 (rw other at found)
]

-- How `handleReadState` ends, behind its loop
abbrev picked : Option Read → List Read → Reads → Outcome (ReadState × Read × Reads)
picked last queue s = elim last [
  | none ↦ panics
  | some r ↦ returns (
    state_or_zero (read_state r.ctx s.read_state_table),
    r,
    record { readc = queue; read_state_table = remove_state r.ctx s.read_state_table },
  )
]

table-picked :
    (last : Option Read) (queue : List Read) (s s' : Reads) (state : ReadState) (r : Read)
    → picked last queue s ≡ returns (state, r, s')
    → s'.read_state_table ≡ remove_state r.ctx s.read_state_table
table-picked none queue s s' state r h = cc
table-picked (some x) queue s s' state r h =
    let same = returns-injective h in
    sym (ap (λ (y : ReadState × Read × Reads). y.2.read_state_table) same)
    ∙ ap (λ (y : ReadState × Read × Reads). remove_state y.1.ctx s.read_state_table) same

pub table-handle_read_state :
    (now : ℕ) (s : Reads) (state : ReadState) (r : Read) (s' : Reads)
    → handle_read_state now s ≡ returns (state, r, s')
    → s'.read_state_table ≡ remove_state r.ctx s.read_state_table
unfolding handle_read_state
table-handle_read_state now s state r s' h =
    let (t, taken, rest) =
      >>=-eq-returns (take_read now (length s.readc) none s.readc s.read_state_table) _ h in
    table-picked t.0 t.1 s s' state r rest

state-picked :
    (last : Option Read) (queue : List Read) (s s' : Reads) (state : ReadState) (r : Read)
    → picked last queue s ≡ returns (state, r, s')
    → state ≡ state_or_zero (read_state r.ctx s.read_state_table)
state-picked none queue s s' state r h = cc
state-picked (some x) queue s s' state r h =
    let same = returns-injective h in
    sym (ap (λ (y : ReadState × Read × Reads). y.0) same)
    ∙ ap (λ (y : ReadState × Read × Reads). state_or_zero (read_state y.1.ctx s.read_state_table))
        same

pub state-handle_read_state :
    (now : ℕ) (s : Reads) (state : ReadState) (r : Read) (s' : Reads)
    → handle_read_state now s ≡ returns (state, r, s')
    → state ≡ state_or_zero (read_state r.ctx s.read_state_table)
unfolding handle_read_state
state-handle_read_state now s state r s' h =
    let (t, taken, rest) =
      >>=-eq-returns (take_read now (length s.readc) none s.readc s.read_state_table) _ h in
    state-picked t.0 t.1 s s' state r rest
