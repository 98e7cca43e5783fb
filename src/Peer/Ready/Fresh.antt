-- ===== src/Peer/Ready/Fresh.antt =====
-- What `readApplied` of peer.go answers, wherever the turns of the goroutines get.
use talent_challenge.Prelude.{
  ℕ, ◌≤◌, ◌≡◌, refl, sym, ap, subst, ◌∙◌, ◌⊎◌, inl, inr, true, Option, none, some, Option-cases,
  List, [], All, All-zip, All-get_elem?, some-injective, get_elem?, take, drop, arith, Bool-cases,
  leb, leb→le,
}
use talent_challenge.Prelude.Outcome.{Result, returns, >>=-eq-returns, returns-injective}
use talent_challenge.Prelude.Bytes.{Bytes}
use talent_challenge.Vendor.Pebble.{Pebble, IsReliable}
use talent_challenge.Storage.Pair.{Pair}
use talent_challenge.Storage.Engines.{read_kv}
use talent_challenge.Messages.{Entry, Proto, IsLosslessProto}
use talent_challenge.PeerStorage.State.{PeerStorage, Etcd, applied_index}
use talent_challenge.PeerStorage.State.Saved.{IsSaved}
use talent_challenge.PeerStorage.Log.Spec.{Log, Represents}
use talent_challenge.PeerStorage.Ready.{save_ready_state}
use talent_challenge.PeerStorage.Ready.Steps.{installed_read, installed_index, IsReady}
use talent_challenge.PeerStorage.Ready.Saves.{save_ready_state-IsSaved}
use talent_challenge.Peer.Apply.{halves, run_halves}
use talent_challenge.Peer.Apply.Machine.{Command, Carries, spec_read}
use talent_challenge.Peer.Apply.Logged.{spec_cut, CutsAt}
use talent_challenge.Peer.Apply.Halves.{first_half, second_half}
use talent_challenge.Peer.Commands.{GetResponse, new_get_cmd_response}
use talent_challenge.Peer.State.{Peer}
use talent_challenge.Peer.Reading.{
  Read, ReadState, Reads, key, build_read_ctx, linearizable_read, put_states, read_state,
  handle_read_state, found_or_nil, state_or_zero, read_applied,
}
use talent_challenge.Peer.Reading.Covers.{
  asked_at-le, Covers, put_states-Covers, remove_state-Covers, read_state-Covers,
  table-handle_read_state, state-handle_read_state,
}
use talent_challenge.Peer.Ready.{RaftReady, Node, begin_ready}
use talent_challenge.Peer.Ready.Handled.{stored_log}
use talent_challenge.Peer.Ready.Loop.{ps-tick_log_gc}
use talent_challenge.Peer.Ready.Serving.{
  Serving, Turn, Turns, ask, tick, begins, first, second, signalled, here, there,
}
use talent_challenge.Transport.Client.{Grpc}

-- Where the applied index stands: at the last entry that was processed to its end, or at the one that
-- is processed.
abbrev pub StandsAt : ℕ → Option Entry → ℕ → Type 0
StandsAt applied halfway completed =
    ((halfway ≡ none) × (applied ≡ completed))
    ⊎ ((ent : Entry) × (halfway ≡ some ent) × (applied ≡ ent.index))

-- A started call waits for at least what was committed when its read was asked for, if the read had a
-- state.
abbrev IsLate : (Bytes → ℕ) → ReadState × Read × Option ReadState → Type 0
IsLate asked t = (t.2 ≡ none) ⊎ (asked t.1.ctx ≤ t.0.index)

module _ {DB W : Type 0} (p : Pebble DB) (pb : Proto) (reliable : IsReliable p)
    (lossless : IsLosslessProto pb) (etcd : Etcd) (grpc : Grpc W) where
  -- What of a storage the turns keep
  pub record IsKept (ps : PeerStorage DB) (halfway : Option Entry) (log : Log) (completed : ℕ)
      (user_data : Bytes → Result (Option Bytes)) : Type 0 where
    pub represents : Represents p pb ps log
    pub saved : IsSaved p pb ps
    pub reads : (j : Bytes) → read_kv p j ps.engines ≡ user_data j
    pub applied : StandsAt ps.apply_state.apply_index halfway completed

  record IsFresh (s : Serving DB) : Type 0 where
    table : Covers s.asked s.node.reads.read_state_table
    tasks : All (IsLate s.asked) s.tasks
    kept : IsKept s.node.peer.ps s.halfway s.log s.completed s.user_data

  completed-IsKept :
      (ps : PeerStorage DB) (halfway : Option Entry) (log : Log) (completed : ℕ)
      (user_data : Bytes → Result (Option Bytes))
      → IsKept ps halfway log completed user_data
      → halfway ≡ none
      → ps.apply_state.apply_index ≡ completed
  completed-IsKept ps halfway log completed user_data kept idle = elim kept.applied [
    | inl (quiet, same) ↦ same
    | inr (ent, busy, same) ↦ absurd cc
  ]

  begins-IsKept :
      (rd : RaftReady) (pairs : List Pair) (s : Serving DB) (n : Node DB) (w w' : W)
      → s.halfway ≡ none
      → IsReady etcd rd.stored s.log pairs
      → begin_ready p pb etcd grpc rd s.node w ≡ returns (n, w')
      → IsKept s.node.peer.ps s.halfway s.log s.completed s.user_data
      → (n.reads ≡ put_states rd.read_states s.node.reads)
        × IsKept n.peer.ps s.halfway
            (stored_log etcd rd s.log)
            (installed_index etcd rd.stored s.completed)
            (λ j. installed_read etcd rd.stored pairs j (s.user_data j))
  unfolding begin_ready
  begins-IsKept rd pairs s n w w' idle ready done kept =
      let (ps, saved, r, is_saved, hard, reads, index) =
        save_ready_state-IsSaved p pb reliable lossless etcd rd.stored s.log pairs s.node.peer.ps
          kept.represents kept.saved ready in
      let (out, ran, end) =
        >>=-eq-returns (save_ready_state p pb etcd rd.stored s.node.peer.ps) _ done in
      let same : out.1 ≡ ps = ap (λ x. x.1) (returns-injective (sym ran ∙ saved)) in
      let node = returns-injective end in
      let at : ps ≡ n.peer.ps = sym same ∙ ap (λ (x : Node DB × W). x.0.peer.ps) node in
      (
        sym (ap (λ (x : Node DB × W). x.0.reads) node),
        subst
            (λ (x : PeerStorage DB).
              IsKept x s.halfway (stored_log etcd rd s.log)
                (installed_index etcd rd.stored s.completed)
                (λ j. installed_read etcd rd.stored pairs j (s.user_data j)))
            at
            (record {
              represents = r;
              saved = is_saved;
              reads = λ j. reads j ∙ ap (installed_read etcd rd.stored pairs j) (kept.reads j);
              applied = inl (
                idle,
                index
                    ∙ ap (installed_index etcd rd.stored) (
                        completed-IsKept s.node.peer.ps s.halfway s.log s.completed s.user_data kept
                          idle),
              );
            }),
      )

  first-IsKept :
      (ent : Entry) (s : Serving DB) (peer : Peer DB)
      → run_halves p pb (take 1 (halves p pb)) ent s.node.peer ≡ returns peer
      → IsKept s.node.peer.ps s.halfway s.log s.completed s.user_data
      → IsKept peer.ps (some ent) s.log s.completed s.user_data
  first-IsKept ent s peer done kept =
      let (half, ran, r, saved, index, reads) =
        first_half p pb reliable lossless ent s.node.peer s.log kept.represents kept.saved in
      subst (λ (x : Peer DB). IsKept x.ps (some ent) s.log s.completed s.user_data)
        (returns-injective (sym ran ∙ done))
        (record {
          represents = r;
          saved = saved;
          reads = λ j. reads j ∙ kept.reads j;
          applied = inr (ent, refl, index);
        })

  second-IsKept :
      (ent : Entry) (cmd : Command) (s : Serving DB) (peer : Peer DB)
      → s.halfway ≡ some ent
      → Carries pb ent cmd
      → CutsAt cmd s.log
      → run_halves p pb (drop 1 (halves p pb)) ent s.node.peer ≡ returns peer
      → IsKept s.node.peer.ps s.halfway s.log s.completed s.user_data
      → IsKept peer.ps none (spec_cut cmd s.log) ent.index (λ j. spec_read cmd j (s.user_data j))
  second-IsKept ent cmd s peer busy carried cuts done kept =
      let (last, ran, r, runs) =
        second_half p pb reliable lossless ent cmd s.node.peer s.log carried kept.represents cuts in
      let at : s.node.peer.ps.apply_state.apply_index ≡ ent.index = elim kept.applied [
        | inl (quiet, same) ↦ absurd cc
        | inr (other, busy', same) ↦
            same ∙ ap (λ (e : Entry). e.index) (some-injective (sym busy' ∙ busy))
      ] in
      subst
        (λ (x : Peer DB).
          IsKept x.ps none (spec_cut cmd s.log) ent.index (λ j. spec_read cmd j (s.user_data j)))
        (returns-injective (sym ran ∙ done))
        (record {
          represents = r;
          saved = runs.saved kept.saved;
          reads = λ j. runs.reads j ∙ ap (spec_read cmd j) (kept.reads j);
          applied = inl (refl, runs.applied ∙ at);
        })

  -- The call that a signal starts
  signalled-IsLate :
      (now : ℕ) (state : ReadState) (r : Read) (reads : Reads) (s : Serving DB)
      → handle_read_state now s.node.reads ≡ returns (state, r, reads)
      → Covers s.asked s.node.reads.read_state_table
      → IsLate s.asked (state, r, read_state r.ctx s.node.reads.read_state_table)
  signalled-IsLate now state r reads s taken covers =
      let table = s.node.reads.read_state_table in
      elim (Option-cases (read_state r.ctx table)) [
        | inl nothing ↦ inl nothing
        | inr (x, found) ↦
            let same : state ≡ x =
              state-handle_read_state now s.node.reads state r reads taken
              ∙ ap state_or_zero found in
            inr (
              subst (λ (y : ReadState). s.asked r.ctx ≤ y.index) (sym same)
                (read_state-Covers s.asked r.ctx table x covers found))
      ]

  Turn-IsFresh : (s t : Serving DB × W) → Turn p pb etcd grpc s t → IsFresh s.0 → IsFresh t.0
  unfolding linearizable_read
  Turn-IsFresh s t (ask now cb commit k u w unused) fresh =
      let ctx = build_read_ctx now k in
      record {
        table =
            All-zip u.node.reads.read_state_table
              (λ e other below. asked_at-le ctx e.0 commit e.1.index u.asked other below)
              unused.table fresh.table;
        tasks =
            All-zip u.tasks
              (λ e other late. elim late [
                | inl nothing ↦ inl nothing
                | inr below ↦ inr (asked_at-le ctx e.1.ctx commit e.0.index u.asked other below)
              ])
              unused.tasks fresh.tasks;
        kept = fresh.kept;
      }
  Turn-IsFresh s t (tick lead cmd u peer w todo idle done) fresh = record {
    table = fresh.table;
    tasks = fresh.tasks;
    kept =
        subst (λ (x : PeerStorage DB). IsKept x u.halfway u.log u.completed u.user_data)
          (sym (ps-tick_log_gc p pb lead cmd u.node.peer peer done)) fresh.kept;
  }
  Turn-IsFresh s t (begins rd pairs u n w w' todo idle new ready done) fresh =
      let (reads, kept) = begins-IsKept rd pairs u n w w' idle ready done fresh.kept in
      record {
        table =
            subst (λ (x : Reads). Covers u.asked x.read_state_table) (sym reads)
              (put_states-Covers u.asked rd.read_states u.node.reads new fresh.table);
        tasks = fresh.tasks;
        kept = kept;
      }
  Turn-IsFresh s t (first ent ents u peer w todo idle done) fresh = record {
    table = fresh.table;
    tasks = fresh.tasks;
    kept = first-IsKept ent u peer done fresh.kept;
  }
  Turn-IsFresh s t (second ent cmd u peer w busy carried cuts done) fresh = record {
    table = fresh.table;
    tasks = fresh.tasks;
    kept = second-IsKept ent cmd u peer busy carried cuts done fresh.kept;
  }
  Turn-IsFresh s t (signalled now state r reads u w coming taken) fresh = record {
    table =
        subst (Covers u.asked) (sym (table-handle_read_state now u.node.reads state r reads taken))
          (remove_state-Covers u.asked r.ctx u.node.reads.read_state_table fresh.table);
    tasks = (signalled-IsLate now state r reads u taken fresh.table, fresh.tasks);
    kept = fresh.kept;
  }

  Turns-IsFresh : (s t : Serving DB × W) → Turns p pb etcd grpc s t → IsFresh s.0 → IsFresh t.0
  Turns-IsFresh s t here fresh = fresh
  Turns-IsFresh s t (there mid last before turn) fresh =
      Turn-IsFresh mid last turn (Turns-IsFresh s mid before fresh)

  due-read_applied :
      (state : ReadState) (r : Read) (peer : Peer DB) (resp : GetResponse)
      → read_applied p state r peer ≡ returns (some resp)
      → leb state.index peer.ps.apply_state.apply_index ≡ true
  unfolding read_applied applied_index
  due-read_applied state r peer resp answered =
      elim (Bool-cases (leb state.index peer.ps.apply_state.apply_index)) [
        | inl due ↦ due
        | inr early ↦ let nothing = rw early at answered in cc
      ]

  -- The goroutines take turns from a peer whose storage is sound, without states of reads and without
  -- started calls of `readApplied`: reads are asked for, with contexts that no state and no started
  -- call has; ticks pass; Readies that raft may hand over begin, whose read states have an index that
  -- is no smaller than what was committed when the read was asked for; committed entries go through
  -- the halves of `process`; signals start calls of `readApplied`. A call for a read that had its
  -- state in the table, if it then gives a response, does so when at least what was committed when
  -- the read was asked for counts as applied, and the response is what the commands that ran to their
  -- end, over the snapshots, make of the user data under the read's key. Between two entries those
  -- are all commands up to the applied index; halfway through an entry, its own command is missing.
  pub read_applied-IsFresh :
      (s s' : Serving DB) (w w' : W) (i : ℕ) (state found : ReadState) (r : Read)
      (resp : GetResponse)
      → s.node.reads.read_state_table ≡ []
      → s.tasks ≡ []
      → IsKept s.node.peer.ps s.halfway s.log s.completed s.user_data
      → Turns p pb etcd grpc (s, w) (s', w')
      → get_elem? s'.tasks i ≡ some (state, r, some found)
      → read_applied p state r s'.node.peer ≡ returns (some resp)
      → (s'.asked r.ctx ≤ s'.node.peer.ps.apply_state.apply_index)
        × ((k : Bytes) × (value : Option Bytes) × (key r ≡ returns k)
            × (found_or_nil (s'.user_data k) ≡ returns value)
            × (resp ≡ new_get_cmd_response value))
        × StandsAt s'.node.peer.ps.apply_state.apply_index s'.halfway s'.completed
  unfolding read_applied
  read_applied-IsFresh s s' w w' i state found r resp no_table no_tasks kept turns task answered =
      let fresh =
        Turns-IsFresh (s, w) (s', w') turns
          (record {
            table = subst (Covers s.asked) (sym no_table) tt;
            tasks = subst (All (IsLate s.asked)) (sym no_tasks) tt;
            kept = kept;
          }) in
      let late : IsLate s'.asked (state, r, some found) =
        All-get_elem? (IsLate s'.asked) s'.tasks i (state, r, some found) fresh.tasks task in
      let below : s'.asked r.ctx ≤ state.index = elim late [
        | inl nothing ↦ absurd cc
        | inr below ↦ below
      ] in
      let due = due-read_applied state r s'.node.peer resp answered in
      let (k, keyed, rest) = >>=-eq-returns (key r) _ (rw due at answered) in
      let (value, held, same) =
        >>=-eq-returns (found_or_nil (read_kv p k s'.node.peer.ps.engines)) _ rest in
      (
        omega (arith, below, leb→le state.index s'.node.peer.ps.apply_state.apply_index due),
        (
          k,
          value,
          keyed,
          ap found_or_nil (sym (fresh.kept.reads k)) ∙ held,
          sym (some-injective (returns-injective same)),
        ),
        fresh.kept.applied,
      )
