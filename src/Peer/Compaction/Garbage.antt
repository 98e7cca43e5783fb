-- ===== src/Peer/Compaction/Garbage.antt =====
-- What `gcRaftLog` of peer.go collects when it runs behind `processAdminRequest`. A goroutine of
-- `gcRaftLog` is one step here, in any order with the steps of the peer.
use native.Mathlib.Decide.{dec_lt}
use talent_challenge.Prelude.{
  ℕ, ◌+◌, ◌≤◌, ◌≡◌, refl, ap, sym, ◌∙◌, ◌⊎◌, inl, inr, Option, none, some, List, [], ◌∷◌, ◌++◌, All,
  arith, le→leb, subst, ==_iff,
}
use talent_challenge.Prelude.Outcome.{Error, returns, >>=-eq-returns, returns-injective}
use talent_challenge.Vendor.Pebble.{Pebble}
use talent_challenge.Messages.{
  Entry, Proto, Request, AdminRequest, AdminCmdType, CompactLogRequest, RaftApplyState,
  RaftCmdRequest, compact_log_cmd,
}
use talent_challenge.PeerStorage.State.{
  PeerStorage, u64, truncate_index, put_meta, write_apply_state, delete_log_entries,
}
use talent_challenge.PeerStorage.Log.{check_range, entries}
use talent_challenge.Peer.State.{Peer, new_peer}
use talent_challenge.Peer.Apply.{
  deref, process_request, compact, switch_admin, process_admin_request, mark_applied, mark_entry,
  run_entry, run_command, process,
}
use talent_challenge.Peer.Compaction.{gc_raft_log}

-- A range that is empty, or begins where the log is compacted already.
abbrev pub Idle : ℕ → ℕ × ℕ → Type 0
Idle truncated task = (task.0 ≤ truncated) ⊎ (task.0 ≡ task.1)

Idle-mono : (m n : ℕ) (task : ℕ × ℕ) → m ≤ n → Idle m task → Idle n task
Idle-mono m n task h (inl low) = inl (omega arith)
Idle-mono m n task h (inr same) = inr same

-- The range that a compaction to `index` hands to the collector.
new_task-Idle :
    (last index t : ℕ) → last ≤ index → t ≡ index → Idle t (u64 (last + 1), u64 (index + 1))
new_task-Idle last index t h e = elim (dec_lt last index) [
  | yes more ↦ inl (omega arith)
  | no same ↦ inr (ap (λ (n : ℕ). u64 (n + 1)) (omega arith))
]

All-Idle-mono : (m n : ℕ) (tasks : List (ℕ × ℕ)) → m ≤ n → All (Idle m) tasks → All (Idle n) tasks
All-Idle-mono m n [] h a = tt
All-Idle-mono m n (task ∷ tasks) h a = (Idle-mono m n task h a.0, All-Idle-mono m n tasks h a.1)

All-append {ℓ κ} :
    {A : Type ℓ} (P : A → Type κ) (xs ys : List A) → All P xs → All P ys → All P (xs ++ ys)
All-append P [] ys hx hy = hy
All-append P (x ∷ xs) ys hx hy = (hx.0, All-append P xs ys hx.1 hy)

All-split {ℓ κ} :
    {A : Type ℓ} (P : A → Type κ) (xs ys : List A) → All P (xs ++ ys) → All P xs × All P ys
All-split P [] ys h = (tt, h)
All-split P (x ∷ xs) ys h = let (hx, hy) = All-split P xs ys h.1 in ((h.0, hx), hy)

abbrev pub truncated : {DB : Type 0} → PeerStorage DB → ℕ
truncated ps = ps.apply_state.truncated_state.index

module _ {DB : Type 0} (p : Pebble DB) (pb : Proto) where
  gc_raft_log-Idle :
      (task : ℕ × ℕ) (ps : PeerStorage DB)
      → Idle (truncated ps) task
      → (gc_raft_log p pb task.0 task.1 ps).1 ≡ ps
  unfolding gc_raft_log entries check_range truncate_index delete_log_entries
  gc_raft_log-Idle task ps (inl low) = ground arith
  gc_raft_log-Idle task ps (inr same) = ground (arith, ==_iff task.0 task.1)

  -- A write of metadata changes the engines alone.
  apply_state-write_apply_state :
      (ps ps' : PeerStorage DB) (e : Option Error)
      → write_apply_state p pb ps ≡ returns (e, ps')
      → ps'.apply_state ≡ ps.apply_state
  unfolding write_apply_state put_meta
  apply_state-write_apply_state ps ps' e h = ground arith

  mark_applied-truncated :
      (ent : Entry) (ps ps' : PeerStorage DB)
      → mark_applied p pb ent ps ≡ returns ps'
      → truncated ps' ≡ truncated ps
  unfolding mark_applied
  mark_applied-truncated ent ps ps' h =
      let (r, found, h') = >>=-eq-returns _ _ h in
      ap (λ a. a.truncated_state.index)
        (ap (λ (s : PeerStorage DB). s.apply_state) (returns-injective (sym h'))
          ∙ apply_state-write_apply_state _ r.1 r.0 found)

  process_request-truncated :
      (request : Request) (ps ps' : PeerStorage DB)
      → process_request p pb request ps ≡ returns ps'
      → truncated ps' ≡ truncated ps
  unfolding process_request
  process_request-truncated request ps ps' h = ground arith

-- The compacted index of a peer is behind the truncated index, and its pending tasks are idle.
pub record IsIdle {DB : Type 0} (pr : Peer DB) : Type 0 where
  pub compacted : pr.last_compacted_idx ≤ truncated pr.ps
  pub tasks : All (Idle (truncated pr.ps)) pr.gc_tasks

module _ {DB : Type 0} (p : Pebble DB) (pb : Proto) where
  compact-IsIdle :
      (c : CompactLogRequest) (pr pr' : Peer DB)
      → IsIdle pr
      → compact p pb c pr ≡ returns pr'
      → IsIdle pr'
  unfolding compact
  compact-IsIdle c pr pr' idle h = elim (dec_lt c.compact_index (truncated pr.ps)) [
    | yes old ↦ let same : pr ≡ pr' = ground (arith, old) in subst IsIdle same idle
    | no new ↦
        let compacted : PeerStorage DB = record pr.ps {
          apply_state = record pr.ps.apply_state {
            truncated_state = record { index = c.compact_index; term = c.compact_term };
          };
        } in
        let h' = rw (le→leb (truncated pr.ps) c.compact_index (omega arith)) at h in
        let (r, written, h'') = >>=-eq-returns (write_apply_state p pb compacted) _ h' in
        let moved =
          ap (λ (a : RaftApplyState). a.truncated_state.index)
            (apply_state-write_apply_state p pb compacted r.1 r.0 written) in
        let task : ℕ × ℕ = (u64 (pr.last_compacted_idx + 1), u64 (c.compact_index + 1)) in
        subst IsIdle (returns-injective h'') (record {
          compacted = omega (arith, moved);
          tasks =
              All-append (Idle (truncated r.1)) pr.gc_tasks (task ∷ [])
                (All-Idle-mono (truncated pr.ps) (truncated r.1) pr.gc_tasks (omega (arith, moved))
                  idle.tasks)
                (
                  new_task-Idle pr.last_compacted_idx c.compact_index (truncated r.1) (omega arith)
                      moved,
                  tt,
                );
        })
  ]

  switch_admin-IsIdle :
      (t : AdminCmdType) (request : AdminRequest) (pr pr' : Peer DB)
      → IsIdle pr
      → switch_admin p pb t request pr ≡ returns pr'
      → IsIdle pr'
  unfolding switch_admin
  switch_admin-IsIdle compact_log_cmd request pr pr' idle h =
      let (c, found, h') = >>=-eq-returns (deref request.compact_log) _ h in
      compact-IsIdle c pr pr' idle h'

  -- A storage whose truncated index has not fallen keeps the tasks idle.
  IsIdle-storage :
      (pr : Peer DB) (ps : PeerStorage DB)
      → truncated pr.ps ≤ truncated ps
      → IsIdle pr
      → IsIdle (record pr { ps = ps })
  IsIdle-storage pr ps h idle = record {
    compacted = omega (arith, idle.compacted);
    tasks = All-Idle-mono (truncated pr.ps) (truncated ps) pr.gc_tasks h idle.tasks;
  }

  run_command-IsIdle :
      (cmd : RaftCmdRequest) (pr pr' : Peer DB)
      → IsIdle pr
      → run_command p pb cmd pr ≡ returns pr'
      → IsIdle pr'
  unfolding run_command process_admin_request
  run_command-IsIdle cmd pr pr' idle h = by_request cmd.request refl cmd.admin_request refl
    where
      by_request :
          (request : Option Request)
          → cmd.request ≡ request
          → (admin : Option AdminRequest) → cmd.admin_request ≡ admin
          → IsIdle pr'
      by_request (some request) e admin e' =
          let (ps, found, h') =
            >>=-eq-returns (process_request p pb request pr.ps) _ (rw (e, run_command) at h) in
          let same = process_request-truncated p pb request pr.ps ps found in
          subst IsIdle (returns-injective h') (IsIdle-storage pr ps (omega (arith, same)) idle)
      by_request none e none e' =
          subst IsIdle (returns-injective (rw (e, e', run_command) at h)) idle
      by_request none e (some admin) e' =
          switch_admin-IsIdle admin.cmd_type admin pr pr' idle (rw (e, e', run_command) at h)

  process-IsIdle :
      (ent : Entry) (pr pr' : Peer DB) → IsIdle pr → process p pb ent pr ≡ returns pr' → IsIdle pr'
  unfolding process mark_entry run_entry
  process-IsIdle ent pr pr' idle h =
      let (half, first, h') = >>=-eq-returns (mark_entry p pb ent pr) _ h in
      let (ps, marked, made) = >>=-eq-returns (mark_applied p pb ent pr.ps) _ first in
      let same = mark_applied-truncated p pb ent pr.ps ps marked in
      let idle' =
        subst IsIdle (returns-injective made) (IsIdle-storage pr ps (omega (arith, same)) idle) in
      let (last, second, end) = >>=-eq-returns (run_entry p pb ent half) _ h' in
      let (cmd, parsed, ran) = >>=-eq-returns (deref (pb.command.unmarshal ent.payload)) _ second in
      subst IsIdle (returns-injective end) (run_command-IsIdle cmd half last idle' ran)

  -- The steps of a peer that bear on the collection: an entry is processed, a pending task runs to
  -- its end, or any other handler changes the storage and does not lower the truncated index.
  pub data Step (pr : Peer DB) : Peer DB → Type 0 where
    apply : (ent : Entry) {pr' : Peer DB} → process p pb ent pr ≡ returns pr' → Step pr pr'
    collect :
        (xs ys : List (ℕ × ℕ)) (task : ℕ × ℕ)
        → pr.gc_tasks ≡ xs ++ (task ∷ ys)
        → Step pr (record pr { ps = (gc_raft_log p pb task.0 task.1 pr.ps).1; gc_tasks = xs ++ ys })
    store : (ps : PeerStorage DB) → truncated pr.ps ≤ truncated ps → Step pr (record pr { ps = ps })

  pub data Reach (start : Peer DB) : Peer DB → Type 0 where
    here : Reach start start
    next : {pr pr' : Peer DB} → Reach start pr → Step pr pr' → Reach start pr'

  Step-IsIdle : {pr pr' : Peer DB} → Step pr pr' → IsIdle pr → IsIdle pr'
  Step-IsIdle {pr} {pr'} (apply ent done) idle = process-IsIdle ent pr pr' idle done
  Step-IsIdle {pr} (collect xs ys task e) idle =
      let (before, rest) =
        All-split (Idle (truncated pr.ps)) xs (task ∷ ys)
          (subst (All (Idle (truncated pr.ps))) e idle.tasks) in
      let same = gc_raft_log-Idle p pb task pr.ps rest.0 in
      let kept : IsIdle (record pr { gc_tasks = xs ++ ys }) = record {
        compacted = idle.compacted;
        tasks = All-append (Idle (truncated pr.ps)) xs ys before rest.1;
      } in
      IsIdle-storage (record pr { gc_tasks = xs ++ ys }) (gc_raft_log p pb task.0 task.1 pr.ps).1
        (omega (arith, ap (λ (s : PeerStorage DB). truncated s) same)) kept
  Step-IsIdle {pr} (store ps h) idle = IsIdle-storage pr ps h idle

  Reach-IsIdle : {start pr : Peer DB} → IsIdle start → Reach start pr → IsIdle pr
  Reach-IsIdle idle here = idle
  Reach-IsIdle idle (next r step) = Step-IsIdle step (Reach-IsIdle idle r)

  Idle-collect :
      (ps : PeerStorage DB) (tasks : List (ℕ × ℕ))
      → All (Idle (truncated ps)) tasks
      → All (λ task. (gc_raft_log p pb task.0 task.1 ps).1 ≡ ps) tasks
  Idle-collect ps [] h = tt
  Idle-collect ps (task ∷ tasks) h = (gc_raft_log-Idle p pb task ps h.0, Idle-collect ps tasks h.1)

  -- In every state that a new peer can reach, each pending run of `gcRaftLog` would leave the
  -- storage exactly as it is.
  pub gc_raft_log-Reach :
      (id : ℕ) (ps : PeerStorage DB) (pr : Peer DB)
      → Reach (new_peer id ps) pr
      → All (λ task. (gc_raft_log p pb task.0 task.1 pr.ps).1 ≡ pr.ps) pr.gc_tasks
  unfolding new_peer truncate_index
  gc_raft_log-Reach id ps pr r =
      let start : IsIdle (new_peer id ps) = record { compacted = omega arith; tasks = tt } in
      Idle-collect pr.ps pr.gc_tasks (Reach-IsIdle start r).tasks
