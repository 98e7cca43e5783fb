-- ===== src/PeerStorage/Ready.antt =====
-- peer_storage.go: `saveReadyState`, which stores what a Ready of raft asks to be stored.
pub mod Steps
pub mod Saves
use talent_challenge.Prelude.{ℕ, Bool, true, false, Option, List, if◌then◌else◌}
use talent_challenge.Prelude.Bytes.{Bytes}
use talent_challenge.Prelude.Outcome.{Error, Outcome, returns, ◌>>=◌}
use talent_challenge.Vendor.Pebble.{Pebble}
use talent_challenge.Messages.{Entry, HardState, Snapshot, Proto}
use talent_challenge.PeerStorage.State.{PeerStorage, Etcd, write_local_state}
use talent_challenge.PeerStorage.Append.{truncate_and_append}
use talent_challenge.PeerStorage.Snapshots.{apply_snapshot}

-- raft.Ready, with the fields that the storage reads
pub record Ready : Type 0 where
  pub hard_state : HardState
  pub entries : List Entry
  pub snapshot : Snapshot
  pub committed_entries : List Entry

module _ {DB : Type 0} (p : Pebble DB) (pb : Proto) (etcd : Etcd) where
  abbrev pub set_hard_state : HardState → PeerStorage DB → PeerStorage DB
  set_hard_state hs ps =
      if etcd.is_empty_hard_state hs
      then ps
      else record ps { local_state = record ps.local_state { hard_state = hs } }

  unfoldable pub save_ready_state : Ready → PeerStorage DB → Outcome (Option Error × PeerStorage DB)
  save_ready_state rd ps = do
    let install = apply_snapshot p pb rd.snapshot ps
    ps' ← if etcd.is_empty_snap rd.snapshot then returns ps else install
    ps'' ← truncate_and_append p pb rd.entries ps'
    write_local_state p pb (set_hard_state rd.hard_state ps'')
