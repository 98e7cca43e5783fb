-- ===== src/Storage/Files.antt =====
-- storage/storage.go and storage/engines.go: the directories of the two databases, opened, closed
-- and removed. The file system and Pebble's `Open` and `Close` are parameters on an unknown world.
use talent_challenge.Prelude.{ℕ, ◌≡◌, refl, Bool, Option, none, some, [], ◌∷◌, if◌then◌else◌}
use talent_challenge.Prelude.Outcome.{Outcome, returns, panics, ◌>>=◌, Try, failed, done}
use talent_challenge.Prelude.Bytes.{Bytes}
use talent_challenge.Storage.Engines.{Engines}

-- The calls, with the numbers of errors; `exist` is the test of util.go.
pub record Disk (DB W : Type 0) : Type 0 where
  pub exist : Bytes → W → Bool
  pub mkdir_all : Bytes → W → Option ℕ × W
  pub open_db : Bytes → W → Try ℕ DB × W
  pub close_db : DB → W → Option ℕ × W
  pub remove_all : Bytes → W → Option ℕ × W

-- `KvPath` and `MetaPath`
abbrev pub kv_path : Bytes
kv_path = b'/' ∷ b'k' ∷ b'v' ∷ []

abbrev pub meta_path : Bytes
meta_path = b'/' ∷ b'm' ∷ b'e' ∷ b't' ∷ b'a' ∷ []

-- `Engines` with the paths that it keeps
pub record OpenEngines (DB : Type 0) : Type 0 where
  pub engines : Engines DB
  pub kv_dir : Bytes
  pub meta_dir : Bytes

module _ {DB W : Type 0} (disk : Disk DB W) where
  abbrev made_dir : Bytes → W → Option ℕ × W
  made_dir dir w = let made = disk.mkdir_all dir w in if disk.exist dir w then (none, w) else made

  abbrev opened : Try ℕ DB × W → Outcome (DB × W)
  opened (failed e, w) = panics
  opened (done db, w) = returns (db, w)

  -- `newStorage`
  unfoldable pub new_storage : Bytes → W → Outcome (DB × W)
  new_storage dir w =
      let made = made_dir dir w in
      elim made.0 [ some e ↦ panics | none ↦ opened (disk.open_db dir made.1) ]

  unfoldable pub new_engines : (kv_dir meta_dir : Bytes) → W → Outcome (OpenEngines DB × W)
  unfolding new_storage
  new_engines kv_dir meta_dir w = do
    kv ← new_storage kv_dir w
    meta ← new_storage meta_dir kv.1
    returns (
      record {
        engines = record { kv = kv.0; meta = meta.0 };
        kv_dir = kv_dir;
        meta_dir = meta_dir;
      },
      meta.1,
    )

  -- A second call, made only where the first returned no error
  abbrev and_then : Option ℕ × W → (W → Option ℕ × W) → Option ℕ × W
  and_then (some e, w) next = (some e, w)
  and_then (none, w) next = next w

  -- `Close`: the metadata stays open where the user data cannot be closed.
  unfoldable pub close : OpenEngines DB → W → Option ℕ × W
  close e w = and_then (disk.close_db e.engines.kv w) (disk.close_db e.engines.meta)

  unfoldable pub destroy : OpenEngines DB → W → Option ℕ × W
  unfolding close
  destroy e w =
      and_then (and_then (close e w) (disk.remove_all e.kv_dir)) (disk.remove_all e.meta_dir)

  -- Where the databases cannot be closed, nothing is removed.
  destroy-close :
      (e : OpenEngines DB) (w w' : W) (n : ℕ)
      → close e w ≡ (some n, w')
      → destroy e w ≡ (some n, w')
  unfolding destroy
  destroy-close e w w' n failing = rw failing refl
