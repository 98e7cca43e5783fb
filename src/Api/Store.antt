-- ===== src/Api/Store.antt =====
-- store/store.go: the interface `Store` of the server, what a client may rely on, and `NewStore`.
use talent_challenge.Prelude.{
  ℕ, ◌≡◌, refl, Bool, Option, none, some, List, [], ◌∷◌, ◌==◌, if◌then◌else◌,
}
use talent_challenge.Prelude.Bytes.{Bytes, bytes_eq}
use talent_challenge.Api.Model.{Try, done}
use talent_challenge.Store.Memory.{MemoryStore, new_memory_store, lookup, set, get, delete}
use talent_challenge.Store.Agrees.{lookup-remove}
use talent_challenge.Api.Url.{split}

-- The methods over an unknown state. `message` is `Error()`; a value may be nil.
pub record Store : Type 1 where
  pub State : Type 0
  pub Error : Type 0
  pub message : Error → Bytes
  pub set : (key value : Bytes) → State → Option Error × State
  pub get : (key : Bytes) → State → Try Error (Option Bytes) × State
  pub delete : (key : Bytes) → State → Option Error × State

-- A store that never fails and is a map: `holds` is what it holds under a key.
pub record IsMap (S : Store) : Type 0 where
  pub holds : S.State → Bytes → Option Bytes
  pub set-holds :
      (k v : Bytes) (s : S.State)
      → (S.set k v s).0 ≡ none
        × ((j : Bytes) → holds (S.set k v s).1 j ≡ (if bytes_eq k j then some v else holds s j))
  pub get-holds :
      (k : Bytes) (s : S.State)
      → (S.get k s).0 ≡ done (holds s k) × ((j : Bytes) → holds (S.get k s).1 j ≡ holds s j)
  pub delete-holds :
      (k : Bytes) (s : S.State)
      → (S.delete k s).0 ≡ none
        × ((j : Bytes) → holds (S.delete k s).1 j ≡ (if bytes_eq k j then none else holds s j))

-- The memory store, none of whose methods fails
abbrev pub memory_store : Store
memory_store = record {
  State = MemoryStore;
  Error = ⊥;
  message = λ e. absurd e;
  set = λ k v s. (none, set k v s);
  get = λ k s. (done (get k s), s);
  delete = λ k s. (none, delete k s);
}

unfoldable pub memory_map : IsMap memory_store
unfolding set get delete lookup
memory_map = record {
  holds = λ s k. lookup k s.db;
  set-holds = λ k v s. (refl, λ j. refl);
  get-holds = λ k s. (refl, λ j. refl);
  delete-holds = λ k s. (refl, λ j. lookup-remove j k s.db);
}

pub record StoreCfg : Type 0 where
  pub memory : Bool
  pub data_path : Bytes

-- `nodeMap`, with 0 for a name that it does not have
unfoldable pub node_id : Bytes → ℕ
node_id name =
    if bytes_eq name (b'n' ∷ b'o' ∷ b'd' ∷ b'e' ∷ b'1' ∷ [])
    then 1
    else if bytes_eq name (b'n' ∷ b'o' ∷ b'd' ∷ b'e' ∷ b'2' ∷ [])
    then 2
    else if bytes_eq name (b'n' ∷ b'o' ∷ b'd' ∷ b'e' ∷ b'3' ∷ [])
    then 3
    else 0

-- `dirs[len(dirs)-1]`
abbrev last_dir : Bytes → List Bytes → Bytes
last_dir d [] = d
last_dir d (e ∷ ds) = last_dir e ds

-- The store that `NewStore` makes: the memory store, or a raft store of an id and a directory
pub data NewStore : Type 0 where
  memory : MemoryStore → NewStore
  raft : (id : ℕ) (path : Bytes) → NewStore

unfoldable pub new_store : StoreCfg → NewStore
unfolding new_memory_store split node_id
new_store cfg =
    let dirs = split (λ c. c == b'/') cfg.data_path in
    if cfg.memory
    then NewStore.memory new_memory_store
    else NewStore.raft (node_id (last_dir dirs.0 dirs.1)) cfg.data_path
