-- ===== src/Store/Memory.antt =====
-- store_memory.go: the store of the tests, a Go map as a list, the last write in front.
use talent_challenge.Prelude.{Option, none, some, List, [], ◌∷◌, if◌then◌else◌}
use talent_challenge.Prelude.Bytes.{Bytes, bytes_eq}

pub record MemoryStore : Type 0 where
  pub db : List (Bytes × Bytes)

unfoldable pub new_memory_store : MemoryStore
new_memory_store = record { db = [] }

unfoldable pub lookup : Bytes → List (Bytes × Bytes) → Option Bytes
lookup key [] = none
lookup key ((k, v) ∷ db) = if bytes_eq k key then some v else lookup key db

unfoldable pub remove : Bytes → List (Bytes × Bytes) → List (Bytes × Bytes)
remove key [] = []
remove key ((k, v) ∷ db) =
    let rest = remove key db in if bytes_eq k key then rest else (k, v) ∷ rest

-- None of the methods returns an error.
unfoldable pub set : (key value : Bytes) → MemoryStore → MemoryStore
set key value s = record s { db = (key, value) ∷ s.db }

-- nil for a key that is not there
unfoldable pub get : Bytes → MemoryStore → Option Bytes
get key s = lookup key s.db

unfoldable pub delete : Bytes → MemoryStore → MemoryStore
delete key s = record s { db = remove key s.db }
