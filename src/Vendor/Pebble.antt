-- ===== src/Vendor/Pebble.antt =====
-- The operations of github.com/cockroachdb/pebble that pkg/store/storage calls, over a type `DB`
-- of database states, and what its documentation says of them on a disk that does not fail.
use talent_challenge.Prelude.{◌≡◌, Bool, Option, none, List, [], ◌∷◌, if◌then◌else◌}
use talent_challenge.Prelude.{ℕ}
use talent_challenge.Prelude.Outcome.{Error}
use talent_challenge.Prelude.Bytes.{Bytes, bytes_eq}

-- What `DB.Get` finds: a value, `pebble.ErrNotFound`, or another error.
pub data Lookup : Type 0 where
  found : Bytes → Lookup
  missing : Lookup
  failed : ℕ → Lookup

abbrev pub Item : Type 0
Item = Bytes × Bytes

pub record Pebble (DB : Type 0) : Type 0 where
  -- `DB.Set(key, value, options)`: the error, and the database after it
  pub set : Bytes → Bytes → Bool → DB → Option Error × DB
  -- `DB.Delete(key, options)`
  pub delete : Bytes → Bool → DB → Option Error × DB
  -- `DB.Get(key)`
  pub get : Bytes → DB → Lookup
  -- what an iterator over a new snapshot goes through, from `First` to the end
  pub items : DB → List Item

-- The first item with the key.
abbrev pub lookup_item : Bytes → List Item → Lookup
lookup_item k [] = missing
lookup_item k ((j, v) ∷ items) = if bytes_eq j k then found v else lookup_item k items

-- No key stands twice.
abbrev pub DistinctKeys : List Item → Type 0
DistinctKeys [] = Unit
DistinctKeys ((k, v) ∷ items) = (lookup_item k items ≡ missing) × DistinctKeys items

-- The documented behaviour, where no operation fails.
pub record IsReliable {DB : Type 0} (p : Pebble DB) : Type 0 where
  pub set_succeeds : (k v : Bytes) (sync : Bool) (d : DB) → (p.set k v sync d).0 ≡ none
  pub delete_succeeds : (k : Bytes) (sync : Bool) (d : DB) → (p.delete k sync d).0 ≡ none
  pub get-set :
      (k v : Bytes) (sync : Bool) (d : DB) (j : Bytes)
      → p.get j (p.set k v sync d).1 ≡ (if bytes_eq k j then found v else p.get j d)
  pub get-delete :
      (k : Bytes) (sync : Bool) (d : DB) (j : Bytes)
      → p.get j (p.delete k sync d).1 ≡ (if bytes_eq k j then missing else p.get j d)
  pub get_items : (d : DB) (k : Bytes) → p.get k d ≡ lookup_item k (p.items d)
  pub items_distinct : (d : DB) → DistinctKeys (p.items d)
