-- ===== src/Storage/Engines.antt =====
-- storage/storage.go and storage/engines.go: two Pebble databases, one for user data and one for
-- the metadata of raft.
pub mod Reads
use talent_challenge.Prelude.{
  ℕ, Bool, true, false, Option, none, some, List, [], ◌∷◌, map, length, ◌==◌, if◌then◌else◌,
}
use talent_challenge.Prelude.Outcome.{
  Error, Result, ok, err, not_found, unknown_modify, io, pebble_not_found,
}
use talent_challenge.Prelude.Bytes.{Bytes}
use talent_challenge.Vendor.Pebble.{Pebble, Lookup, found, missing, failed}
use talent_challenge.Storage.Modify
use talent_challenge.Storage.Modify.{Modify, put, delete, other}
use talent_challenge.Storage.Pair.{Pair, encode}

-- The bytes of a slice that may be nil.
abbrev pub bytes_of : Option Bytes → Bytes
bytes_of none = []
bytes_of (some b) = b

-- `err == pebble.ErrNotFound`
abbrev is_pebble_not_found : Error → Bool
is_pebble_not_found pebble_not_found = true
is_pebble_not_found _ = false

pub record Engines (DB : Type 0) : Type 0 where
  pub kv : DB
  pub meta : DB

module _ {DB : Type 0} (p : Pebble DB) where
  -- `storage.set`; the methods of `storage` return the database after the call.
  unfoldable pub set : Bytes → Bytes → Bool → DB → Option Error × DB
  set key val sync d = p.set key val sync d

  unfoldable pub delete_key : Bytes → Bool → DB → Option Error × DB
  delete_key key sync d = p.delete key sync d

  -- `storage.get`: an empty value is returned as nil.
  unfoldable pub get : Bytes → DB → Result (Option Bytes)
  get key d = elim (p.get key d) [
    | found val ↦ if length val == 0 then ok none else ok (some val)
    | missing ↦ err pebble_not_found
    | failed n ↦ err (io n)
  ]

  -- `storage.snapshot`
  unfoldable pub snapshot : DB → Bytes
  snapshot d = encode (map (λ item. record { key = item.0; val = item.1 }) (p.items d))

  -- The dispatch that `WriteKV` and `WriteMeta` share, on the database that they write.
  unfoldable pub write : Modify → DB → Option Error × DB
  unfolding set delete_key Modify.key Modify.value Modify.sync
  write (put k v s) d =
      let m = put k v s in
      set (bytes_of (Modify.key m)) (bytes_of (Modify.value m)) (Modify.sync m) d
  write (delete k s) d =
      let m = delete k s in delete_key (bytes_of (Modify.key m)) (Modify.sync m) d
  write other d = (some unknown_modify, d)

  unfoldable pub write_kv : Modify → Engines DB → Option Error × Engines DB
  write_kv m e = let r = write m e.kv in (r.0, record e { kv = r.1 })

  unfoldable pub write_meta : Modify → Engines DB → Option Error × Engines DB
  write_meta m e = let r = write m e.meta in (r.0, record e { meta = r.1 })

  -- `ReadKV` and `ReadMeta` turn Pebble's "not found" into the package's own.
  unfoldable pub read : Bytes → DB → Result (Option Bytes)
  unfolding get
  read key d = elim (get key d) [
    | ok value ↦ ok value
    | err e ↦ if is_pebble_not_found e then err not_found else err e
  ]

  unfoldable pub read_kv : Bytes → Engines DB → Result (Option Bytes)
  read_kv key e = read key e.kv

  unfoldable pub read_meta : Bytes → Engines DB → Result (Option Bytes)
  read_meta key e = read key e.meta

  unfoldable pub kv_snapshot : Engines DB → Bytes
  kv_snapshot e = snapshot e.kv
