-- ===== src/Storage/Modify.antt =====
-- storage/modify.go: a write as a value.
use talent_challenge.Prelude.{Bool, false, Option, none, some}
use talent_challenge.Prelude.Outcome.{Outcome, returns, panics}
use talent_challenge.Prelude.Bytes.{Bytes}
use talent_challenge.Vendor.Codec.{Codec}

-- `Modify` with its `Data`: a `Put`, a `Delete`, or a value of another type.
pub data Modify : Type 0 where
  put : (key value : Bytes) (sync : Bool) → Modify
  delete : (key : Bytes) (sync : Bool) → Modify
  other : Modify

-- `PutMeta` panics where the message does not marshal.
unfoldable pub put_meta : {A : Type 0} → Codec A → Bytes → A → Bool → Outcome Modify
put_meta c key msg sync = elim (c.marshal msg) [
  | none ↦ panics
  | some value ↦ returns (put key value sync)
]

unfoldable pub delete_meta : Bytes → Bool → Modify
delete_meta key sync = delete key sync

unfoldable pub put_data : Bytes → Bytes → Bool → Modify
put_data key value sync = put key value sync

unfoldable pub delete_data : Bytes → Bool → Modify
delete_data key sync = delete key sync

-- A nil slice is `none`.
unfoldable pub key : Modify → Option Bytes
key (put k v sync) = some k
key (delete k sync) = some k
key other = none

unfoldable pub value : Modify → Option Bytes
value (put k v sync) = some v
value (delete k sync) = none
value other = none

unfoldable pub sync : Modify → Bool
sync (put k v s) = s
sync (delete k s) = s
sync other = false
