-- ===== src/Storage/Engines/Reads.antt =====
-- Reads after writes on a reliable disk.
use talent_challenge.Prelude.{◌≡◌, refl, Bool, Option, none, some, [], ◌∷◌, arith, if◌then◌else◌}
use talent_challenge.Prelude.Outcome.{ok, err, not_found}
use talent_challenge.Prelude.Bytes.{Bytes, bytes_eq}
use talent_challenge.Vendor.Pebble.{Pebble, IsReliable, found, missing}
use talent_challenge.Storage.Modify.{Modify}
use talent_challenge.Storage.Engines.{write, read, bytes_of}

-- What a read shows of a stored value: an empty one reads as nil.
abbrev pub shown : Bytes → Option Bytes
shown [] = none
shown (b ∷ bs) = some (b ∷ bs)

pub bytes_of-shown : (v : Bytes) → bytes_of (shown v) ≡ v
bytes_of-shown [] = refl
bytes_of-shown (b ∷ bs) = refl

module _ {DB : Type 0} (p : Pebble DB) (reliable : IsReliable p) where
  pub write-put : (k v : Bytes) (s : Bool) (d : DB) → (write p (Modify.put k v s) d).0 ≡ none
  unfolding write
  write-put k v s d = reliable.set_succeeds k v s d

  pub write-delete : (k : Bytes) (s : Bool) (d : DB) → (write p (Modify.delete k s) d).0 ≡ none
  unfolding write
  write-delete k s d = reliable.delete_succeeds k s d

  pub read-put :
      (k v : Bytes) (s : Bool) (d : DB) (j : Bytes)
      → read p j (write p (Modify.put k v s) d).1
        ≡ (if bytes_eq k j then ok (shown v) else read p j d)
  unfolding write read
  read-put k [] s d j = ground (arith, reliable.get-set k [] s d j)
  read-put k (b ∷ bs) s d j = ground (arith, reliable.get-set k (b ∷ bs) s d j)

  pub read-delete :
      (k : Bytes) (s : Bool) (d : DB) (j : Bytes)
      → read p j (write p (Modify.delete k s) d).1
        ≡ (if bytes_eq k j then err not_found else read p j d)
  unfolding write read
  read-delete k s d j = ground (arith, reliable.get-delete k s d j)

pub read-found :
    {DB : Type 0} (p : Pebble DB) (k v : Bytes) (d : DB)
    → p.get k d ≡ found v
    → read p k d ≡ ok (shown v)
unfolding read
read-found p k [] d h = ground (arith, h)
read-found p k (b ∷ bs) d h = ground (arith, h)

pub read-missing :
    {DB : Type 0} (p : Pebble DB) (k : Bytes) (d : DB)
    → p.get k d ≡ missing
    → read p k d ≡ err not_found
unfolding read
read-missing p k d h = ground (arith, h)
