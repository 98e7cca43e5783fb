-- ===== src/PeerStorage/State/Writes.antt =====
-- What the metadata writes of peer_storage.go leave to be read, on a reliable disk.
use talent_challenge.Prelude.{
  ℕ, ◌^◌, ◌<◌, ◌≡◌, ap, true, false, Option, none, some, arith, ◌==◌, if◌then◌else◌,
}
use talent_challenge.Prelude.Outcome.{Error, returns, ok, err, not_found}
use talent_challenge.Prelude.Bytes.{Bytes, bytes_eq}
use talent_challenge.Vendor.Pebble.{Pebble, IsReliable}
use talent_challenge.Vendor.Codec.{Codec, IsLossless}
use talent_challenge.Storage.Modify
use talent_challenge.Storage.Engines.{Engines, write, read_meta}
use talent_challenge.Storage.Engines.Reads.{
  shown, bytes_of-shown, write-put, write-delete, read-put, read-delete,
}
use talent_challenge.Messages.{Entry, Proto}
use talent_challenge.Meta.Key.{raft_log_entry_key, bytes_eq-raft_log_entry_key}
use talent_challenge.Meta.Value.{parse_as}
use talent_challenge.PeerStorage.State.{PeerStorage, put_meta, delete_meta}
use talent_challenge.PeerStorage.Log.{read_entry}

pub parse_as-shown :
    {A : Type 0} (c : Codec A) (a : A) (b : Bytes)
    → c.unmarshal b ≡ some a
    → parse_as c (shown b) ≡ ok a
parse_as-shown c a b h = ground (arith, bytes_of-shown b)

module _ {DB : Type 0} (p : Pebble DB) where
  -- The engines after a write of bytes under a key of the metadata.
  abbrev pub with_meta : Bytes → Bytes → Engines DB → Engines DB
  with_meta key b engines = record engines {
    meta = (write p (Modify.put key b true) engines.meta).1;
  }

  abbrev pub without_meta : Bytes → Engines DB → Engines DB
  without_meta key engines = record engines {
    meta = (write p (Modify.delete key true) engines.meta).1;
  }

module _ {DB : Type 0} (p : Pebble DB) (pb : Proto) (reliable : IsReliable p) where
  pub put_meta-returns :
      {A : Type 0} (c : Codec A) (l : IsLossless c) (key : Bytes) (a : A) (ps : PeerStorage DB)
      → put_meta p pb c key a ps
        ≡ returns (none, record ps { engines = with_meta p key (l.round_trip a).0 ps.engines })
  unfolding put_meta
  put_meta-returns c l key a ps =
      let (b, marshalled, back) = l.round_trip a in
      ground (arith, marshalled, write-put p reliable key b true ps.engines.meta)

  pub delete_meta-eq :
      (key : Bytes) (ps : PeerStorage DB)
      → delete_meta p pb key ps ≡ (none, record ps { engines = without_meta p key ps.engines })
  unfolding delete_meta
  delete_meta-eq key ps =
      ap (λ (o : Option Error). (o, record ps { engines = without_meta p key ps.engines }))
        (write-delete p reliable key true ps.engines.meta)

  pub read_meta-with_meta :
      (key b : Bytes) (engines : Engines DB) (j : Bytes)
      → read_meta p j (with_meta p key b engines)
        ≡ (if bytes_eq key j then ok (shown b) else read_meta p j engines)
  unfolding read_meta
  read_meta-with_meta key b engines j = read-put p reliable key b true engines.meta j

  pub read_meta-without_meta :
      (key : Bytes) (engines : Engines DB) (j : Bytes)
      → read_meta p j (without_meta p key engines)
        ≡ (if bytes_eq key j then err not_found else read_meta p j engines)
  unfolding read_meta
  read_meta-without_meta key engines j = read-delete p reliable key true engines.meta j

  -- A write under another key leaves the entry of an index.
  pub read_entry-with_meta_other :
      (key b : Bytes) (engines : Engines DB) (i : ℕ)
      → bytes_eq key (raft_log_entry_key i) ≡ false
      → read_entry p pb i (with_meta p key b engines) ≡ read_entry p pb i engines
  unfolding read_entry
  read_entry-with_meta_other key b engines i h =
      ground (arith, read_meta-with_meta key b engines (raft_log_entry_key i))

  pub read_entry-with_entry :
      (ent : Entry) (b : Bytes) (engines : Engines DB) (j : ℕ)
      → ent.index < 2 ^ 64
      → j < 2 ^ 64
      → pb.entry.unmarshal b ≡ some ent
      → read_entry p pb j (with_meta p (raft_log_entry_key ent.index) b engines)
        ≡ (if ent.index == j then ok ent else read_entry p pb j engines)
  unfolding read_entry
  read_entry-with_entry ent b engines j hi hj h = ground (
    arith,
    read_meta-with_meta (raft_log_entry_key ent.index) b engines (raft_log_entry_key j),
    bytes_eq-raft_log_entry_key ent.index j hi hj,
    parse_as-shown pb.entry ent b h,
  )

  pub read_entry-without_entry :
      (i : ℕ) (engines : Engines DB) (j : ℕ)
      → i < 2 ^ 64
      → j < 2 ^ 64
      → read_entry p pb j (without_meta p (raft_log_entry_key i) engines)
        ≡ (if i == j then err not_found else read_entry p pb j engines)
  unfolding read_entry
  read_entry-without_entry i engines j hi hj = ground (
    arith,
    read_meta-without_meta (raft_log_entry_key i) engines (raft_log_entry_key j),
    bytes_eq-raft_log_entry_key i j hi hj,
  )
