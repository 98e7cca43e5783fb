-- ===== src/Examples/Encodings.antt =====
-- The theorems on keys, encodings and installed snapshots at concrete inputs.
use talent_challenge.Prelude.{
  ℕ, ◌-◌, ◌^◌, ◌≡◌, ◌≢◌, refl, List, [], ◌∷◌, length, replicate, length-replicate, map, All, arith,
  ◌==◌,
}
use talent_challenge.Prelude.Bytes.{Bytes, bytes_eq, le_bytes, le_value, read_le, slice, slice_from}
use talent_challenge.Prelude.Outcome.{returns, panics, diverges}
use talent_challenge.Vendor.Reference.{list_db, list_db-IsReliable}
use talent_challenge.Storage.Engines.{Engines, read_kv, kv_snapshot}
use talent_challenge.Storage.Pair.{
  Pair, encode, decode, decode_loop, decode_one, decode_pair, encode_pair,
}
use talent_challenge.Storage.Pair.RoundTrip.{
  Fits, decode-encode, decode-ne-diverges, decode-encode_wrapped,
}
use talent_challenge.Messages.{Snapshot, empty_conf_state}
use talent_challenge.Meta.Key.{raft_log_entry_key, bytes_eq-raft_log_entry_key}
use talent_challenge.PeerStorage.State.{PeerStorage}
use talent_challenge.PeerStorage.Log.Spec.{Represents}
use talent_challenge.PeerStorage.Snapshots.{apply_snapshot}
use talent_challenge.PeerStorage.Snapshots.Installed.{
  log_behind, installed_state, states_written, overlay, latest, newer, to_pair,
  apply_snapshot-returns, read_kv-apply_snapshot,
}
use talent_challenge.Examples.Codecs.{proto, proto-IsLossless}
use talent_challenge.Examples.Samples.{Db, ps}

bytes_eq-raft_log_entry_key_example :
    bytes_eq (raft_log_entry_key 258) (raft_log_entry_key 513) ≡ (258 == 513)
bytes_eq-raft_log_entry_key_example =
    bytes_eq-raft_log_entry_key 258 513 (omega arith) (omega arith)

abbrev pairs : List Pair
pairs = record { key = b'k' ∷ []; val = b'v' ∷ b'w' ∷ [] } ∷ record { key = []; val = [] } ∷ []

decode-encode_example : decode (encode pairs) ≡ returns pairs
decode-encode_example = decode-encode pairs (omega arith)

decode-pairs : decode (encode pairs) ≡ returns pairs
unfolding decode encode decode_loop decode_one decode_pair encode_pair read_le slice slice_from
    le_bytes le_value
decode-pairs = refl

decode-ne-diverges_example : decode (8 ∷ 0 ∷ 0 ∷ 0 ∷ 9 ∷ []) ≢ diverges
decode-ne-diverges_example = decode-ne-diverges (8 ∷ 0 ∷ 0 ∷ 0 ∷ 9 ∷ [])

decode_truncated : decode (8 ∷ 0 ∷ 0 ∷ 0 ∷ 9 ∷ []) ≡ panics
unfolding decode decode_loop decode_one decode_pair read_le slice slice_from le_value
decode_truncated = refl

abbrev snap : Snapshot
snap = record {
  payload = encode pairs;
  metadata = record { conf_state = empty_conf_state; index = 9; term = 7 };
}

apply_snapshot-returns_example :
    (ps' : PeerStorage Db) × (apply_snapshot list_db proto snap ps ≡ returns ps')
    × Represents list_db proto ps' (log_behind snap)
    × (ps'.apply_state ≡ installed_state snap)
    × (ps'.conf_state ≡ snap.metadata.conf_state)
    × (ps'.local_state.hard_state ≡ ps.local_state.hard_state)
    × (ps'.engines.meta
        ≡ (states_written list_db proto list_db-IsReliable proto-IsLossless snap ps).meta)
    × ((k : Bytes)
        → read_kv list_db k ps'.engines ≡ overlay (latest k pairs) (read_kv list_db k ps.engines))
apply_snapshot-returns_example =
    apply_snapshot-returns list_db proto list_db-IsReliable proto-IsLossless snap pairs ps
      (omega arith) (omega arith) refl

abbrev sender : Engines Db
sender = record { kv = (b'a' ∷ [], b'n' ∷ []) ∷ []; meta = [] }

abbrev sent : Snapshot
sent = record {
  payload = kv_snapshot list_db sender;
  metadata = record { conf_state = empty_conf_state; index = 9; term = 7 };
}

sender-Fits : All Fits (map to_pair (list_db.items sender.kv))
unfolding list_db
sender-Fits = omega arith

read_kv-apply_snapshot_example :
    (ps' : PeerStorage Db) × (apply_snapshot list_db proto sent ps ≡ returns ps')
    × ((k : Bytes)
        → read_kv list_db k ps'.engines
          ≡ newer (read_kv list_db k sender) (read_kv list_db k ps.engines))
read_kv-apply_snapshot_example =
    read_kv-apply_snapshot list_db proto list_db-IsReliable proto-IsLossless sender sent ps
      (omega arith) sender-Fits refl

-- Keys too long to write out: nothing here computes their bytes.
zeros : ℕ → Bytes
zeros n = replicate n 0

length-zeros : (n : ℕ) → length (zeros n) ≡ n
unfolding zeros
length-zeros n = length-replicate n 0

decode-encode_wrapped_example :
    decode (encode (record { key = zeros (2 ^ 32 - 8); val = [] } ∷ [])) ≡ panics
decode-encode_wrapped_example =
    decode-encode_wrapped (record { key = zeros (2 ^ 32 - 8); val = [] }) []
      (omega (arith, length-zeros (2 ^ 32 - 8)))
