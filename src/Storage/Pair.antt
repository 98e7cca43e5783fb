-- ===== src/Storage/Pair.antt =====
-- storage/pair.go: a snapshot is the encodings of its pairs, one after another.
pub mod RoundTrip
use talent_challenge.Prelude.{
  ℕ, zero, suc, ◌+◌, ◌-◌, ◌%◌, ◌^◌, List, [], ◌∷◌, ◌++◌, length, drop, if◌then◌else◌,
}
use talent_challenge.Prelude.Outcome.{Outcome, returns, diverges, ◌>>=◌, ◌>>◌}
use talent_challenge.Prelude.Bytes.{Bytes, le_bytes, read_le, slice, slice_from}

pub record Pair : Type 0 where
  pub key : Bytes
  pub val : Bytes

-- `encode`: the conversions to uint32 wrap.
unfoldable pub encode_pair : Pair → Bytes
encode_pair p =
    le_bytes 4 ((length p.key + length p.val + 8) % 2 ^ 32)
    ++ (le_bytes 4 (length p.key % 2 ^ 32) ++ (p.key ++ p.val))

unfoldable pub encode : List Pair → Bytes
encode [] = []
encode (p ∷ ps) = encode_pair p ++ encode ps

-- `decode`: `8 + ksize` is an addition of uint32 numbers.
unfoldable pub decode_pair : Bytes → Outcome Pair
decode_pair enc = do
  tail ← slice_from 4 enc
  ksize ← read_le 4 tail
  key ← slice 8 ((8 + ksize) % 2 ^ 32) enc
  val ← slice_from ((8 + ksize) % 2 ^ 32) enc
  returns (record { key = key; val = val })

-- One round of the loop of `Decode`, over the bytes from `offset` on: a pair and its size.
unfoldable pub decode_one : Bytes → Outcome (Pair × ℕ)
decode_one rest = do i ← read_le 4 rest; enc ← slice 0 i rest; p ← decode_pair enc; returns (p, i)

-- The list is `encs[offset:]`.
unfoldable pub decode_loop : ℕ → Bytes → Outcome (List Pair)
decode_loop fuel [] = returns []
decode_loop zero (b ∷ bs) = diverges
decode_loop (suc fuel) (b ∷ bs) = do
  (p, i) ← decode_one (b ∷ bs)
  ps ← decode_loop fuel (drop i (b ∷ bs))
  returns (p ∷ ps)

unfoldable pub decode : Bytes → Outcome (List Pair)
decode encs = decode_loop (length encs) encs
