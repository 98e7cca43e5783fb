-- ===== src/Storage/Pair/RoundTrip.antt =====
-- Decoding of pair.go against its encoding: the round trip, termination and the wrapped size.
use talent_challenge.Prelude.{
  ℕ, zero, suc, ◌+◌, ◌-◌, ◌%◌, ◌^◌, ◌≤◌, ◌<◌, ◌≡◌, ◌≢◌, refl, sym, ◌∙◌, List, [], ◌∷◌, ◌++◌, length,
  drop, All, arith, length-append, length-drop, length-take, append_assoc,
}
use talent_challenge.Prelude.Outcome.{
  Outcome, returns, panics, diverges, ◌>>=◌, returns-injective, >>=-eq-returns, >>=-ne-diverges,
}
use talent_challenge.Prelude.Bytes.{
  Bytes, le_bytes, length-le_bytes, read_le, slice, slice_from, read_le-append, slice-append,
  slice_from-append, drop-append_of_eq,
}
use talent_challenge.Storage.Pair.{
  Pair, encode_pair, encode, decode_pair, decode_one, decode_loop, decode,
}

-- The size of the encoding fits in the uint32 that holds it.
abbrev pub Fits : Pair → Type 0
Fits p = length p.key + length p.val + 8 < 2 ^ 32

-- A record with a four-byte head, the key's length, the key and the value.
decode_pair_parts :
    (head : Bytes) (n : ℕ) (k v : Bytes)
    → length head ≡ 4
    → n ≡ length k
    → 8 + n < 2 ^ 32
    → decode_pair (head ++ (le_bytes 4 n ++ (k ++ v))) ≡ returns (record { key = k; val = v })
unfolding decode_pair
decode_pair_parts head n k v hh hn fits =
    let front = head ++ le_bytes 4 n in
    let front_len : length front ≡ 8 =
      omega (arith, length-append head (le_bytes 4 n), length-le_bytes 4 n) in
    let end_is : (8 + n) % 2 ^ 32 ≡ 8 + n = omega arith in
    let key_is : slice 8 (8 + n) (head ++ (le_bytes 4 n ++ (k ++ v))) ≡ returns k =
      rw (← append_assoc head (le_bytes 4 n) (k ++ v))
        (slice-append 8 (8 + n) front k v (omega arith) (omega arith)) in
    let val_is : slice_from (8 + n) (head ++ (le_bytes 4 n ++ (k ++ v))) ≡ returns v =
      rw (← append_assoc head (le_bytes 4 n) (k ++ v), ← append_assoc front k v)
        (slice_from-append (8 + n) (front ++ k) v (omega (arith, length-append front k))) in
    rw (slice_from-append 4 head (le_bytes 4 n ++ (k ++ v)) (sym hh))
      (rw (read_le-append 4 n (k ++ v) (omega arith)) (rw end_is (rw key_is (rw val_is))))

pub length-encode_pair : (p : Pair) → length (encode_pair p) ≡ length p.key + length p.val + 8
unfolding encode_pair le_bytes
length-encode_pair p = omega (arith, length-append p.key p.val)

decode_pair-encode_pair : (p : Pair) → Fits p → decode_pair (encode_pair p) ≡ returns p
unfolding encode_pair
decode_pair-encode_pair p h =
    decode_pair_parts (le_bytes 4 ((length p.key + length p.val + 8) % 2 ^ 32))
      (length p.key % 2 ^ 32) p.key p.val (length-le_bytes 4 _) (omega arith) (omega arith)

-- The size that is written in front of a pair, at any length: it wraps.
read_size :
    (p : Pair) (rest : Bytes)
    → read_le 4 (encode_pair p ++ rest) ≡ returns ((length p.key + length p.val + 8) % 2 ^ 32)
unfolding encode_pair
read_size p rest =
    let size = (length p.key + length p.val + 8) % 2 ^ 32 in
    rw append_assoc (read_le-append 4 size _ (omega arith))

decode_one-encode_pair :
    (p : Pair) (rest : Bytes)
    → Fits p
    → decode_one (encode_pair p ++ rest) ≡ returns (p, length (encode_pair p))
unfolding decode_one
decode_one-encode_pair p rest h =
    let size : (length p.key + length p.val + 8) % 2 ^ 32 ≡ length (encode_pair p) =
      omega (arith, length-encode_pair p) in
    rw (read_size p rest) (
      rw
        (
          size,
          slice-append 0 (length (encode_pair p)) [] (encode_pair p) rest (omega arith)
              (omega arith),
        )
        (rw (decode_pair-encode_pair p h)))

-- A round of the loop on bytes that are not used up.
decode_loop_round :
    (fuel : ℕ) (xs : Bytes)
    → 0 < length xs
    → decode_loop (suc fuel) xs
      ≡ (do (p, i) ← decode_one xs; ps ← decode_loop fuel (drop i xs); returns (p ∷ ps))
unfolding decode_loop
decode_loop_round fuel [] h = absurd (omega arith)
decode_loop_round fuel (b ∷ bs) h = refl

decode_loop-encode :
    (fuel : ℕ) (ps : List Pair)
    → All Fits ps
    → length (encode ps) ≤ fuel
    → decode_loop fuel (encode ps) ≡ returns ps
unfolding encode
decode_loop-encode fuel [] fits enough = unfold decode_loop in refl
decode_loop-encode zero (p ∷ ps) fits enough =
    absurd (omega (arith, length-append (encode_pair p) (encode ps), length-encode_pair p))
decode_loop-encode (suc fuel) (p ∷ ps) fits enough =
    let len = length-append (encode_pair p) (encode ps) in
    let big = length-encode_pair p in
    rw (decode_loop_round fuel (encode_pair p ++ encode ps) (omega arith)) (
      rw (decode_one-encode_pair p (encode ps) fits.0) (
        rw (drop-append_of_eq (length (encode_pair p)) (encode_pair p) (encode ps) refl)
          (rw (decode_loop-encode fuel ps fits.1 (omega arith)))))

-- `Decode` gives back the pairs that `Encode` was given, where the size of each fits in 32 bits.
pub decode-encode : (ps : List Pair) → All Fits ps → decode (encode ps) ≡ returns ps
unfolding decode
decode-encode ps fits = decode_loop-encode (length (encode ps)) ps fits (omega arith)

decode_pair-returns : (enc : Bytes) (p : Pair) → decode_pair enc ≡ returns p → 8 ≤ length enc
unfolding decode_pair read_le slice_from slice
decode_pair-returns enc p h = ground (arith, length-drop 4 enc)

length-slice : (lo hi : ℕ) (xs ys : Bytes) → slice lo hi xs ≡ returns ys → length ys ≡ hi - lo
unfolding slice
length-slice lo hi xs ys h = ground (arith, length-take (hi - lo) (drop lo xs), length-drop lo xs)

decode_one-returns : (xs : Bytes) (p : Pair) (i : ℕ) → decode_one xs ≡ returns (p, i) → 8 ≤ i
unfolding decode_one
decode_one-returns xs p i h =
    let (n, read, h') = >>=-eq-returns (read_le 4 xs) _ h in
    let (enc, cut, h'') = >>=-eq-returns (slice 0 n xs) _ h' in
    let (q, got, same) = >>=-eq-returns (decode_pair enc) _ h'' in
    ground (arith, decode_pair-returns enc q, length-slice 0 n xs enc, same)

decode_pair-ne-diverges : (enc : Bytes) → decode_pair enc ≢ diverges
unfolding decode_pair read_le slice_from slice
decode_pair-ne-diverges enc h = ground arith

read_le-ne-diverges : (w : ℕ) (xs : Bytes) → read_le w xs ≢ diverges
unfolding read_le
read_le-ne-diverges w xs h = ground arith

slice-ne-diverges : (lo hi : ℕ) (xs : Bytes) → slice lo hi xs ≢ diverges
unfolding slice
slice-ne-diverges lo hi xs h = ground arith

decode_one-ne-diverges : (xs : Bytes) → decode_one xs ≢ diverges
unfolding decode_one
decode_one-ne-diverges xs = >>=-ne-diverges (read_le 4 xs) _ (read_le-ne-diverges 4 xs) (λ i _.
    >>=-ne-diverges (slice 0 i xs) _ (slice-ne-diverges 0 i xs)
      (λ enc _. >>=-ne-diverges (decode_pair enc) _ (decode_pair-ne-diverges enc) (λ p _ e. cc)))

decode_loop-ne-diverges :
    (fuel : ℕ) (xs : Bytes) → length xs ≤ fuel → decode_loop fuel xs ≢ diverges
decode_loop-ne-diverges fuel [] h = unfold decode_loop in (λ e. cc)
decode_loop-ne-diverges zero (b ∷ bs) h = absurd (omega arith)
decode_loop-ne-diverges (suc fuel) (b ∷ bs) h = rw (decode_loop_round fuel (b ∷ bs) (omega arith)) (
    >>=-ne-diverges (decode_one (b ∷ bs)) _ (decode_one-ne-diverges (b ∷ bs)) (λ r e.
      let big : 8 ≤ r.1 = decode_one-returns (b ∷ bs) r.0 r.1 e in
      let (q, i) = r in
      >>=-ne-diverges (decode_loop fuel (drop i (b ∷ bs))) _
        (decode_loop-ne-diverges fuel (drop i (b ∷ bs)) (omega (arith, length-drop i (b ∷ bs))))
        (λ ps _ e'. cc)))

-- `Decode` ends on all bytes: each round reads eight of them at least, or panics.
pub decode-ne-diverges : (encs : Bytes) → decode encs ≢ diverges
unfolding decode
decode-ne-diverges encs = decode_loop-ne-diverges (length encs) encs (omega arith)

decode_one-read_le :
    (xs : Bytes) (p : Pair) (i : ℕ) → decode_one xs ≡ returns (p, i) → read_le 4 xs ≡ returns i
unfolding decode_one
decode_one-read_le xs p i h =
    let (n, read, h') = >>=-eq-returns (read_le 4 xs) _ h in
    let (enc, cut, h'') = >>=-eq-returns (slice 0 n xs) _ h' in
    let (q, got, same) = >>=-eq-returns (decode_pair enc) _ h'' in ground (arith, read, same)

decode_one_wrapped :
    (p : Pair) (rest : Bytes)
    → (length p.key + length p.val + 8) % 2 ^ 32 < 8
    → decode_one (encode_pair p ++ rest) ≡ panics
decode_one_wrapped p rest h = by_cases (decode_one (encode_pair p ++ rest)) refl
  where
    by_cases :
        (o : Outcome (Pair × ℕ))
        → decode_one (encode_pair p ++ rest) ≡ o
        → decode_one (encode_pair p ++ rest) ≡ panics
    by_cases (returns (q, i)) e = absurd (
        omega (
          arith,
          decode_one-returns (encode_pair p ++ rest) q i e,
          returns-injective
              (sym (decode_one-read_le (encode_pair p ++ rest) q i e) ∙ read_size p rest),
        ))
    by_cases panics e = e
    by_cases diverges e = absurd (decode_one-ne-diverges (encode_pair p ++ rest) e)

-- A first pair whose size wraps to less than its header of eight bytes makes `Decode` panic,
-- whatever pairs follow.
pub decode-encode_wrapped :
    (p : Pair) (ps : List Pair)
    → (length p.key + length p.val + 8) % 2 ^ 32 < 8
    → decode (encode (p ∷ ps)) ≡ panics
unfolding decode encode
decode-encode_wrapped p ps h =
    let xs = encode_pair p ++ encode ps in
    let pos : 0 < length xs =
      omega (arith, length-append (encode_pair p) (encode ps), length-encode_pair p) in
    let one : length xs ≡ suc (length xs - 1) = omega arith in
    rw one (rw (decode_loop_round (length xs - 1) xs pos) (rw (decode_one_wrapped p (encode ps) h)))
