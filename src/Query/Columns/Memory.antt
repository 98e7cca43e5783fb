-- ===== src/Query/Columns/Memory.antt =====
-- vm/values/static: `Show` and `Read`, which take the memory of a slice of 64-bit values for bytes
-- and back, on a machine that stores the lowest byte first. The bits of a float64 are a parameter.
-- No copy is made; the values here are not changed in place.
use talent_challenge.Prelude.{
  ℕ, zero, suc, ◌*◌, ◌^◌, ◌<◌, ◌≡◌, refl, sym, ap, Option, none, some, List, [], ◌∷◌, ◌++◌, All,
  length, take, drop, map, leb, arith, if◌then◌else◌, length-append, le→leb,
}
use talent_challenge.Prelude.Bytes.{
  Bytes, le_bytes, le_value, length-le_bytes, le_value-le_bytes, take-append_of_eq,
  drop-append_of_eq,
}
use talent_challenge.Query.Columns.{Values, ints, floats}

-- `math.Float64bits` and its inverse
pub record Float64Bits (F : Type 0) : Type 0 where
  pub bits : F → ℕ
  pub of_bits : ℕ → F

unfoldable pub new_ints : {F : Type 0} → List ℕ → Values F
new_ints vs = ints vs

unfoldable pub new_floats : {F : Type 0} → List F → Values F
new_floats vs = floats vs

unfoldable pub words_bytes : List ℕ → Bytes
words_bytes [] = []
words_bytes (x ∷ xs) = le_bytes 8 x ++ words_bytes xs

unfoldable pub bytes_words : ℕ → Bytes → List ℕ
bytes_words zero bs = []
bytes_words (suc n) bs = le_value (take 8 bs) ∷ bytes_words n (drop 8 bs)

module _ {F : Type 0} (f : Float64Bits F) where
  unfoldable pub show : Values F → Bytes
  unfolding words_bytes
  show (ints xs) = words_bytes xs
  show (floats xs) = words_bytes (map f.bits xs)

  -- `Read` of `cnt` values; none where they reach past the bytes, into memory that is not theirs.
  unfoldable pub read_ints : ℕ → Bytes → Option (Values F)
  unfolding bytes_words
  read_ints cnt bs = if leb (8 * cnt) (length bs) then some (ints (bytes_words cnt bs)) else none

  unfoldable pub read_floats : ℕ → Bytes → Option (Values F)
  unfolding bytes_words
  read_floats cnt bs =
      if leb (8 * cnt) (length bs) then some (floats (map f.of_bits (bytes_words cnt bs))) else none

  length-words_bytes : (xs : List ℕ) → length (words_bytes xs) ≡ 8 * length xs
  unfolding words_bytes
  length-words_bytes [] = refl
  length-words_bytes (x ∷ xs) = omega (
    arith,
    length-append (le_bytes 8 x) (words_bytes xs),
    length-le_bytes 8 x,
    length-words_bytes xs,
  )

  bytes_words-words_bytes :
      (xs : List ℕ) → All (λ x. x < 256 ^ 8) xs → bytes_words (length xs) (words_bytes xs) ≡ xs
  unfolding bytes_words words_bytes
  bytes_words-words_bytes [] h = refl
  bytes_words-words_bytes (x ∷ xs) h =
      rw (take-append_of_eq 8 (le_bytes 8 x) (words_bytes xs) (sym (length-le_bytes 8 x))) (
        rw (drop-append_of_eq 8 (le_bytes 8 x) (words_bytes xs) (sym (length-le_bytes 8 x)))
          (cc (le_value-le_bytes 8 x h.0, bytes_words-words_bytes xs h.1)))

  -- Integers of 64 bits come back from their bytes.
  read_ints-show :
      (xs : List ℕ)
      → All (λ x. x < 256 ^ 8) xs
      → read_ints (length xs) (show (ints xs)) ≡ some (ints xs)
  unfolding read_ints show
  read_ints-show xs h =
      rw (le→leb (8 * length xs) (length (words_bytes xs)) (omega (arith, length-words_bytes xs)))
        (ap (λ ys. some (ints ys)) (bytes_words-words_bytes xs h))
