-- ===== src/Api/Base64.antt =====
-- encoding/base64, `StdEncoding`: how encoding/json writes a []byte, and what the client decodes.
use talent_challenge.Prelude.{
  ℕ, ◌+◌, ◌-◌, ◌*◌, ◌/◌, ◌%◌, ◌<◌, ◌≡◌, refl, Bool, true, false, Option, none, some, [], ◌∷◌, All,
  arith, ltb, leb, ◌==◌, ◌&&◌, ◌||◌, if◌then◌else◌,
}
use talent_challenge.Prelude.Bytes.{Bytes}
use talent_challenge.Prelude.Options.{◌>>=◌}

unfoldable pub digit : ℕ → ℕ
digit n =
    if ltb n 26
    then 65 + n
    else if ltb n 52
    then 71 + n
    else if ltb n 62
    then n - 4
    else if n == 62
    then 43
    else 47

unfoldable pub digit_value : ℕ → Option ℕ
digit_value c =
    if leb 65 c && leb c 90
    then some (c - 65)
    else if leb 97 c && leb c 122
    then some (c - 71)
    else if leb 48 c && leb c 57
    then some (c + 4)
    else if c == 43
    then some 62
    else if c == 47
    then some 63
    else none

abbrev padding : ℕ
padding = 61

unfoldable pub encode : Bytes → Bytes
encode [] = []
encode (a ∷ []) = digit (a / 4) ∷ digit (a % 4 * 16) ∷ padding ∷ padding ∷ []
encode (a ∷ b ∷ []) =
    digit (a / 4) ∷ digit (a % 4 * 16 + b / 16) ∷ digit (b % 16 * 4) ∷ padding ∷ []
encode (a ∷ b ∷ c ∷ xs) =
    digit (a / 4)
    ∷ digit (a % 4 * 16 + b / 16)
    ∷ digit (b % 16 * 4 + c / 64)
    ∷ digit (c % 64)
    ∷ encode xs

-- Line ends are skipped.
unfoldable pub skip_lines : Bytes → Bytes
skip_lines [] = []
skip_lines (c ∷ cs) = let rest = skip_lines cs in if (c == 10) || (c == 13) then rest else c ∷ rest

abbrev is_empty : Bytes → Bool
is_empty [] = true
is_empty (c ∷ cs) = false

unfoldable pub decode_one : (w x : ℕ) → Option Bytes
decode_one w x = do p ← digit_value w; q ← digit_value x; some ((p * 4 + q / 16) ∷ [])

unfoldable pub decode_two : (w x y : ℕ) → Option Bytes
decode_two w x y = do
  p ← digit_value w
  q ← digit_value x
  r ← digit_value y
  some ((p * 4 + q / 16) ∷ (q % 16 * 16 + r / 4) ∷ [])

unfoldable pub decode_three : (w x y z : ℕ) → Option Bytes → Option Bytes
decode_three w x y z rest = do
  p ← digit_value w
  q ← digit_value x
  r ← digit_value y
  s ← digit_value z
  xs ← rest
  some ((p * 4 + q / 16) ∷ (q % 16 * 16 + r / 4) ∷ (r % 4 * 64 + s) ∷ xs)

-- Groups of four; padding closes the last one.
unfoldable pub decode_groups : Bytes → Option Bytes
unfolding decode_one decode_two decode_three
decode_groups [] = some []
decode_groups (w ∷ []) = none
decode_groups (w ∷ x ∷ []) = none
decode_groups (w ∷ x ∷ y ∷ []) = none
decode_groups (w ∷ x ∷ y ∷ z ∷ cs) =
    let rest = decode_groups cs in
    if (y == padding) && (z == padding) && is_empty cs
    then decode_one w x
    else if (z == padding) && is_empty cs
    then decode_two w x y
    else decode_three w x y z rest

unfoldable pub decode_string : Bytes → Option Bytes
unfolding decode_groups skip_lines
decode_string cs = decode_groups (skip_lines cs)

digit_value-digit : (n : ℕ) → n < 64 → digit_value (digit n) ≡ some n
unfolding digit digit_value
digit_value-digit n small = ground arith

digit-ne-padding : (n : ℕ) → (digit n == padding) ≡ false
unfolding digit
digit-ne-padding n = ground arith

digit-ne-line : (n : ℕ) → ((digit n == 10) || (digit n == 13)) ≡ false
unfolding digit
digit-ne-line n = ground arith

skip_lines-digit : (n : ℕ) (cs : Bytes) → skip_lines (digit n ∷ cs) ≡ digit n ∷ skip_lines cs
unfolding skip_lines
skip_lines-digit n cs = rw (digit-ne-line n) refl

skip_lines-encode : (xs : Bytes) → skip_lines (encode xs) ≡ encode xs
unfolding skip_lines encode
skip_lines-encode [] = refl
skip_lines-encode (a ∷ []) = rw (digit-ne-line (a / 4), digit-ne-line (a % 4 * 16)) refl
skip_lines-encode (a ∷ b ∷ []) =
    rw (digit-ne-line (a / 4), digit-ne-line (a % 4 * 16 + b / 16), digit-ne-line (b % 16 * 4)) refl
skip_lines-encode (a ∷ b ∷ c ∷ xs) =
    rw
      (
        digit-ne-line (a / 4),
        digit-ne-line (a % 4 * 16 + b / 16),
        digit-ne-line (b % 16 * 4 + c / 64),
        digit-ne-line (c % 64),
        skip_lines-encode xs,
      )
      refl

-- Three bytes from the four digits of their 24 bits
decode_three-digit :
    (a b c : ℕ) (xs : Bytes)
    → a < 256
    → b < 256
    → c < 256
    → decode_three
        (digit (a / 4))
        (digit (a % 4 * 16 + b / 16))
        (digit (b % 16 * 4 + c / 64))
        (digit (c % 64))
        (some xs)
      ≡ some (a ∷ b ∷ c ∷ xs)
unfolding decode_three
decode_three-digit a b c xs ha hb hc =
    rw
      (
        digit_value-digit (a / 4) (omega arith),
        digit_value-digit (a % 4 * 16 + b / 16) (omega arith),
        digit_value-digit (b % 16 * 4 + c / 64) (omega arith),
        digit_value-digit (c % 64) (omega arith),
      )
      (ground arith)

decode_two-digit :
    (a b : ℕ)
    → a < 256
    → b < 256
    → decode_two (digit (a / 4)) (digit (a % 4 * 16 + b / 16)) (digit (b % 16 * 4))
      ≡ some (a ∷ b ∷ [])
unfolding decode_two
decode_two-digit a b ha hb =
    rw
      (
        digit_value-digit (a / 4) (omega arith),
        digit_value-digit (a % 4 * 16 + b / 16) (omega arith),
        digit_value-digit (b % 16 * 4) (omega arith),
      )
      (ground arith)

decode_one-digit :
    (a : ℕ) → a < 256 → decode_one (digit (a / 4)) (digit (a % 4 * 16)) ≡ some (a ∷ [])
unfolding decode_one
decode_one-digit a ha =
    rw (digit_value-digit (a / 4) (omega arith), digit_value-digit (a % 4 * 16) (omega arith))
      (ground arith)

decode_groups-encode : (xs : Bytes) → All (λ x. x < 256) xs → decode_groups (encode xs) ≡ some xs
unfolding decode_groups encode
decode_groups-encode [] small = refl
decode_groups-encode (a ∷ []) small = decode_one-digit a small.0
decode_groups-encode (a ∷ b ∷ []) small =
    rw (digit-ne-padding (b % 16 * 4)) (decode_two-digit a b small.0 small.1.0)
decode_groups-encode (a ∷ b ∷ c ∷ xs) small =
    rw
      (
        digit-ne-padding (b % 16 * 4 + c / 64),
        digit-ne-padding (c % 64),
        decode_groups-encode xs small.1.1.1,
      )
      (decode_three-digit a b c xs small.0 small.1.0 small.1.1.0)

-- Every slice of bytes comes back from its base64 text.
pub decode_string-encode :
    (xs : Bytes) → All (λ x. x < 256) xs → decode_string (encode xs) ≡ some xs
unfolding decode_string
decode_string-encode xs small = rw (skip_lines-encode xs) (decode_groups-encode xs small)
