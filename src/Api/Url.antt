-- ===== src/Api/Url.antt =====
-- net/url, of the Go 1.15 that go.mod names: what a handler's `c.Query` finds in a URL's query.

pub mod Plain
use talent_challenge.Prelude.{
  ℕ, ◌+◌, ◌-◌, ◌*◌, Bool, true, false, Option, none, some, List, [], ◌∷◌, ◌++◌, leb, ◌==◌, ◌&&◌,
  ◌||◌, if◌then◌else◌,
}
use talent_challenge.Prelude.Bytes.{Bytes, bytes_eq}

abbrev pub ampersand : ℕ
ampersand = 38

abbrev pub equals : ℕ
equals = 61

-- What is before the first separator that the test finds, and what is after it
unfoldable pub cut : (ℕ → Bool) → Bytes → Bytes × Option Bytes
cut stop [] = ([], none)
cut stop (x ∷ xs) = let rest = cut stop xs in if stop x then ([], some xs) else (x ∷ rest.0, rest.1)

abbrev pub is_separator : ℕ → Bool
is_separator x = (x == ampersand) || (x == 59)

-- The pairs of a query: the texts between separators
unfoldable pub split : (ℕ → Bool) → Bytes → Bytes × List Bytes
split stop [] = ([], [])
split stop (x ∷ xs) =
    let rest = split stop xs in if stop x then ([], rest.0 ∷ rest.1) else (x ∷ rest.0, rest.1)

unfoldable pub hex_value : ℕ → Option ℕ
hex_value c =
    if leb 48 c && leb c 57
    then some (c - 48)
    else if leb 97 c && leb c 102
    then some (c - 87)
    else if leb 65 c && leb c 70
    then some (c - 55)
    else none

-- Where `QueryUnescape` stands: between escapes, behind a percent sign, or behind its first digit
pub data Mode : Type 0 where
  plain percent : Mode
  hex : ℕ → Mode

unfoldable pub unescape_byte : Mode → ℕ → Option (Bytes × Mode)
unescape_byte Mode.plain x =
    if x == 37 then some ([], Mode.percent) else some ((if x == 43 then 32 else x) ∷ [], Mode.plain)
unescape_byte Mode.percent x = elim (hex_value x) [ none ↦ none | some h ↦ some ([], Mode.hex h) ]
unescape_byte (Mode.hex h) x = elim (hex_value x) [
  | none ↦ none
  | some l ↦ some ((16 * h + l) ∷ [], Mode.plain)
]

unfoldable pub unescape_from : Mode → Bytes → Option Bytes
unfolding unescape_byte
unescape_from Mode.plain [] = some []
unescape_from Mode.percent [] = none
unescape_from (Mode.hex h) [] = none
unescape_from mode (x ∷ xs) = elim (unescape_byte mode x) [
  | none ↦ none
  | some (out, next) ↦ elim (unescape_from next xs) [ none ↦ none | some rest ↦ some (out ++ rest) ]
]

-- `QueryUnescape`; none is its error.
unfoldable pub query_unescape : Bytes → Option Bytes
unfolding unescape_from
query_unescape xs = unescape_from Mode.plain xs

abbrev pub after_equals : Option Bytes → Bytes
after_equals none = []
after_equals (some value) = value

-- The value of a pair, if it is a pair for the name. An empty pair and one with a bad escape are
-- passed over.
unfoldable pub pair_value : (name pair : Bytes) → Option Bytes
unfolding cut query_unescape
pair_value name [] = none
pair_value name (x ∷ xs) =
    let parts = cut (λ c. c == equals) (x ∷ xs) in
    elim (query_unescape parts.0) [
      | none ↦ none
      | some key ↦ elim (query_unescape (after_equals parts.1)) [
        | none ↦ none
        | some value ↦ if bytes_eq key name then some value else none
      ]
    ]

abbrev pub first_value : (name : Bytes) → List Bytes → Bytes
first_value name [] = []
first_value name (pair ∷ pairs) =
    let rest = first_value name pairs in
    elim (pair_value name pair) [ none ↦ rest | some value ↦ value ]

-- `c.Query(name)`: the first value of the name, and the empty text where it has none
unfoldable pub query : (name raw : Bytes) → Bytes
unfolding split pair_value
query name raw = let parts = split is_separator raw in first_value name (parts.0 ∷ parts.1)
