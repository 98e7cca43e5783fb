-- ===== src/Query/Value.antt =====
-- vm/value: the two kinds of values, and their order. An int64 is its 64 bits as a number, a
-- float64 an element of a type with Go's operations, which is a parameter.
pub mod Order
use talent_challenge.Prelude.{
  ℕ, ◌+◌, ◌-◌, ◌%◌, ◌^◌, Bool, true, false, ltb, ◌==◌, ◌&&◌, ◌||◌, if◌then◌else◌, List, [], ◌∷◌,
  length, replicate,
}
use talent_challenge.Query.Reply.{Name, Reply, returned, panicked}
use talent_challenge.Query.Types.{T, t_int, t_float}

-- The operations of float64; `x > y` is `y < x`.
pub record Float64 (F : Type 0) : Type 0 where
  pub plus : F → F → F
  pub minus : F → F → F
  pub of_int64 : ℕ → F
  pub less : F → F → Bool
  pub equal : F → F → Bool
  pub is_nan : F → Bool

pub data Value (F : Type 0) : Type 0 where
  int : ℕ → Value F
  float : F → Value F

-- `-1`, `0` and `1`
pub data Compared : Type 0 where
  before same after : Compared

-- `<` on int64: the sign bit turned over makes it the order of the bits.
unfoldable pub int64_less : ℕ → ℕ → Bool
int64_less x y = ltb ((x + 2 ^ 63) % 2 ^ 64) ((y + 2 ^ 63) % 2 ^ 64)

unfoldable pub int64_plus : ℕ → ℕ → ℕ
int64_plus x y = (x + y) % 2 ^ 64

unfoldable pub int64_minus : ℕ → ℕ → ℕ
int64_minus x y = (x + 2 ^ 64 - y) % 2 ^ 64

abbrev pub is_int : ℕ → Bool
is_int typ = typ == t_int

abbrev pub is_float : ℕ → Bool
is_float typ = typ == t_float

-- The `switch` takes the first case that holds; all of them return true.
unfoldable pub is_num : ℕ → ℕ → Bool
is_num x y =
    if (x == t_int) && is_int y
    then true
    else if (y == t_int) && is_int x
    then true
    else if (x == t_float) && is_float y
    then true
    else if (y == t_float) && is_float x
    then true
    else false

-- The values of a table by name. The list is in the order in which Go ranges over the map.
abbrev pub Columns : Type 0 → Type 0
Columns F = List (Name × List (Value F))

module _ {F : Type 0} where
  abbrev pub resolved_type : Value F → T
  resolved_type (int x) = record { oid = t_int }
  resolved_type (float x) = record { oid = t_float }

  abbrev pub return_type : Value F → ℕ
  return_type (int x) = t_int
  return_type (float x) = t_float

  abbrev pub attributes : Value F → List Name
  attributes v = []

  unfoldable pub must_be_int : Value F → Reply ℕ
  must_be_int (int x) = returned x
  must_be_int (float x) = panicked

  unfoldable pub must_be_float : Value F → Reply F
  must_be_float (int x) = panicked
  must_be_float (float x) = returned x

  -- `length`: of the first column that the range gives
  unfoldable pub length_of : Columns F → ℕ
  length_of [] = 0
  length_of (column ∷ columns) = length column.1

  -- `Eval` of a constant: a column of it
  unfoldable pub eval : Value F → Columns F → Reply (List (Value F) × ℕ)
  eval v mp = returned (replicate (length_of mp) v, return_type v)

module _ {F : Type 0} (f : Float64 F) where
  -- `Compare` of an Int and of a Float. NaN sorts before non-NaN.
  unfoldable pub compare_value : Value F → Value F → Reply Compared
  compare_value (int x) (int y) =
      returned (if int64_less x y then before else if int64_less y x then after else same)
  compare_value (int x) (float y) = panicked
  compare_value (float x) (int y) = panicked
  compare_value (float x) (float y) = returned (
      if f.less x y
      then before
      else if f.less y x
      then after
      else if f.equal x y
      then same
      else if f.is_nan x
      then (if f.is_nan y then same else before)
      else after)

  unfoldable pub compare : Value F → Value F → Reply Compared
  compare a b =
      let x = (resolved_type a).oid in
      let y = (resolved_type b).oid in
      if (x == y) || is_num x y then compare_value a b else panicked
