-- ===== src/Query/Columns.antt =====
-- vm/values/static and storage/attribute: the values of an attribute, in segments.
pub mod Memory
use talent_challenge.Prelude.{
  ℕ, ◌*◌, Option, none, some, List, [], ◌∷◌, ◌++◌, ◌==◌, if◌then◌else◌, length, map, get_elem?,
}
use talent_challenge.Query.Reply.{Reply, returned, panicked, ◌>>=◌}
use talent_challenge.Query.Types.{t_int, t_float}
use talent_challenge.Query.Value.{Value}

-- `Ints` and `Floats`
pub data Values (F : Type 0) : Type 0 where
  ints : List ℕ → Values F
  floats : List F → Values F

-- What `Append` is given as an `interface{}`: a slice of one of two types, or anything else.
pub data Tuples (F : Type 0) : Type 0 where
  int64s : List ℕ → Tuples F
  float64s : List F → Tuples F
  other : Tuples F

-- An `attribute` of storage/attribute
pub record Attribute (F : Type 0) : Type 0 where
  pub typ : ℕ
  pub vs : List (Values F)

module _ {F : Type 0} where
  unfoldable pub count : Values F → ℕ
  count (ints xs) = length xs
  count (floats xs) = length xs

  unfoldable pub size : Values F → ℕ
  size (ints xs) = length xs * 8
  size (floats xs) = length xs * 8

  -- The type assertion panics on a slice of another type.
  unfoldable pub append_values : Values F → Tuples F → Reply (Values F)
  append_values (ints xs) (int64s ys) = returned (ints (xs ++ ys))
  append_values (ints xs) (float64s ys) = panicked
  append_values (ints xs) other = panicked
  append_values (floats xs) (int64s ys) = panicked
  append_values (floats xs) (float64s ys) = returned (floats (xs ++ ys))
  append_values (floats xs) other = panicked

  unfoldable pub value_list : Values F → List (Value F)
  value_list (ints xs) = map Value.int xs
  value_list (floats xs) = map Value.float xs

  -- `newValues`: nil for all other types
  unfoldable pub new_values : ℕ → Option (Values F)
  new_values typ =
      if typ == t_int then some (ints []) else if typ == t_float then some (floats []) else none

  -- `New` of storage/attribute
  unfoldable pub new_attribute : ℕ → Attribute F
  new_attribute typ = record { typ = typ; vs = [] }

  -- `Append`: a call on nil panics.
  unfoldable pub append_segment : Attribute F → Tuples F → Reply (Attribute F)
  append_segment a v = elim (new_values a.typ) [
    | none ↦ panicked
    | some empty ↦ (do vs ← append_values empty v; returned (record a { vs = a.vs ++ vs ∷ [] }))
  ]

  unfoldable pub read_segment : ℕ → Attribute F → Reply (List (Value F))
  read_segment seg a = elim (get_elem? a.vs seg) [
    | none ↦ panicked
    | some vs ↦ returned (value_list vs)
  ]
