-- ===== src/Query/Extend.antt =====
-- vm/extend: the expressions over a table. The constants of vm/value are expressions too.
pub mod Typed
pub mod Sound
use talent_challenge.Prelude.{ℕ, Bool, Option, none, some, List, [], ◌∷◌, ◌==◌, ◌||◌, if◌then◌else◌}
use talent_challenge.Prelude.Bytes.{bytes_eq}
use talent_challenge.Query.Reply.{Name, Reply, returned, failed, attribute_not_exist, ◌>>=◌}
use talent_challenge.Query.Util.{merge_attributes}
use talent_challenge.Query.Types.{t_int, t_float}
use talent_challenge.Query.Value.{
  Value, Float64, Columns, return_type as type_of_constant, eval as eval_constant,
}
use talent_challenge.Query.Overload.{plus, minus, binary_eval}

-- What satisfies the interface `Extend`; `ParenExtend` has no `ReturnType` and does not.
pub data Extend (F : Type 0) : Type 0 where
  attribute : (typ : ℕ) (name : Name) → Extend F
  constant : Value F → Extend F
  binary : (op : ℕ) (left right : Extend F) → Extend F

-- `returnType`
unfoldable pub joined_type : ℕ → ℕ → ℕ
joined_type x y = if x == y then x else if (x == t_int) || (x == t_float) then y else x

-- `mp[name]`
unfoldable pub column : {F : Type 0} → Name → Columns F → Option (List (Value F))
column name [] = none
column name ((n, vs) ∷ mp) = if bytes_eq name n then some vs else column name mp

module _ {F : Type 0} where
  unfoldable pub attributes : Extend F → List Name
  attributes (attribute typ name) = name ∷ []
  attributes (constant v) = []
  attributes (binary op left right) = merge_attributes (attributes left) (attributes right)

  unfoldable pub return_type : Extend F → ℕ
  return_type (attribute typ name) = typ
  return_type (constant v) = type_of_constant v
  return_type (binary op left right) =
      let t = joined_type (return_type left) (return_type right) in
      if op == plus then t else if op == minus then t else 0

module _ {F : Type 0} (f : Float64 F) where
  unfoldable pub eval : Extend F → Columns F → Reply (List (Value F) × ℕ)
  eval (attribute typ name) mp = elim (column name mp) [
    | some vs ↦ returned (vs, typ)
    | none ↦ failed (attribute_not_exist name)
  ]
  eval (constant v) mp = eval_constant v mp
  eval (binary op left right) mp = do
    l ← eval left mp
    r ← eval right mp
    binary_eval f op l.1 r.1 l.0 r.0
