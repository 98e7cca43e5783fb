-- ===== src/Query/Projection.antt =====
-- vm/op and vm/op/origin/projection: the operators, a relation or a projection over an operator.
pub mod Reads
pub mod Lists
pub mod Repeated
use talent_challenge.Prelude.{
  ℕ, zero, Bool, true, false, Option, none, some, List, [], ◌∷◌, ◌++◌, length, ◌==◌, ◌&&◌, map,
  if◌then◌else◌,
}
use talent_challenge.Prelude.Bytes.{bytes_eq}
use talent_challenge.Query.Reply.{
  Name, Failure, Reply, returned, failed, panicked, must_act_on_attributes, failed_to_find, ◌>>=◌,
  ◌>>◌, unless_failed,
}
use talent_challenge.Query.Util.{has_name, contain, unseen, merge_attributes}
use talent_challenge.Query.Value.{Value, Float64, Columns}
use talent_challenge.Query.Extend.{
  Extend, attribute, constant, binary, column, attributes, return_type, eval,
}
use talent_challenge.Query.Relation.{Relation, Field, read_block, block_attributes}

-- `Extend` of the projection: an expression and the name that it is read under
pub record Projected (F : Type 0) : Type 0 where
  pub alias : Name
  pub e : Extend F

-- `is_check` is set by the first read that passes the checks.
pub data Op (F : Type 0) : Type 0 where
  relation : (seg : ℕ) (r : Option (Relation F)) → Op F
  projection : (is_check : Bool) (prev : Op F) (es : List (Projected F)) → Op F

-- `mp[name]`, nil for a name that is not there
abbrev pub values_of : {F : Type 0} → Option (List (Value F)) → List (Value F)
values_of none = []
values_of (some vs) = vs

abbrev pub name_of : Field → Name
name_of field = field.name

-- The last loop of `check`
unfoldable pub find_all : (attrs known : List Name) → Option Failure
find_all [] known = none
find_all (attr ∷ attrs) known =
    if has_name attr known then find_all attrs known else some (failed_to_find attr)

module _ {F : Type 0} where
  -- `New`
  abbrev pub new_projection : Op F → List (Projected F) → Op F
  new_projection prev es = projection false prev es

  -- An attribute without an alias goes by its name.
  unfoldable pub alias_or_name : Extend F → Name → Name
  alias_or_name (attribute typ name) alias = if length alias == 0 then name else alias
  alias_or_name (constant v) alias = alias
  alias_or_name (binary op left right) alias = alias

  abbrev pub output_name : Projected F → Name
  output_name x = alias_or_name x.e x.alias

  unfoldable pub alias_list : List (Projected F) → List Name
  alias_list [] = []
  alias_list (x ∷ es) = output_name x ∷ alias_list es

  -- The loop of `attributeList`, with the names seen so far
  unfoldable pub attributes_seen : List Name → List (Projected F) → List Name
  attributes_seen seen [] = []
  attributes_seen seen (x ∷ es) =
      let new = unseen seen (attributes x.e) in new ++ attributes_seen (seen ++ new) es

  unfoldable pub attribute_list : List (Projected F) → List Name
  attribute_list es = attributes_seen [] es

  unfoldable pub sub_extend : List (Projected F) → List Name → List (Projected F)
  sub_extend [] attrs = []
  sub_extend (x ∷ es) attrs =
      let rest = sub_extend es attrs in if has_name (output_name x) attrs then x ∷ rest else rest

  -- `Attributes` of an operator
  unfoldable pub op_attributes : Op F → Reply (List Field)
  op_attributes (relation seg r) = block_attributes r
  op_attributes (projection is_check prev es) =
      returned (map (λ x. record { typ = return_type x.e; name = output_name x }) es)

  -- The first loop of `check`
  unfoldable pub act_on_attributes : List (Projected F) → Option Failure
  act_on_attributes [] = none
  act_on_attributes (x ∷ es) =
      if length (attributes x.e) == 0 then some must_act_on_attributes else act_on_attributes es

  unfoldable pub check : List (Projected F) → Op F → List Name → Reply (Unit {0})
  check es prev attrs = do
    unless_failed (act_on_attributes es)
    as' ← op_attributes prev
    unless_failed (find_all attrs (map name_of as'))

  -- The checks of a first read
  unfoldable pub checks :
      Bool → List (Projected F) → Op F → (attrs as' : List Name) → Reply (Unit {0})
  checks true es prev attrs as' = returned tt
  checks false es prev attrs as' = do
    check es prev as'
    unless_failed (contain attrs (alias_list es))

  -- `rq[name] = append(rq[name], vs...)`
  unfoldable pub append_column : Name → List (Value F) → Columns F → Columns F
  append_column name vs [] = (name, vs) ∷ []
  append_column name vs ((n, ws) ∷ rq) =
      if bytes_eq name n then (n, ws ++ vs) ∷ rq else (n, ws) ∷ append_column name vs rq

module _ {F : Type 0} (f : Float64 F) where
  -- The last loop of `Read`
  unfoldable pub eval_all : List (Projected F) → Columns F → Columns F → Reply (Columns F)
  eval_all [] mp rq = returned rq
  eval_all (x ∷ es) mp rq = do
    r ← eval f x.e mp
    eval_all es mp (append_column (output_name x) r.0 rq)

  -- `Read` behind the read of the operator below: `attrs[0]` panics where nothing is asked for.
  unfoldable pub project :
      List (Projected F) → List Name → Option (Columns F) → Reply (Option (Columns F))
  project es attrs none = returned none
  project es [] (some mp) = panicked
  project es (attr ∷ attrs) (some mp) =
      let evaluated = (do rq ← eval_all es mp []; returned (some rq)) in
      if length (values_of (column attr mp)) == 0 then returned none else evaluated

  -- `Read` of an operator, and the operator afterwards; `attrs` is what `MergeAttributes` made of
  -- the names that are asked for.
  unfoldable pub read : Op F → List Name → Reply (Option (Columns F)) × Op F
  read (relation seg r) asked = let (reply, r') = read_block seg asked r in (reply, relation seg r')
  read (projection is_check prev es) asked =
      let attrs = merge_attributes asked [] in
      let es' = sub_extend es attrs in
      let as' = attribute_list es' in
      let below = read prev as' in
      elim (checks is_check es prev attrs as') [
        | panicked ↦ (panicked, projection is_check prev es)
        | failed e ↦ (failed e, projection is_check prev es)
        | returned t ↦ ((do mp ← below.0; project es' attrs mp), projection true below.1 es)
      ]
