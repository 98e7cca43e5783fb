-- ===== src/Query/Relation.antt =====
-- storage/relation.go, storage/metadata and vm/op/block/relation: a table, and the operator that
-- reads one segment of it.
pub mod Segments
use talent_challenge.Prelude.{
  ℕ, ◌+◌, zero, suc, Option, none, some, List, [], ◌∷◌, map, get_elem?, if◌then◌else◌,
}
use talent_challenge.Prelude.Bytes.{bytes_eq}
use talent_challenge.Query.Reply.{Name, Reply, returned, failed, panicked, ◌>>=◌}
use talent_challenge.Query.Value.{Value, Columns}
use talent_challenge.Query.Columns.{Attribute, Tuples, new_attribute, append_segment, read_segment}

-- `metadata.Attribute`
pub record Field : Type 0 where
  pub typ : ℕ
  pub name : Name

pub record Metadata : Type 0 where
  pub num : ℕ
  pub attrs : List Field

pub record Relation (F : Type 0) : Type 0 where
  pub mp : List (Name × ℕ)
  pub md : Metadata
  pub columns : List (Attribute F)

-- `mp[attr]`: 0 for a name that is not there
unfoldable pub index_of : Name → List (Name × ℕ) → ℕ
index_of name [] = 0
index_of name ((n, i) ∷ mp) = if bytes_eq name n then i else index_of name mp

-- The loop of `New` over the attributes from `i` on: the map, the last write in front.
unfoldable pub indexed : ℕ → List Field → List (Name × ℕ) → List (Name × ℕ)
indexed i [] mp = mp
indexed i (field ∷ fields) mp = indexed (i + 1) fields ((field.name, i) ∷ mp)

module _ {F : Type 0} where
  unfoldable pub new_relation : Metadata → Relation F
  new_relation md = record {
    mp = indexed 0 md.attrs [];
    md = md;
    columns = map (λ field. new_attribute field.typ) md.attrs;
  }

  abbrev pub segments : Relation F → ℕ
  segments r = r.md.num

  -- The loop of `AddTuples`: `r.as[i]` panics past the last attribute.
  unfoldable pub append_tuples : List (Attribute F) → List (Tuples F) → Reply (List (Attribute F))
  append_tuples columns [] = returned columns
  append_tuples [] (t ∷ ts) = panicked
  append_tuples (a ∷ columns) (t ∷ ts) = do
    a' ← append_segment a t
    rest ← append_tuples columns ts
    returned (a' ∷ rest)

  unfoldable pub add_tuples : List (Tuples F) → Relation F → Reply (Relation F)
  add_tuples ts r = do
    columns ← append_tuples r.columns ts
    returned (record r { columns = columns; md = record r.md { num = r.md.num + 1 } })

  -- The first loop of `Read`
  unfoldable pub find_columns : List Name → Relation F → Reply (List (Attribute F))
  find_columns [] r = returned []
  find_columns (attr ∷ attrs) r = elim (get_elem? r.columns (index_of attr r.mp)) [
    | none ↦ panicked
    | some a ↦ (do rest ← find_columns attrs r; returned (a ∷ rest))
  ]

  -- The second loop of `Read`
  unfoldable pub read_columns : ℕ → List (Attribute F) → Reply (List (List (Value F)))
  read_columns seg [] = returned []
  read_columns seg (a ∷ as') = do
    v ← read_segment seg a
    rest ← read_columns seg as'
    returned (v ∷ rest)

  unfoldable pub read : ℕ → List Name → Relation F → Reply (List (List (Value F)))
  read seg attrs r = do as' ← find_columns attrs r; read_columns seg as'

  -- `rp[attr] = vs[i]` for all attributes; a later write comes in front.
  unfoldable pub named : List Name → List (List (Value F)) → Columns F → Columns F
  named [] vs rp = rp
  named (attr ∷ attrs) [] rp = rp
  named (attr ∷ attrs) (v ∷ vs) rp = named attrs vs ((attr, v) ∷ rp)

  -- `Read` of the operator: the values, and the relation that it holds afterwards, which is nil
  -- once it was read. A nil map is `none`.
  unfoldable pub read_block :
      ℕ → List Name → Option (Relation F) → Reply (Option (Columns F)) × Option (Relation F)
  read_block seg attrs none = (returned none, none)
  read_block seg attrs (some r) =
      ((do vs ← read seg attrs r; returned (some (named attrs vs []))), none)

  -- `Attributes` of the operator: a call on nil panics.
  unfoldable pub block_attributes : Option (Relation F) → Reply (List Field)
  block_attributes none = panicked
  block_attributes (some r) = returned r.md.attrs
