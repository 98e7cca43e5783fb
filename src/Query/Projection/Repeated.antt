-- ===== src/Query/Projection/Repeated.antt =====
-- `Read` of the operators a second time, and `Read` under a name that no attribute has.
use talent_challenge.Prelude.{
  ℕ, ◌≡◌, ◌≢◌, refl, sym, ap, ◌∙◌, inl, inr, Bool, true, false, Option, none, some, List, [], ◌∷◌,
  ◌||◌, arith,
}
use talent_challenge.Prelude.Bytes.{bytes_eq}
use talent_challenge.Query.Reply.{Name, returned, >>=-eq-returned, Reply-cases}
use talent_challenge.Query.Util.{has_name, merge_attributes, unseen}
use talent_challenge.Query.Value.{Value, Float64, Columns}
use talent_challenge.Query.Extend.{column}
use talent_challenge.Query.Relation.{Relation, named, read_block, read as read_relation}
use talent_challenge.Query.Projection.{
  Projected, Op, relation, projection, attribute_list, sub_extend, checks, project, read,
}
use talent_challenge.Query.Projection.Reads.{read-checked, project-some}

module _ {F : Type 0} (f : Float64 F) where
  read-state :
      (is_check : Bool) (prev : Op F) (es : List (Projected F)) (asked : List Name)
      (m : Option (Columns F))
      → (read f (projection is_check prev es) asked).0 ≡ returned m
      → (read f (projection is_check prev es) asked).1
        ≡ projection true
            (read f prev (attribute_list (sub_extend es (merge_attributes asked [])))).1
            es
  unfolding read
  read-state is_check prev es asked m h =
      let attrs = merge_attributes asked [] in
      let es' = sub_extend es attrs in
      elim (Reply-cases (checks is_check es prev attrs (attribute_list es'))) [
        | inl (t, e) ↦ rw (e, read) refl
        | inr (inl (e, fault)) ↦ let h' = rw (fault, read) at h in absurd cc
        | inr (inr fault) ↦ let h' = rw (fault, read) at h in absurd cc
      ]

  -- An operator gives its segment once: after a read that returned, every further read, whatever
  -- it asks for, returns no table.
  pub read-again :
      (op : Op F) (asked again : List Name) (m : Option (Columns F))
      → (read f op asked).0 ≡ returned m
      → (read f (read f op asked).1 again).0 ≡ returned none
  unfolding read read_block checks project
  read-again (relation seg none) asked again m h = refl
  read-again (relation seg (some r)) asked again m h = refl
  read-again (projection is_check prev es) asked again m h =
      let as' = attribute_list (sub_extend es (merge_attributes asked [])) in
      let (mp, below, made) =
        >>=-eq-returned (read f prev as').0 _ (read-checked f is_check prev es asked m h) in
      let next = attribute_list (sub_extend es (merge_attributes again [])) in
      rw (read-state is_check prev es asked m h) (rw (read-again prev as' next mp below) refl)

  column-named :
      (z : Name) (attrs : List Name) (vs : List (List (Value F))) (rp : Columns F)
      → has_name z attrs ≡ false
      → column z (named attrs vs rp) ≡ column z rp
  unfolding named has_name column
  column-named z [] vs rp h = refl
  column-named z (attr ∷ attrs) [] rp h = refl
  column-named z (attr ∷ attrs) (v ∷ vs) rp h =
      column-named z attrs vs ((attr, v) ∷ rp) (ground (arith, h)) ∙ rw (the_other h) refl
    where
      the_other : (bytes_eq z attr || has_name z attrs) ≡ false → bytes_eq z attr ≡ false
      the_other e = ground (arith, e)

  block-missing :
      (seg : ℕ) (r : Option (Relation F)) (attrs : List Name) (z : Name) (mp : Columns F)
      → has_name z attrs ≡ false
      → (read f (relation seg r) attrs).0 ≡ returned (some mp)
      → column z mp ≡ none
  unfolding read read_block column
  block-missing seg none attrs z mp out h = absurd cc
  block-missing seg (some r) attrs z mp out h =
      let (vs, done, same) = >>=-eq-returned (read_relation seg attrs r) _ h in
      let is_named : named attrs vs [] ≡ mp = cc same in
      sym (ap (λ mp. column z mp) is_named) ∙ column-named z attrs vs [] out

  -- The first name stays in front.
  merge_attributes_first :
      (attr : Name) (asked : List Name)
      → (rest : List Name) × (merge_attributes (attr ∷ asked) [] ≡ attr ∷ rest)
  unfolding merge_attributes unseen has_name
  merge_attributes_first attr asked = (_, refl)

  project_missing :
      (es : List (Projected F)) (attr : Name) (rest : List Name) (mp rq : Columns F)
      → column attr mp ≡ none
      → project f es (attr ∷ rest) (some mp) ≢ returned (some rq)
  unfolding project
  project_missing es attr rest mp rq missing h = let h' = rw (missing, project) at h in cc

  -- A projection over a relation returns no table when the first name that is asked for is not
  -- also the name of an attribute that the expressions asked for read.
  pub read_aliased :
      (is_check : Bool) (seg : ℕ) (r : Option (Relation F)) (es : List (Projected F)) (attr : Name)
      (asked : List Name) (rq : Columns F)
      → has_name attr (attribute_list (sub_extend es (merge_attributes (attr ∷ asked) []))) ≡ false
      → (read f (projection is_check (relation seg r) es) (attr ∷ asked)).0 ≢ returned (some rq)
  read_aliased is_check seg r es attr asked rq out h =
      let es' = sub_extend es (merge_attributes (attr ∷ asked) []) in
      let (rest, first) = merge_attributes_first attr asked in
      let (m, below, made) =
        >>=-eq-returned (read f (relation seg r) (attribute_list es')).0 _
          (read-checked f is_check (relation seg r) es (attr ∷ asked) (some rq) h) in
      let (mp, is_table, evaluated) =
        project-some f es' (merge_attributes (attr ∷ asked) []) m rq made in
      project_missing es' attr rest mp rq
        (block-missing seg r (attribute_list es') attr mp out (below ∙ ap returned is_table))
        (sym (ap (λ names. project f es' names (some mp)) first)
          ∙ sym (ap (project f es' _) is_table)
          ∙ made)
