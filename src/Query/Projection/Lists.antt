-- ===== src/Query/Projection/Lists.antt =====
-- `attributeList` of the projection: the attributes that a list of expressions reads.
use talent_challenge.Prelude.{◌≡◌, refl, Bool, false, not, List, [], ◌∷◌, ◌++◌, ◌||◌, ◌&&◌, arith}
use talent_challenge.Query.Reply.{Name}
use talent_challenge.Query.Util.{has_name, unseen}
use talent_challenge.Query.Util.Merged.{
  Distinct, Distinct-append, has_name-append, has_name-unseen, unseen-Distinct,
}
use talent_challenge.Query.Extend.{attributes}
use talent_challenge.Query.Projection.{Projected, attributes_seen, attribute_list}

-- Some expression of the list reads the attribute.
abbrev pub reads : {F : Type 0} → Name → List (Projected F) → Bool
reads z [] = false
reads z (x ∷ es) = has_name z (attributes x.e) || reads z es

module _ {F : Type 0} where
  has_name-attributes_seen :
      (z : Name) (seen : List Name) (es : List (Projected F))
      → has_name z (attributes_seen seen es) ≡ (reads z es && not (has_name z seen))
  unfolding attributes_seen has_name
  has_name-attributes_seen z seen [] = refl
  has_name-attributes_seen z seen (x ∷ es) =
      let new = unseen seen (attributes x.e) in
      ground (
        arith,
        has_name-append z new (attributes_seen (seen ++ new) es),
        has_name-append z seen new,
        has_name-unseen z seen (attributes x.e),
        has_name-attributes_seen z (seen ++ new) es,
      )

  attributes_seen-Distinct :
      (seen : List Name) (es : List (Projected F)) → Distinct (attributes_seen seen es)
  unfolding attributes_seen
  attributes_seen-Distinct seen [] = tt
  attributes_seen-Distinct seen (x ∷ es) =
      let new = unseen seen (attributes x.e) in
      Distinct-append new (attributes_seen (seen ++ new) es) (unseen-Distinct seen (attributes x.e))
        (attributes_seen-Distinct (seen ++ new) es)
        (λ z h.
          ground
            (arith, h, has_name-append z seen new, has_name-attributes_seen z (seen ++ new) es))

  -- `attributeList` names exactly the attributes that the expressions read, each once.
  attribute_list-Distinct :
      (es : List (Projected F))
      → Distinct (attribute_list es) × ((z : Name) → has_name z (attribute_list es) ≡ reads z es)
  unfolding attribute_list has_name
  attribute_list-Distinct es =
      (attributes_seen-Distinct [] es, λ z. ground (arith, has_name-attributes_seen z [] es))
