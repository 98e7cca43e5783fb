-- ===== src/Query/Projection/Reads.antt =====
-- What `Read` of the projection gives, in terms of the read below it.
use talent_challenge.Prelude.{
  ℕ, ◌≡◌, refl, ap, ◌∙◌, inl, inr, Bool, true, false, Option, none, some, List, [], ◌∷◌, ◌++◌,
  length, ◌==◌, if◌then◌else◌, arith, All, Bool-cases,
}
use talent_challenge.Prelude.Bytes.{bytes_eq, bytes_eq_iff, bytes_eq_refl}
use talent_challenge.Query.Reply.{Name, returned, ◌>>=◌, >>=-eq-returned, Reply-cases}
use talent_challenge.Query.Util.{has_name, merge_attributes}
use talent_challenge.Query.Util.Merged.{Distinct, same_name}
use talent_challenge.Query.Value.{Value, Float64, Columns}
use talent_challenge.Query.Extend.{column, eval}
use talent_challenge.Query.Projection.{
  Projected, Op, projection, values_of, output_name, alias_list, attribute_list, sub_extend, checks,
  append_column, eval_all, project, read,
}

column-append_column :
    {F : Type 0} (z name : Name) (vs : List (Value F)) (rq : Columns F)
    → column z (append_column name vs rq)
      ≡ (if bytes_eq z name then some (values_of (column name rq) ++ vs) else column z rq)
unfolding column append_column
column-append_column z name vs [] = refl
column-append_column z name vs ((n, ws) ∷ rq) = ground (
  arith,
  column-append_column z name vs rq,
  bytes_eq_iff z name,
  bytes_eq_iff name n,
  bytes_eq_iff z n,
  bytes_eq_refl n,
)

column-append_other :
    {F : Type 0} (z name : Name) (vs : List (Value F)) (rq : Columns F)
    → bytes_eq z name ≡ false
    → column z (append_column name vs rq) ≡ column z rq
column-append_other z name vs rq h = column-append_column z name vs rq ∙ rw h refl

column-append_same :
    {F : Type 0} (name : Name) (vs : List (Value F)) (rq : Columns F)
    → column name rq ≡ none
    → column name (append_column name vs rq) ≡ some vs
column-append_same name vs rq h =
    column-append_column name name vs rq ∙ rw (bytes_eq_refl name) (rw h refl)

names_apart :
    (z name : Name) (names : List Name)
    → has_name name names ≡ false
    → has_name z names ≡ true
    → bytes_eq z name ≡ false
names_apart z name names out inside = ground (arith, out, inside, same_name z name names)

module _ {F : Type 0} (f : Float64 F) where
  -- The column of an expression is what it evaluates to.
  abbrev pub IsColumn : Columns F → Columns F → Projected F → Type 0
  IsColumn mp rq x =
      (vs : List (Value F)) × (t : ℕ) × (eval f x.e mp ≡ returned (vs, t))
      × (column (output_name x) rq ≡ some vs)

  eval_all-IsColumn :
      (es : List (Projected F)) (mp before rq : Columns F)
      → Distinct (alias_list es)
      → ((z : Name) → has_name z (alias_list es) ≡ true → column z before ≡ none)
      → eval_all f es mp before ≡ returned rq
      → ((z : Name) → has_name z (alias_list es) ≡ false → column z rq ≡ column z before)
        × All (IsColumn mp rq) es
  unfolding eval_all alias_list has_name
  eval_all-IsColumn [] mp before rq d new h = (λ z h'. ground (arith, h), tt)
  eval_all-IsColumn (x ∷ es) mp before rq d new h =
      let (r, one, rest) = >>=-eq-returned (eval f x.e mp) _ h in
      let name = output_name x in
      let (kept, all) =
        eval_all-IsColumn es mp (append_column name r.0 before) rq d.1
          (λ z h'.
            column-append_other z name r.0 before (names_apart z name (alias_list es) d.0 h')
            ∙ new z (ground (arith, h')))
          rest in
      (
        λ z out.
            kept z (ground (arith, out))
            ∙ column-append_other z name r.0 before (ground (arith, out)),
        (
          (
            r.0,
            r.1,
            one,
            kept name d.0
                ∙ column-append_same name r.0 before
                    (new name (ground (arith, bytes_eq_refl name))),
          ),
          all,
        ),
      )

  pub project-some :
      (es : List (Projected F)) (attrs : List Name) (m : Option (Columns F)) (rq : Columns F)
      → project f es attrs m ≡ returned (some rq)
      → (mp : Columns F) × (m ≡ some mp) × (eval_all f es mp [] ≡ returned rq)
  unfolding project
  project-some es attrs none rq h = absurd cc
  project-some es [] (some mp) rq h = absurd cc
  project-some es (attr ∷ attrs) (some mp) rq h =
      elim (Bool-cases (length (values_of (column attr mp)) == 0)) [
        | inl empty ↦ let h' = rw empty at h in absurd cc
        | inr full ↦
            let h' = rw full at h in
            let (made, done, same) = >>=-eq-returned (eval_all f es mp []) _ h' in
            (mp, refl, cc (done, same))
      ]

  pub read-checked :
      (is_check : Bool) (prev : Op F) (es : List (Projected F)) (asked : List Name)
      (m : Option (Columns F))
      → (read f (projection is_check prev es) asked).0 ≡ returned m
      → ((read f prev (attribute_list (sub_extend es (merge_attributes asked [])))).0
          >>= project f (sub_extend es (merge_attributes asked [])) (merge_attributes asked []))
        ≡ returned m
  unfolding read
  read-checked is_check prev es asked m h =
      let attrs = merge_attributes asked [] in
      let es' = sub_extend es attrs in
      elim (Reply-cases (checks is_check es prev attrs (attribute_list es'))) [
        | inl (t, e) ↦ rw (e, read) at h
        | inr (inl (e, fault)) ↦ let h' = rw (fault, read) at h in absurd cc
        | inr (inr fault) ↦ let h' = rw (fault, read) at h in absurd cc
      ]

  -- A table that `Read` of a projection returns comes from a table that the operator below returned
  -- for the attributes of the expressions asked for. Where no two of these go by one name, the
  -- column under the name of each is what it evaluates to on the table below.
  pub read-IsColumn :
      (is_check : Bool) (prev : Op F) (es : List (Projected F)) (asked : List Name) (rq : Columns F)
      → (read f (projection is_check prev es) asked).0 ≡ returned (some rq)
      → Distinct (alias_list (sub_extend es (merge_attributes asked [])))
      → (mp : Columns F) × ((read f prev
            (attribute_list (sub_extend es (merge_attributes asked [])))).0
          ≡ returned (some mp))
        × All (IsColumn mp rq) (sub_extend es (merge_attributes asked []))
  unfolding read project
  read-IsColumn is_check prev es asked rq h d =
      let attrs = merge_attributes asked [] in
      let es' = sub_extend es attrs in
      let (m, below, made) =
        >>=-eq-returned (read f prev (attribute_list es')).0 _
          (read-checked is_check prev es asked (some rq) h) in
      let (mp, is_table, evaluated) = project-some es' attrs m rq made in
      (
        mp,
        below ∙ ap returned is_table,
        (eval_all-IsColumn es' mp [] rq d (λ z h. unfold column in refl) evaluated).1,
      )
