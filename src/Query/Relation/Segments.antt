-- ===== src/Query/Relation/Segments.antt =====
-- storage/relation.go: what `AddTuples` adds is what `Read` gives back, in a segment of its own.
use talent_challenge.Prelude.{
  ℕ, zero, suc, ◌+◌, ◌<◌, ◌≡◌, refl, sym, ap, subst, ◌∙◌, some, List, [], ◌∷◌, ◌++◌, length,
  length-append, map, get_elem?, get_elem?-some, All, arith,
}
use talent_challenge.Query.Reply.{Name, returned}
use talent_challenge.Query.Types.{t_int, t_float}
use talent_challenge.Query.Value.{Value}
use talent_challenge.Query.Columns.{
  Values, Tuples, Attribute, int64s, float64s, other, ints, floats, append_values, value_list,
  new_values, append_segment, read_segment,
}
use talent_challenge.Query.Relation.{
  Relation, index_of, append_tuples, add_tuples, find_columns, read_columns, read,
}

some-injective {ℓ} : {A : Type ℓ} {a b : A} → some a ≡ some b → a ≡ b
some-injective h = cc

-- The slice has the attribute's type.
abbrev pub Matches : {F : Type 0} → Attribute F → Tuples F → Type 0
Matches a (int64s xs) = a.typ ≡ t_int
Matches a (float64s xs) = a.typ ≡ t_float
Matches a other = ⊥

abbrev pub MatchAll : {F : Type 0} → List (Attribute F) → List (Tuples F) → Type 0
MatchAll [] [] = Unit {0}
MatchAll [] (t ∷ ts) = ⊥
MatchAll (a ∷ columns) [] = ⊥
MatchAll (a ∷ columns) (t ∷ ts) = Matches a t × MatchAll columns ts

-- The values that a slice stands for
abbrev pub tuple_values : {F : Type 0} → Tuples F → List (Value F)
tuple_values (int64s xs) = map Value.int xs
tuple_values (float64s xs) = map Value.float xs
tuple_values other = []

abbrev pub segment_of : {F : Type 0} → Tuples F → Values F
segment_of (int64s xs) = ints xs
segment_of (float64s xs) = floats xs
segment_of other = ints []

abbrev pub pushed : {F : Type 0} → Tuples F → Attribute F → Attribute F
pushed t a = record { typ = a.typ; vs = a.vs ++ segment_of t ∷ [] }

-- The attributes after `AddTuples`
abbrev pub extended : {F : Type 0} → List (Attribute F) → List (Tuples F) → List (Attribute F)
extended [] ts = []
extended (a ∷ columns) [] = a ∷ columns
extended (a ∷ columns) (t ∷ ts) = pushed t a ∷ extended columns ts

module _ {F : Type 0} where
  append_segment-Matches :
      (a : Attribute F) (t : Tuples F) → Matches a t → append_segment a t ≡ returned (pushed t a)
  unfolding append_segment new_values append_values
  append_segment-Matches a (int64s xs) h = rw h refl
  append_segment-Matches a (float64s xs) h = rw h refl
  append_segment-Matches a other h = absurd h

  append_tuples-MatchAll :
      (columns : List (Attribute F)) (ts : List (Tuples F))
      → MatchAll columns ts
      → append_tuples columns ts ≡ returned (extended columns ts)
  unfolding append_tuples
  append_tuples-MatchAll [] [] h = refl
  append_tuples-MatchAll [] (t ∷ ts) h = absurd h
  append_tuples-MatchAll (a ∷ columns) [] h = absurd h
  append_tuples-MatchAll (a ∷ columns) (t ∷ ts) h =
      rw (append_segment-Matches a t h.0) (rw (append_tuples-MatchAll columns ts h.1) refl)

  get_elem?-extended :
      (i : ℕ) (columns : List (Attribute F)) (ts : List (Tuples F)) (a : Attribute F)
      → MatchAll columns ts
      → get_elem? columns i ≡ some a
      → (t : Tuples F) × (get_elem? ts i ≡ some t)
        × Matches a t
        × (get_elem? (extended columns ts) i ≡ some (pushed t a))
  get_elem?-extended i [] ts a m h = absurd cc
  get_elem?-extended i (c ∷ columns) [] a m h = absurd m
  get_elem?-extended zero (c ∷ columns) (t ∷ ts) a m h = (
    t,
    refl,
    subst (λ x. Matches x t) (some-injective h) m.0,
    ap (λ x. some (pushed t x)) (some-injective h),
  )
  get_elem?-extended (suc i) (c ∷ columns) (t ∷ ts) a m h = get_elem?-extended i columns ts a m.1 h

  get_elem?-last :
      (vs : List (Values F)) (v : Values F) → get_elem? (vs ++ v ∷ []) (length vs) ≡ some v
  get_elem?-last [] v = refl
  get_elem?-last (w ∷ vs) v = get_elem?-last vs v

  get_elem?-before :
      (i : ℕ) (vs : List (Values F)) (v : Values F)
      → i < length vs
      → get_elem? (vs ++ v ∷ []) i ≡ get_elem? vs i
  get_elem?-before i [] v h = absurd (omega arith)
  get_elem?-before zero (w ∷ vs) v h = refl
  get_elem?-before (suc i) (w ∷ vs) v h = get_elem?-before i vs v (omega arith)

  value_list-segment_of :
      (a : Attribute F) (t : Tuples F) → Matches a t → value_list (segment_of t) ≡ tuple_values t
  unfolding value_list
  value_list-segment_of a (int64s xs) h = refl
  value_list-segment_of a (float64s xs) h = refl
  value_list-segment_of a other h = absurd h

  -- Every attribute has as many segments as the metadata says.
  abbrev pub IsAligned : Relation F → Type 0
  IsAligned r = All (λ a. length a.vs ≡ r.md.num) r.columns

  extended-All :
      (n : ℕ) (columns : List (Attribute F)) (ts : List (Tuples F))
      → MatchAll columns ts
      → All (λ a. length a.vs ≡ n) columns
      → All (λ a. length a.vs ≡ n + 1) (extended columns ts)
  extended-All n [] ts m h = tt
  extended-All n (a ∷ columns) [] m h = absurd m
  extended-All n (a ∷ columns) (t ∷ ts) m h = (
    omega (arith, h.0, length-append a.vs (segment_of t ∷ [])),
    extended-All n columns ts m.1 h.1,
  )

  All-get_elem? :
      (n i : ℕ) (columns : List (Attribute F)) (a : Attribute F)
      → All (λ a. length a.vs ≡ n) columns
      → get_elem? columns i ≡ some a
      → length a.vs ≡ n
  All-get_elem? n i [] a h e = absurd cc
  All-get_elem? n zero (c ∷ columns) a h e = subst (λ x. length x.vs ≡ n) (some-injective e) h.0
  All-get_elem? n (suc i) (c ∷ columns) a h e = All-get_elem? n i columns a h.1 e

  read-one :
      (seg : ℕ) (attr : Name) (r : Relation F) (a : Attribute F) (vs : Values F)
      → get_elem? r.columns (index_of attr r.mp) ≡ some a
      → get_elem? a.vs seg ≡ some vs
      → read seg (attr ∷ []) r ≡ returned (value_list vs ∷ [])
  unfolding read find_columns read_columns read_segment
  read-one seg attr r a vs found there =
      rw (found, find_columns, read) (rw (there, read_segment, read_columns) refl)

  -- Slices of the attributes' types are added to an aligned relation as one more segment: it is
  -- aligned again, and for every name whose index is in the relation, `Read` of the new segment
  -- gives the values of the slice there and `Read` of every older segment what it gave.
  pub add_tuples-read :
      (ts : List (Tuples F)) (r : Relation F)
      → IsAligned r
      → MatchAll r.columns ts
      → (r' : Relation F) × (add_tuples ts r ≡ returned r')
        × IsAligned r'
        × (r'.md.num ≡ r.md.num + 1)
        × ((attr : Name)
            → index_of attr r.mp < length r.columns
            → (t : Tuples F) × (get_elem? ts (index_of attr r.mp) ≡ some t)
              × (read r.md.num (attr ∷ []) r' ≡ returned (tuple_values t ∷ []))
              × ((seg : ℕ) → seg < r.md.num → read seg (attr ∷ []) r' ≡ read seg (attr ∷ []) r))
  unfolding add_tuples
  add_tuples-read ts r aligned m =
      let r' : Relation F = record r {
        columns = extended r.columns ts;
        md = record r.md { num = r.md.num + 1 };
      } in
      (
        r',
        rw (append_tuples-MatchAll r.columns ts m) refl,
        extended-All r.md.num r.columns ts m aligned,
        refl,
        λ attr inside.
            let i = index_of attr r.mp in
            let (a, found) = get_elem?-some i r.columns inside in
            let len = All-get_elem? r.md.num i r.columns a aligned found in
            let (t, given, fits, found') = get_elem?-extended i r.columns ts a m found in
            (
              t,
              given,
              read-one r.md.num attr r' (pushed t a) (segment_of t) found' (
                    subst (λ n. get_elem? (a.vs ++ segment_of t ∷ []) n ≡ some (segment_of t)) len
                      (get_elem?-last a.vs (segment_of t)))
                  ∙ ap (λ vs. returned (vs ∷ [])) (value_list-segment_of a t fits),
              λ seg old.
                  let (vs, there) = get_elem?-some seg a.vs (omega arith) in
                  read-one seg attr r' (pushed t a) vs found'
                    (get_elem?-before seg a.vs (segment_of t) (omega arith) ∙ there)
                  ∙ sym (read-one seg attr r a vs found there),
            ),
      )
