-- ===== src/Query/Extend/Sound.antt =====
-- `Eval` of vm/extend on a table that has what an expression reads.
use talent_challenge.Prelude.{
  ℕ, zero, suc, ◌≡◌, refl, ◌∙◌, ◌⊎◌, inl, inr, true, some, List, [], ◌∷◌, All, length, replicate,
  subst, Bool-cases, length-replicate, arith,
}
use talent_challenge.Prelude.Bytes.{bytes_eq}
use talent_challenge.Query.Reply.{Name, Reply, returned, failed, not_implemented, ◌>>=◌}
use talent_challenge.Query.Types.{t_int, t_float}
use talent_challenge.Query.Value.{
  Value, Float64, Columns, int, float, must_be_int, must_be_float, eval as eval_constant,
  return_type as type_of_constant, length_of, int64_plus, int64_minus,
}
use talent_challenge.Query.Overload.{
  plus, minus, each, on_ints, on_int_float, on_float_int, entries_of, bin_ops, first_fit,
  binary_check, binary_eval,
}
use talent_challenge.Query.Extend.{Extend, attribute, constant, binary, column, eval}

-- Every operator of the expression is `Plus` or `Minus`.
abbrev pub IsKnown : {F : Type 0} → Extend F → Type 0
IsKnown (attribute typ name) = Unit
IsKnown (constant v) = Unit
IsKnown (binary op left right) = ((op ≡ plus) ⊎ (op ≡ minus)) × IsKnown left × IsKnown right

abbrev pub HasType : {F : Type 0} → ℕ → List (Value F) → Type 0
HasType t vs = All (λ v. type_of_constant v ≡ t) vs

-- The table has a column of the announced type for every attribute of the expression.
abbrev pub Fits : {F : Type 0} → Columns F → Extend F → Type 0
Fits {F} mp (attribute typ name) =
    (vs : List (Value F)) × (column name mp ≡ some vs) × HasType typ vs
Fits mp (constant v) = Unit
Fits mp (binary op left right) = Fits mp left × Fits mp right

-- All columns have `n` values.
abbrev pub IsTable : {F : Type 0} → ℕ → Columns F → Type 0
IsTable n mp = (length_of mp ≡ n) × All (λ c. length c.1 ≡ n) mp

check_left : (a b x y : ℕ) → binary_check a b x y ≡ true → x ≡ a
unfolding binary_check
check_left a b x y h = ground (arith, h)

check_right : (a b x y : ℕ) → binary_check a b x y ≡ true → y ≡ b
unfolding binary_check
check_right a b x y h = ground (arith, h)

length-column :
    {F : Type 0} (n : ℕ) (name : Name) (mp : Columns F) (vs : List (Value F))
    → All (λ c. length c.1 ≡ n) mp
    → column name mp ≡ some vs
    → length vs ≡ n
unfolding column
length-column n name [] vs h e = absurd cc
length-column n name ((m, ws) ∷ mp) vs h e = elim (Bool-cases (bytes_eq name m)) [
  | inl here ↦ ground (arith, h.0, e, here)
  | inr there ↦ length-column n name mp vs h.1 (ground (arith, e, there))
]

replicate-HasType :
    {F : Type 0} (n : ℕ) (v : Value F) → HasType (type_of_constant v) (replicate n v)
replicate-HasType zero v = tt
replicate-HasType (suc n) v = (refl, replicate-HasType n v)

each-HasType :
    {F : Type 0} (lt rt t : ℕ) (g : Value F → Value F → Reply (Value F))
    → ((a b : Value F)
        → type_of_constant a ≡ lt
        → type_of_constant b ≡ rt
        → (r : Value F) × (g a b ≡ returned r) × (type_of_constant r ≡ t))
    → (as' bs : List (Value F)) → length as' ≡ length bs
    → HasType lt as'
    → HasType rt bs
    → (rs : List (Value F)) × (each g as' bs ≡ returned rs)
      × HasType t rs
      × (length rs ≡ length as')
unfolding each
each-HasType lt rt t g h [] bs len ha hb = ([], refl, tt, refl)
each-HasType lt rt t g h (a ∷ as') [] len ha hb = absurd (omega arith)
each-HasType lt rt t g h (a ∷ as') (b ∷ bs) len ha hb =
    let (r, one, typed) = h a b ha.0 hb.0 in
    let (rs, rest, all, same) = each-HasType lt rt t g h as' bs (omega arith) ha.1 hb.1 in
    (r ∷ rs, rw one (rw rest refl), (typed, all), omega arith)

module _ {F : Type 0} (f : Float64 F) where
  on_ints-HasType :
      (g : ℕ → ℕ → ℕ) (a b : Value F)
      → type_of_constant a ≡ t_int
      → type_of_constant b ≡ t_int
      → (r : Value F) × (on_ints g a b ≡ returned r) × (type_of_constant r ≡ t_int)
  unfolding on_ints must_be_int
  on_ints-HasType g (int x) (int y) ha hb = (int (g x y), refl, refl)
  on_ints-HasType g (int x) (float y) ha hb = absurd (omega arith)
  on_ints-HasType g (float x) b ha hb = absurd (omega arith)

  on_int_float-HasType :
      (g : F → F → F) (a b : Value F)
      → type_of_constant a ≡ t_int
      → type_of_constant b ≡ t_float
      → (r : Value F) × (on_int_float f g a b ≡ returned r) × (type_of_constant r ≡ t_float)
  unfolding on_int_float must_be_int must_be_float
  on_int_float-HasType g (int x) (float y) ha hb = (float (g (f.of_int64 x) y), refl, refl)
  on_int_float-HasType g (int x) (int y) ha hb = absurd (omega arith)
  on_int_float-HasType g (float x) b ha hb = absurd (omega arith)

  on_float_int-HasType :
      (g : F → F → F) (a b : Value F)
      → type_of_constant a ≡ t_float
      → type_of_constant b ≡ t_int
      → (r : Value F) × (on_float_int f g a b ≡ returned r) × (type_of_constant r ≡ t_float)
  unfolding on_float_int must_be_int must_be_float
  on_float_int-HasType g (float x) (int y) ha hb = (float (g x (f.of_int64 y)), refl, refl)
  on_float_int-HasType g (float x) (float y) ha hb = absurd (omega arith)
  on_float_int-HasType g (int x) b ha hb = absurd (omega arith)

  -- What an evaluation comes to when it does not panic: a column of its type, or the error of an
  -- operator that is not defined on the types of its arguments.
  abbrev pub Sound : ℕ → Reply (List (Value F) × ℕ) → Type 0
  Sound n reply =
      ((vs : List (Value F)) × (t : ℕ) × (reply ≡ returned (vs, t))
        × HasType t vs
        × (length vs ≡ n))
      ⊎ ((op ltyp rtyp : ℕ) × (reply ≡ failed (not_implemented op ltyp rtyp)))

  -- An entry for the types of both columns runs to its end.
  run-Sound :
      (n lt rt t : ℕ) (g : Value F → Value F → Reply (Value F)) (as' bs : List (Value F))
      → ((a b : Value F)
          → type_of_constant a ≡ lt
          → type_of_constant b ≡ rt
          → (r : Value F) × (g a b ≡ returned r) × (type_of_constant r ≡ t))
      → length as' ≡ n
      → length bs ≡ n
      → HasType lt as'
      → HasType rt bs
      → Sound n (each g as' bs >>= λ rs. returned (rs, t))
  run-Sound n lt rt t g as' bs h la lb ha hb =
      let (rs, done, typed, len) = each-HasType lt rt t g h as' bs (omega arith) ha hb in
      inl (rs, t, rw done refl, typed, omega arith)

  first_fit-Sound :
      (n op lt rt : ℕ) (on_int : ℕ → ℕ → ℕ) (on_float : F → F → F) (as' bs : List (Value F))
      → length as' ≡ n
      → length bs ≡ n
      → HasType lt as'
      → HasType rt bs
      → Sound n (first_fit f op lt rt (entries_of f on_int on_float) as' bs)
  unfolding first_fit entries_of binary_check
  first_fit-Sound n op lt rt on_int on_float as' bs la lb ha hb =
      elim (Bool-cases (binary_check t_int t_int lt rt))
        as (λ u. Sound n (first_fit f op lt rt (entries_of f on_int on_float) as' bs)) [
          | inl fit ↦ rw fit (
              run-Sound n t_int t_int t_int (on_ints on_int) as' bs (on_ints-HasType on_int) la lb
                (subst (λ t. HasType t as') (check_left t_int t_int lt rt fit) ha)
                (subst (λ t. HasType t bs) (check_right t_int t_int lt rt fit) hb))
          | inr skip ↦ rw skip (elim (Bool-cases (binary_check t_int t_float lt rt)) [
            | inl fit ↦ rw fit (
                run-Sound n t_int t_float t_float (on_int_float f on_float) as' bs
                  (on_int_float-HasType on_float) la lb
                  (subst (λ t. HasType t as') (check_left t_int t_float lt rt fit) ha)
                  (subst (λ t. HasType t bs) (check_right t_int t_float lt rt fit) hb))
            | inr skip' ↦ rw skip' (elim (Bool-cases (binary_check t_float t_int lt rt)) [
              | inl fit ↦ rw fit (
                  run-Sound n t_float t_int t_float (on_float_int f on_float) as' bs
                    (on_float_int-HasType on_float) la lb
                    (subst (λ t. HasType t as') (check_left t_float t_int lt rt fit) ha)
                    (subst (λ t. HasType t bs) (check_right t_float t_int lt rt fit) hb))
              | inr last ↦ rw last (inr (op, lt, rt, refl))
            ])
          ])
        ]

  binary_eval-Sound :
      (n op lt rt : ℕ) (as' bs : List (Value F))
      → (op ≡ plus) ⊎ (op ≡ minus)
      → length as' ≡ n
      → length bs ≡ n
      → HasType lt as'
      → HasType rt bs
      → Sound n (binary_eval f op lt rt as' bs)
  unfolding binary_eval bin_ops
  binary_eval-Sound n op lt rt as' bs (inl e) la lb ha hb =
      rw e (first_fit-Sound n plus lt rt int64_plus f.plus as' bs la lb ha hb)
  binary_eval-Sound n op lt rt as' bs (inr e) la lb ha hb =
      rw e (first_fit-Sound n minus lt rt int64_minus f.minus as' bs la lb ha hb)

  -- On a table with the attributes that an expression of known operators reads, `Eval` does not
  -- panic: it returns a value for each row, all of the type that it reports, or the error that an
  -- operator is not implemented for the types of its arguments.
  pub eval-Sound :
      (e : Extend F) (n : ℕ) (mp : Columns F)
      → IsKnown e
      → IsTable n mp
      → Fits mp e
      → Sound n (eval f e mp)
  unfolding eval eval_constant
  eval-Sound (attribute typ name) n mp known table (vs, found, typed) =
      inl (vs, typ, rw (found, eval) refl, typed, length-column n name mp vs table.1 found)
  eval-Sound (constant v) n mp known table fits = inl (
    replicate (length_of mp) v,
    type_of_constant v,
    refl,
    replicate-HasType (length_of mp) v,
    length-replicate (length_of mp) v ∙ table.0,
  )
  eval-Sound (binary op left right) n mp known table fits =
      elim (eval-Sound left n mp known.1 table fits.0) [
        | inr (o, lt, rt, fault) ↦ inr (o, lt, rt, rw (fault, eval) refl)
        | inl (ls, lt, done, typed, len) ↦ elim (eval-Sound right n mp known.2 table fits.1) [
          | inr (o, lt', rt, fault) ↦ inr (o, lt', rt, rw (done, eval) (rw fault refl))
          | inl (rs, rt, done', typed', len') ↦
              subst (Sound n) (rw done (rw done' refl))
                (binary_eval-Sound n op lt rt ls rs known.0 len len' typed typed')
        ]
      ]
