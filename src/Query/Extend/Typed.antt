-- ===== src/Query/Extend/Typed.antt =====
-- The type that `Eval` of vm/extend reports, and the one that `ReturnType` announces.
use talent_challenge.Prelude.{ℕ, ◌≡◌, ◌≢◌, ◌⊎◌, List, arith}
use talent_challenge.Query.Reply.{returned, >>=-eq-returned}
use talent_challenge.Query.Types.{t_int, t_float}
use talent_challenge.Query.Value.{Value, Float64, Columns, eval as eval_constant}
use talent_challenge.Query.Overload.{
  plus, minus, entries_of, bin_ops, first_fit, binary_check, binary_eval,
}
use talent_challenge.Query.Extend.{
  Extend, attribute, constant, binary, joined_type, return_type, eval,
}

-- The types of the arguments on which an operator has an entry, and the entry's type.
abbrev pub ResultType : (ltyp rtyp t : ℕ) → Type 0
ResultType ltyp rtyp t =
    ((ltyp ≡ t_int) × (rtyp ≡ t_int) × (t ≡ t_int))
    ⊎ (((ltyp ≡ t_int) × (rtyp ≡ t_float) × (t ≡ t_float))
        ⊎ ((ltyp ≡ t_float) × (rtyp ≡ t_int) × (t ≡ t_float)))

module _ {F : Type 0} (f : Float64 F) where
  binary_eval-type :
      (op ltyp rtyp : ℕ) (as' bs rs : List (Value F)) (t : ℕ)
      → binary_eval f op ltyp rtyp as' bs ≡ returned (rs, t)
      → ((op ≡ plus) ⊎ (op ≡ minus)) × ResultType ltyp rtyp t
  unfolding binary_eval bin_ops first_fit entries_of binary_check
  binary_eval-type op ltyp rtyp as' bs rs t h = ground (arith, h)

-- No operator of the expression has a float on its left and an int on its right, by `ReturnType`.
abbrev pub NoFloatInt : {F : Type 0} → Extend F → Type 0
NoFloatInt (attribute typ name) = Unit
NoFloatInt (constant v) = Unit
NoFloatInt (binary op left right) =
    NoFloatInt left × NoFloatInt right × ((return_type left ≡ t_float) → return_type right ≢ t_int)

module _ {F : Type 0} (f : Float64 F) where
  -- Where no operator has a float on its left and an int on its right, a column that `Eval` returns
  -- comes with the type that `ReturnType` announces.
  pub eval-return_type :
      (e : Extend F) (mp : Columns F) (vs : List (Value F)) (t : ℕ)
      → NoFloatInt e
      → eval f e mp ≡ returned (vs, t)
      → t ≡ return_type e
  unfolding eval return_type eval_constant joined_type
  eval-return_type (attribute typ name) mp vs t h e = ground (arith, e)
  eval-return_type (constant v) mp vs t h e = ground (arith, e)
  eval-return_type (binary op left right) mp vs t h e =
      let (l, el, e') = >>=-eq-returned (eval f left mp) _ e in
      let (r, er, e'') = >>=-eq-returned (eval f right mp) _ e' in
      let tl = eval-return_type left mp l.0 l.1 h.0 el in
      let tr = eval-return_type right mp r.0 r.1 h.1 er in
      let (known, entry) = binary_eval-type f op l.1 r.1 l.0 r.0 vs t e'' in
      ground (arith, known, entry, tl, tr, h.2)

  -- With a float on the left and an int on the right, `ReturnType` announces int, and every column
  -- that `Eval` returns comes with the type float.
  pub return_type_float_int :
      (op : ℕ) (left right : Extend F) (mp : Columns F) (vs : List (Value F)) (t : ℕ)
      → NoFloatInt left
      → NoFloatInt right
      → return_type left ≡ t_float
      → return_type right ≡ t_int
      → eval f (binary op left right) mp ≡ returned (vs, t)
      → (return_type (binary op left right) ≡ t_int) × (t ≡ t_float)
  unfolding eval return_type joined_type
  return_type_float_int op left right mp vs t hl hr tl tr e =
      let (l, el, e') = >>=-eq-returned (eval f left mp) _ e in
      let (r, er, e'') = >>=-eq-returned (eval f right mp) _ e' in
      let sl = eval-return_type left mp l.0 l.1 hl el in
      let sr = eval-return_type right mp r.0 r.1 hr er in
      let (known, entry) = binary_eval-type f op l.1 r.1 l.0 r.0 vs t e'' in
      ground (arith, known, entry, sl, sr, tl, tr)
