-- ===== src/Query/Overload.antt =====
-- vm/extend/overload: the operators and the types that they are defined on.
use talent_challenge.Prelude.{ℕ, Bool, Option, none, some, List, [], ◌∷◌, ◌==◌, ◌&&◌, if◌then◌else◌}
use talent_challenge.Query.Reply.{Reply, returned, failed, panicked, not_implemented, ◌>>=◌}
use talent_challenge.Query.Types.{t_int, t_float}
use talent_challenge.Query.Value.{
  Value, Float64, int, float, int64_plus, int64_minus, must_be_int, must_be_float,
}

abbrev pub plus : ℕ
plus = 0

abbrev pub minus : ℕ
minus = 1

pub record BinOp (F : Type 0) : Type 0 where
  pub left_type : ℕ
  pub right_type : ℕ
  pub return_type : ℕ
  pub fn : List (Value F) → List (Value F) → Reply (List (Value F))

-- The loop of each `Fn`, over the indices of `as`: `bs[i]` panics past the end of `bs`.
unfoldable pub each :
    {F : Type 0}
    → (Value F → Value F → Reply (Value F))
    → List (Value F)
    → List (Value F)
    → Reply (List (Value F))
each g [] bs = returned []
each g (a ∷ as') [] = panicked
each g (a ∷ as') (b ∷ bs) = do r ← g a b; rs ← each g as' bs; returned (r ∷ rs)

unfoldable pub on_ints : {F : Type 0} → (ℕ → ℕ → ℕ) → Value F → Value F → Reply (Value F)
on_ints g a b = do x ← must_be_int a; y ← must_be_int b; returned (int (g x y))

-- `binaryCheck`; it does not look at the operator.
unfoldable pub binary_check : (arg0 arg1 val0 val1 : ℕ) → Bool
binary_check arg0 arg1 val0 val1 = (arg0 == val0) && (arg1 == val1)

module _ {F : Type 0} (f : Float64 F) where
  unfoldable pub on_int_float : (F → F → F) → Value F → Value F → Reply (Value F)
  on_int_float g a b = do
    x ← must_be_int a
    y ← must_be_float b
    returned (float (g (f.of_int64 x) y))

  unfoldable pub on_float_int : (F → F → F) → Value F → Value F → Reply (Value F)
  on_float_int g a b = do
    x ← must_be_float a
    y ← must_be_int b
    returned (float (g x (f.of_int64 y)))

  -- The three entries of an operator
  unfoldable pub entries_of : (ℕ → ℕ → ℕ) → (F → F → F) → List (BinOp F)
  entries_of on_int on_float =
      record {
        left_type = t_int;
        right_type = t_int;
        return_type = t_int;
        fn = each (on_ints on_int);
      }
      ∷ record {
        left_type = t_int;
        right_type = t_float;
        return_type = t_float;
        fn = each (on_int_float on_float);
      }
      ∷ record {
        left_type = t_float;
        right_type = t_int;
        return_type = t_float;
        fn = each (on_float_int on_float);
      }
      ∷ []

  -- The map `BinOps`
  unfoldable pub bin_ops : ℕ → Option (List (BinOp F))
  bin_ops op =
      if op == plus
      then some (entries_of int64_plus f.plus)
      else if op == minus
      then some (entries_of int64_minus f.minus)
      else none

  -- The loop over the entries of an operator
  unfoldable pub first_fit :
      (op ltyp rtyp : ℕ)
      → List (BinOp F)
      → List (Value F)
      → List (Value F)
      → Reply (List (Value F) × ℕ)
  first_fit op ltyp rtyp [] as' bs = failed (not_implemented op ltyp rtyp)
  first_fit op ltyp rtyp (o ∷ os) as' bs =
      let rest = first_fit op ltyp rtyp os as' bs in
      let run = (do rs ← o.fn as' bs; returned (rs, o.return_type)) in
      if binary_check o.left_type o.right_type ltyp rtyp then run else rest

  -- `BinaryEval`; for an operator that is none of the two, the message indexes `OpName` out of range.
  unfoldable pub binary_eval :
      (op ltyp rtyp : ℕ) → List (Value F) → List (Value F) → Reply (List (Value F) × ℕ)
  binary_eval op ltyp rtyp as' bs = elim (bin_ops op) [
    | none ↦ panicked
    | some os ↦ first_fit op ltyp rtyp os as' bs
  ]
