-- ===== src/Query/Print.antt =====
-- The texts of vm/value, vm/extend and vm/op: `String` of values and expressions, and `Name` of
-- operators. The formats of a float64 are a parameter.
use talent_challenge.Prelude.{
  ℕ, zero, suc, ◌-◌, ◌/◌, ◌%◌, ◌+◌, ◌^◌, ◌≡◌, sym, Bool, [], ◌∷◌, ◌++◌, ltb, ◌==◌, ◌&&◌,
  append_assoc, if◌then◌else◌,
}
use talent_challenge.Prelude.Bytes.{Bytes}
use talent_challenge.Query.Value.{Value, int, float}
use talent_challenge.Query.Overload.{plus, minus}
use talent_challenge.Query.Extend.{Extend, attribute, constant, binary}
use talent_challenge.Query.Projection.{Op, relation, projection}

-- What `Float.String` uses: whether the number is whole and strictly between a million and its
-- negative, and the formats `%.1f` and `%g`.
pub record FloatFormat (F : Type 0) : Type 0 where
  pub is_whole : F → Bool
  pub is_small : F → Bool
  pub with_one_digit : F → Bytes
  pub shortest : F → Bytes

-- The decimal digits of a number below ten to the fuel, in front of other digits
unfoldable pub digits : (fuel : ℕ) → ℕ → Bytes → Bytes
digits zero n bs = bs
digits (suc fuel) n bs =
    let rest = digits fuel (n / 10) ((n % 10 + 48) ∷ bs) in if ltb n 10 then (n + 48) ∷ bs else rest

-- `strconv.FormatInt` in base 10, on the 64 bits of an int64
unfoldable pub format_int : ℕ → Bytes
unfolding digits
format_int x = if ltb x (2 ^ 63) then digits 20 x [] else b'-' ∷ digits 20 (2 ^ 64 - x) []

abbrev parens : Bytes → Bytes
parens text = b'(' ∷ text ++ b')' ∷ []

module _ {F : Type 0} (format : FloatFormat F) where
  unfoldable pub value_text : Value F → Bytes
  unfolding format_int
  value_text (int x) = format_int x
  value_text (float x) =
      if format.is_whole x && format.is_small x then format.with_one_digit x else format.shortest x

  unfoldable pub to_text : Extend F → Bytes
  unfolding value_text
  to_text (attribute typ name) = name
  to_text (constant v) = value_text v
  to_text (binary op left right) =
      let l = to_text left in
      let r = to_text right in
      if op == plus
      then l ++ b' ' ∷ b'+' ∷ b' ' ∷ r
      else if op == minus
      then l ++ b' ' ∷ b'-' ∷ b' ' ∷ r
      else []

  -- `String` of a `ParenExtend`
  unfoldable pub paren_text : Extend F → Bytes
  unfolding to_text
  paren_text e = parens (to_text e)

  -- A difference of a difference prints like the difference that associates to the left.
  to_text-minus :
      (a b c : Extend F)
      → to_text (binary minus a (binary minus b c)) ≡ to_text (binary minus (binary minus a b) c)
  unfolding to_text
  to_text-minus a b c =
      sym
        (append_assoc (to_text a) (b' ' ∷ b'-' ∷ b' ' ∷ to_text b) (b' ' ∷ b'-' ∷ b' ' ∷ to_text c))

-- `Name` of the operators
unfoldable pub op_name : {F : Type 0} → Op F → Bytes
op_name (relation seg r) = b'R' ∷ []
op_name (projection is_check prev es) = op_name prev
