-- ===== src/Examples/Numbers.antt =====
-- Natural numbers with a NaN, as the floats of the examples.
use talent_challenge.Prelude.{
  ℕ, ◌+◌, ◌-◌, ◌≡◌, refl, ◌⊎◌, inl, inr, Bool, true, false, Option, none, some, arith, ltb, ◌==◌,
}
use talent_challenge.Query.Value.{Float64}
use talent_challenge.Query.Value.Order.{IsIeee}

abbrev pub Number : Type 0
Number = Option ℕ

abbrev pub lift : (ℕ → ℕ → ℕ) → Number → Number → Number
lift g (some x) (some y) = some (g x y)
lift g (some x) none = none
lift g none y = none

abbrev pub tested : (ℕ → ℕ → Bool) → Number → Number → Bool
tested g (some x) (some y) = g x y
tested g (some x) none = false
tested g none y = false

abbrev pub nan : Number → Bool
nan none = true
nan (some x) = false

abbrev pub numbers : Float64 Number
numbers = record {
  plus = lift (λ x y. x + y);
  minus = lift (λ x y. x - y);
  of_int64 = λ n. some n;
  less = tested ltb;
  equal = tested (λ x y. x == y);
  is_nan = nan;
}

numbers-unordered :
    (x y : Number)
    → (nan x ≡ true) ⊎ (nan y ≡ true)
    → (tested ltb x y ≡ false) × (tested (λ x y. x == y) x y ≡ false)
numbers-unordered none y h = (refl, refl)
numbers-unordered (some x) none h = (refl, refl)
numbers-unordered (some x) (some y) (inl h) = absurd cc
numbers-unordered (some x) (some y) (inr h) = absurd cc

numbers-asymmetric : (x y : Number) → tested ltb x y ≡ true → tested ltb y x ≡ false
numbers-asymmetric none y h = absurd cc
numbers-asymmetric (some x) none h = absurd cc
numbers-asymmetric (some x) (some y) h = ground (arith, h)

numbers-total :
    (x y : Number)
    → nan x ≡ false
    → nan y ≡ false
    → tested ltb x y ≡ false
    → tested ltb y x ≡ false
    → tested (λ x y. x == y) x y ≡ true
numbers-total none y hx hy l g = absurd cc
numbers-total (some x) none hx hy l g = absurd cc
numbers-total (some x) (some y) hx hy l g = ground (arith, l, g)

pub numbers-IsIeee : IsIeee numbers
numbers-IsIeee = record {
  unordered = numbers-unordered;
  asymmetric = numbers-asymmetric;
  total = numbers-total;
}
