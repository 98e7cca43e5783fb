-- ===== src/Query/Value/Order.antt =====
-- The order of vm/value: `Compare` on two values and on the same two the other way round.
use talent_challenge.Prelude.{ℕ, ◌≡◌, refl, ◌⊎◌, true, false, ◌==◌, arith, if◌then◌else◌}
use talent_challenge.Query.Reply.{returned, panicked}
use talent_challenge.Query.Value.{
  Value, Float64, Compared, before, same, after, int, float, int64_less, is_num, compare_value,
  compare, resolved_type,
}

-- What IEEE 754 says of the comparisons: a NaN is in no relation, and of two other numbers one is
-- less or they are equal.
pub record IsIeee {F : Type 0} (f : Float64 F) : Type 0 where
  pub unordered :
      (x y : F)
      → (f.is_nan x ≡ true) ⊎ (f.is_nan y ≡ true)
      → (f.less x y ≡ false) × (f.equal x y ≡ false)
  pub asymmetric : (x y : F) → f.less x y ≡ true → f.less y x ≡ false
  pub total :
      (x y : F)
      → f.is_nan x ≡ false
      → f.is_nan y ≡ false
      → f.less x y ≡ false
      → f.less y x ≡ false
      → f.equal x y ≡ true

abbrev pub flip : Compared → Compared
flip before = after
flip same = same
flip after = before

int64_less-asymmetric : (x y : ℕ) → int64_less x y ≡ true → int64_less y x ≡ false
unfolding int64_less
int64_less-asymmetric x y h = ground (arith, h)

module _ {F : Type 0} (f : Float64 F) (ieee : IsIeee f) where
  -- `Compare` panics exactly on values of two types. On two values of one type it is the converse of
  -- itself with the arguments exchanged, a NaN included.
  compare-flip :
      (a b : Value F)
      → (((resolved_type a).oid == (resolved_type b).oid) ≡ false → compare f a b ≡ panicked)
        × (((resolved_type a).oid == (resolved_type b).oid) ≡ true
            → (c : Compared) × (compare f a b ≡ returned c) × (compare f b a ≡ returned (flip c)))
  unfolding compare compare_value is_num
  compare-flip (int x) (int y) = (
    λ h. absurd cc,
    λ h. (
      (if int64_less x y then before else if int64_less y x then after else same),
      refl,
      ground (arith, int64_less-asymmetric x y),
    ),
  )
  compare-flip (int x) (float y) = (λ h. refl, λ h. absurd cc)
  compare-flip (float x) (int y) = (λ h. refl, λ h. absurd cc)
  compare-flip (float x) (float y) = (
    λ h. absurd cc,
    λ h. (
      (if f.less x y
          then before
          else if f.less y x
          then after
          else if f.equal x y
          then same
          else if f.is_nan x
          then (if f.is_nan y then same else before)
          else after),
      refl,
      ground (
        arith,
        ieee.asymmetric x y,
        ieee.total x y,
        ieee.total y x,
        ieee.unordered x y,
        ieee.unordered y x,
      ),
    ),
  )
