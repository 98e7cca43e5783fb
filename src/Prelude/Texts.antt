-- ===== src/Prelude/Texts.antt =====
-- Texts: their equality as a test, and joining. A Go string that is text is a native `String`.
use Prim.Native.String.{String, compare, ◌++◌}
use Prim.Native.Nat.{Ordering}
use mathlib.Core.Bool.{Bool, true, false}
use mathlib.Core.Path.{◌≡◌, refl}
use mathlib.Core.Logic.{◌↔◌}
use text.Mathlib.TextEquality.{eq_iff}
use mathlib.Core.List.{List, [], ◌∷◌}

abbrev pub text_eq : String → String → Bool
text_eq a b = elim (compare a b) [ Ordering.eq ↦ true | _ ↦ false ]

pub text_eq_iff : (a b : String) → (text_eq a b ≡ true) ↔ (a ≡ b)
text_eq_iff a b = eq_iff a b

pub text_eq_refl : (a : String) → text_eq a a ≡ true
text_eq_refl a = (text_eq_iff a a).1 refl

-- The texts of a `+` chain, joined
unfoldable pub concat : List String → String
concat [] = ""
concat (s ∷ ss) = s ++ concat ss
