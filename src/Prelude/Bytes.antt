-- ===== src/Prelude/Bytes.antt =====
-- Byte slices as lists of numbers, Go's slice expressions, and encoding/binary's little endian.
use Prim.Native.Nat.{ℕ, zero, suc, ◌+◌, ◌-◌, ◌*◌, ◌/◌, ◌%◌, ◌^◌, ◌<◌}
use mathlib.Core.Path.{◌≡◌, refl, ap, sym, ◌∙◌}
use mathlib.Core.Logic.{◌↔◌}
use mathlib.Core.Bool.{Bool, true, false, ◌&&◌}
use mathlib.Core.List.{List, [], ◌∷◌, ◌++◌}
use native.Mathlib.Omega.{arith}
use talent_challenge.Prelude.Tests.{◌==◌, leb, le→leb}
use talent_challenge.Prelude.Lists.{
  length, take, drop, length-append, take-length-append, drop-length-append,
}
use talent_challenge.Prelude.Outcome.{Outcome, returns, ◌>>◌, check}

abbrev pub Bytes : Type 0
Bytes = List ℕ

unfoldable pub bytes_eq : Bytes → Bytes → Bool
bytes_eq [] [] = true
bytes_eq [] (b ∷ bs) = false
bytes_eq (a ∷ xs) [] = false
bytes_eq (a ∷ xs) (b ∷ bs) = a == b && bytes_eq xs bs

pub bytes_eq_iff : (a b : Bytes) → (bytes_eq a b ≡ true) ↔ (a ≡ b)
unfolding bytes_eq
bytes_eq_iff [] [] = ground arith
bytes_eq_iff [] (b ∷ bs) = ground arith
bytes_eq_iff (a ∷ xs) [] = ground arith
bytes_eq_iff (a ∷ xs) (b ∷ bs) = ground (arith, bytes_eq_iff xs bs)

pub bytes_eq_refl : (a : Bytes) → bytes_eq a a ≡ true
bytes_eq_refl a = (bytes_eq_iff a a).1 refl

-- `binary.LittleEndian.PutUint64` and its kin write the `w` low bytes, lowest first.
unfoldable pub le_bytes : ℕ → ℕ → Bytes
le_bytes zero n = []
le_bytes (suc w) n = n % 256 ∷ le_bytes w (n / 256)

unfoldable pub le_value : Bytes → ℕ
le_value [] = 0
le_value (b ∷ bs) = b + 256 * le_value bs

pub length-le_bytes : (w n : ℕ) → length (le_bytes w n) ≡ w
unfolding le_bytes
length-le_bytes zero n = refl
length-le_bytes (suc w) n = ap suc (length-le_bytes w (n / 256))

pub le_value-le_bytes : (w n : ℕ) → n < 256 ^ w → le_value (le_bytes w n) ≡ n
unfolding le_bytes le_value
le_value-le_bytes zero n h = omega arith
le_value-le_bytes (suc w) n h = omega (arith, le_value-le_bytes w (n / 256) (omega arith))

-- `xs[lo:hi]`. Capacity past the length is not modelled: a bound past the length is a panic.
unfoldable pub slice : ℕ → ℕ → Bytes → Outcome Bytes
slice lo hi xs = do check (leb lo hi && leb hi (length xs)); returns (take (hi - lo) (drop lo xs))

-- `xs[lo:]`
unfoldable pub slice_from : ℕ → Bytes → Outcome Bytes
slice_from lo xs = do check (leb lo (length xs)); returns (drop lo xs)

-- `binary.LittleEndian.Uint32(xs)` and `Uint64`, which read the first bytes and panic on fewer.
unfoldable pub read_le : ℕ → Bytes → Outcome ℕ
read_le w xs = do check (leb w (length xs)); returns (le_value (take w xs))

pub take-append_of_eq : (n : ℕ) (xs ys : Bytes) → n ≡ length xs → take n (xs ++ ys) ≡ xs
take-append_of_eq n xs ys h = rw h (take-length-append xs ys)

pub drop-append_of_eq : (n : ℕ) (xs ys : Bytes) → n ≡ length xs → drop n (xs ++ ys) ≡ ys
drop-append_of_eq n xs ys h = rw h (drop-length-append xs ys)

pub read_le-append :
    (w n : ℕ) (xs : Bytes) → n < 256 ^ w → read_le w (le_bytes w n ++ xs) ≡ returns n
unfolding read_le
read_le-append w n xs h =
    rw
      (le→leb w (length (le_bytes w n ++ xs))
        (omega (arith, length-append (le_bytes w n) xs, length-le_bytes w n)))
      (rw (take-append_of_eq w (le_bytes w n) xs (sym (length-le_bytes w n)))
        (ap returns (le_value-le_bytes w n h)))

-- The slice between two bounds that meet the pieces of a concatenation.
pub slice-append :
    (lo hi : ℕ) (xs ys zs : Bytes)
    → lo ≡ length xs
    → hi ≡ length xs + length ys
    → slice lo hi (xs ++ (ys ++ zs)) ≡ returns ys
unfolding slice
slice-append lo hi xs ys zs hlo hhi = rw (le→leb lo hi (omega arith)) (
    rw
      (le→leb hi (length (xs ++ (ys ++ zs)))
        (omega (arith, length-append xs (ys ++ zs), length-append ys zs)))
      (rw (drop-append_of_eq lo xs (ys ++ zs) hlo)
        (ap returns (take-append_of_eq (hi - lo) ys zs (omega arith)))))

pub slice_from-append :
    (lo : ℕ) (xs ys : Bytes) → lo ≡ length xs → slice_from lo (xs ++ ys) ≡ returns ys
unfolding slice_from
slice_from-append lo xs ys h =
    rw (le→leb lo (length (xs ++ ys)) (omega (arith, length-append xs ys)))
      (ap returns (drop-append_of_eq lo xs ys h))

-- Different numbers of one width have different bytes.
pub le_bytes_injective :
    (w m n : ℕ) → m < 256 ^ w → n < 256 ^ w → le_bytes w m ≡ le_bytes w n → m ≡ n
le_bytes_injective w m n hm hn e =
    sym (le_value-le_bytes w m hm) ∙ ap le_value e ∙ le_value-le_bytes w n hn
