-- ===== src/Api/Url/Plain.antt =====
-- Queries whose value needs no escape, alone and in front of an ampersand.
use talent_challenge.Prelude.{
  ℕ, ◌≡◌, refl, Bool, true, false, some, [], ◌∷◌, ◌++◌, All, arith, leb, ◌==◌, ◌&&◌, ◌||◌,
}
use talent_challenge.Prelude.Bytes.{Bytes, bytes_eq}
use talent_challenge.Api.Url.{
  ampersand, is_separator, split, Mode, unescape_byte, unescape_from, pair_value, query,
}
use talent_challenge.Api.Server.{key_name}
use talent_challenge.Api.Client.{key_query}

-- The characters that RFC 3986 calls unreserved: letters, digits, and four marks
unfoldable pub is_unreserved : ℕ → Bool
is_unreserved x =
    (leb 97 x && leb x 122)
    || (leb 65 x && leb x 90)
    || (leb 48 x && leb x 57)
    || (x == 45)
    || (x == 46)
    || (x == 95)
    || (x == 126)

abbrev pub IsUnreserved : Bytes → Type 0
IsUnreserved k = All (λ x. is_unreserved x ≡ true) k

is_separator-unreserved : (x : ℕ) → is_unreserved x ≡ true → is_separator x ≡ false
unfolding is_unreserved
is_separator-unreserved x h = ground arith

unescape_byte-unreserved :
    (x : ℕ) → is_unreserved x ≡ true → unescape_byte Mode.plain x ≡ some (x ∷ [], Mode.plain)
unfolding unescape_byte is_unreserved
unescape_byte-unreserved x h = ground arith

unescape_from-unreserved : (k : Bytes) → IsUnreserved k → unescape_from Mode.plain k ≡ some k
unfolding unescape_from
unescape_from-unreserved [] h = refl
unescape_from-unreserved (x ∷ xs) h =
    rw (unescape_from, unescape_byte-unreserved x h.0) (rw (unescape_from-unreserved xs h.1) refl)

split-unreserved : (k : Bytes) → IsUnreserved k → split is_separator k ≡ (k, [])
unfolding split
split-unreserved [] h = refl
split-unreserved (x ∷ xs) h = rw (is_separator-unreserved x h.0) (rw (split-unreserved xs h.1) refl)

split-ampersand :
    (k b : Bytes)
    → IsUnreserved k
    → split is_separator (k ++ ampersand ∷ b)
      ≡ (k, (split is_separator b).0 ∷ (split is_separator b).1)
unfolding split
split-ampersand [] b h = refl
split-ampersand (x ∷ xs) b h =
    rw (is_separator-unreserved x h.0) (rw (split-ampersand xs b h.1) refl)

pair_value-key_query : (k : Bytes) → IsUnreserved k → pair_value key_name (key_query k) ≡ some k
unfolding pair_value bytes_eq
pair_value-key_query k h = rw (unescape_from-unreserved k h) refl

pub query-unreserved : (k : Bytes) → IsUnreserved k → query key_name (key_query k) ≡ k
unfolding query bytes_eq
query-unreserved k h = rw (split-unreserved k h) (rw (unescape_from-unreserved k h) refl)

pub query-ampersand :
    (k b : Bytes) → IsUnreserved k → query key_name (key_query (k ++ ampersand ∷ b)) ≡ k
unfolding query bytes_eq
query-ampersand k b h = rw (split-ampersand k b h) (rw (unescape_from-unreserved k h) refl)
