-- ===== src/Query/Reply.antt =====
-- What a call of the query engine comes to: a value, an error, or a panic.
use talent_challenge.Prelude.{ℕ, ◌≡◌, refl, ◌⊎◌, inl, inr, Option, none, some}
use talent_challenge.Prelude.Bytes.{Bytes}

-- A name of an attribute: Go compares strings byte by byte.
abbrev pub Name : Type 0
Name = Bytes

-- The errors of the engine, with what their messages mention.
pub data Failure : Type 0 where
  not_in : Name → Failure
  not_implemented : (op left right : ℕ) → Failure
  attribute_not_exist : Name → Failure
  must_act_on_attributes : Failure
  failed_to_find : Name → Failure

pub data Reply {ℓ} (A : Type ℓ) : Type ℓ where
  returned : A → Reply A
  failed : Failure → Reply A
  panicked : Reply A

infixl 5 ◌>>=◌ ◌>>◌
abbrev pub ◌>>=◌ {ℓ κ} : {A : Type ℓ} {B : Type κ} → Reply A → (A → Reply B) → Reply B
returned a >>= f = f a
failed e >>= f = failed e
panicked >>= f = panicked

abbrev pub ◌>>◌ {ℓ} : {B : Type ℓ} → Reply (Unit {0}) → Reply B → Reply B
m >> k = m >>= λ _. k

-- An error alone, as a reply.
abbrev pub unless_failed : Option Failure → Reply (Unit {0})
unless_failed none = returned tt
unless_failed (some e) = failed e

pub >>=-eq-returned {ℓ κ} :
    {A : Type ℓ} {B : Type κ} (m : Reply A) (f : A → Reply B) {b : B}
    → (m >>= f) ≡ returned b
    → (a : A) × (m ≡ returned a) × (f a ≡ returned b)
>>=-eq-returned (returned a) f h = (a, refl, h)
>>=-eq-returned (failed e) f h = cc
>>=-eq-returned panicked f h = cc

-- To split on a computed reply and keep the equation.
pub Reply-cases {ℓ} :
    {A : Type ℓ} (m : Reply A)
    → ((a : A) × (m ≡ returned a)) ⊎ (((e : Failure) × (m ≡ failed e)) ⊎ (m ≡ panicked))
Reply-cases (returned a) = inl (a, refl)
Reply-cases (failed e) = inr (inl (e, refl))
Reply-cases panicked = inr (inr refl)
