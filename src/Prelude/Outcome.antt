-- ===== src/Prelude/Outcome.antt =====
-- What a Go call comes to: it returns, it panics, or its model ran out of fuel. A function of two
-- results, a value and an `error`, returns a `Result`; an `error` alone is an `Option Error`.
use mathlib.Core.Path.{◌≡◌, refl}
use mathlib.Core.Logic.{◌≢◌}
use mathlib.Core.Bool.{Bool, true, false}
use Prim.Native.Nat.{ℕ}

-- The errors that the repository declares or passes on. `io` is any error of the key-value
-- library but its "not found", and `raft_proto` one of the message library.
pub data Error : Type 0 where
  not_found pebble_not_found unknown_modify lost_read_response : Error
  io : ℕ → Error
  bad_message : Error
  compacted unavailable snapshot_temporarily_unavailable : Error
  low_above_high high_out_of_bound : Error
  no_snapshot : ℕ → Error

pub data Result {ℓ} (A : Type ℓ) : Type ℓ where
  ok : A → Result A
  err : Error → Result A

-- A value, or an error of a type of its own
pub data Try (E A : Type 0) : Type 0 where
  failed : E → Try E A
  done : A → Try E A

pub data Outcome {ℓ} (A : Type ℓ) : Type ℓ where
  returns : A → Outcome A
  panics : Outcome A
  diverges : Outcome A

infixl 5 ◌>>=◌ ◌>>◌
abbrev pub ◌>>=◌ {ℓ κ} : {A : Type ℓ} {B : Type κ} → Outcome A → (A → Outcome B) → Outcome B
returns a >>= f = f a
panics >>= f = panics
diverges >>= f = diverges

abbrev pub ◌>>◌ {ℓ} : {B : Type ℓ} → Outcome (Unit {0}) → Outcome B → Outcome B
m >> k = m >>= λ _. k

-- An index or a slice bound that Go checks at run time.
abbrev pub check : Bool → Outcome (Unit {0})
check true = returns tt
check false = panics

pub >>=-eq-returns {ℓ κ} :
    {A : Type ℓ} {B : Type κ} (m : Outcome A) (f : A → Outcome B) {b : B}
    → (m >>= f) ≡ returns b
    → (a : A) × (m ≡ returns a) × (f a ≡ returns b)
>>=-eq-returns (returns a) f h = (a, refl, h)
>>=-eq-returns panics f h = cc
>>=-eq-returns diverges f h = cc

pub >>=-ne-diverges {ℓ κ} :
    {A : Type ℓ} {B : Type κ} (m : Outcome A) (f : A → Outcome B)
    → m ≢ diverges
    → ((a : A) → m ≡ returns a → f a ≢ diverges)
    → (m >>= f) ≢ diverges
>>=-ne-diverges (returns a) f hm hf h = hf a refl h
>>=-ne-diverges panics f hm hf h = cc
>>=-ne-diverges diverges f hm hf h = hm refl

pub returns-injective {ℓ} : {A : Type ℓ} {a b : A} → returns a ≡ returns b → a ≡ b
returns-injective h = cc
