-- ===== src/Vendor/Codec.antt =====
-- Marshalling of one message type by github.com/golang/protobuf/proto.
use talent_challenge.Prelude.{◌≡◌, Option, some}
use talent_challenge.Prelude.Bytes.{Bytes}

-- `none` is an error of the package.
pub record Codec (A : Type 0) : Type 0 where
  pub marshal : A → Option Bytes
  pub unmarshal : Bytes → Option A

-- The documented behaviour: a message of the program marshals, and comes back from its bytes.
pub record IsLossless {A : Type 0} (c : Codec A) : Type 0 where
  pub round_trip : (a : A) → (b : Bytes) × (c.marshal a ≡ some b) × (c.unmarshal b ≡ some a)
