-- ===== src/Api/Model.antt =====
-- model/request.go and model/api.go: what client and server send each other. encoding/json is a
-- parameter.
use talent_challenge.Prelude.{ℕ, ◌<◌, ◌≡◌, Option, none, some, All}
pub use talent_challenge.Prelude.Outcome.{Try, failed, done}
use talent_challenge.Prelude.Outcome.{Outcome, returns, panics}
use talent_challenge.Prelude.Bytes.{Bytes}
use talent_challenge.Api.Base64.{encode}

pub record Request : Type 0 where
  pub key : Bytes
  pub value : Bytes

-- The values that `Data interface{}` is given or decoded to; a nil slice is not a nil interface.
pub data Data : Type 0 where
  nil : Data
  text : Bytes → Data
  slice : Option Bytes → Data
  other : Data

pub record JsonResult : Type 0 where
  pub code : ℕ
  pub json_data : Data
  pub err : Bytes

-- encoding/json on the two types; `bind` is gin's `ShouldBindJSON`, which fails with a message.
pub record Json : Type 0 where
  pub marshal_request : Request → Bytes
  pub bind : Bytes → Try Bytes Request
  pub marshal_result : JsonResult → Bytes
  pub unmarshal_result : Bytes → Option JsonResult

-- What an interface value comes back as: a slice of bytes is written in base64, a nil one as null.
unfoldable pub read_back : Data → Data
read_back Data.nil = Data.nil
read_back (Data.text t) = Data.text t
read_back (Data.slice none) = Data.nil
read_back (Data.slice (some b)) = Data.text (encode b)
read_back Data.other = Data.other

abbrev pub IsAscii : Bytes → Type 0
IsAscii t = All (λ b. b < 128) t

unfoldable pub IsAsciiData : Data → Type 0
IsAsciiData (Data.text t) = IsAscii t
IsAsciiData d = Unit {0}

-- Texts of ASCII are read back as they were written.
pub record IsLosslessJson (json : Json) : Type 0 where
  pub bind-marshal_request :
      (r : Request)
      → IsAscii r.key
      → IsAscii r.value
      → json.bind (json.marshal_request r) ≡ Try.done r
  pub unmarshal_result-marshal_result :
      (r : JsonResult)
      → IsAsciiData r.json_data
      → IsAscii r.err
      → json.unmarshal_result (json.marshal_result r)
        ≡ some (record { code = r.code; json_data = read_back r.json_data; err = r.err })

unfoldable pub must_marshal : Json → Request → Bytes
must_marshal json r = json.marshal_request r

-- `log.Fatalf` ends the process, which counts as a panic.
unfoldable pub must_unmarshal_result : Json → Bytes → Outcome JsonResult
must_unmarshal_result json value = elim (json.unmarshal_result value) [
  | none ↦ panics
  | some r ↦ returns r
]
