-- ===== src/Api/Client.antt =====
-- client/client.go: the client of the server. fasthttp's `Do` is a parameter, which may change the
-- world that the server is part of.
pub mod Network
pub mod Refines
pub mod Calls
pub mod Misread
pub mod Reports
use talent_challenge.Prelude.{
  ℕ, Bool, true, false, Option, none, some, List, [], ◌∷◌, ◌++◌, ◌==◌, if◌then◌else◌,
}
use talent_challenge.Prelude.Outcome.{Outcome, returns, panics, ◌>>=◌}
use talent_challenge.Prelude.Bytes.{Bytes}
use talent_challenge.Api.Base64.{decode_string}
use talent_challenge.Api.Model.{
  Try, failed, done, Request, Data, JsonResult, Json, must_marshal, must_unmarshal_result,
}
use talent_challenge.Api.Server.{Method, HttpResponse}

-- The errors: of the connection, `error code %d`, the text of a result, and of base64.
pub data ClientError : Type 0 where
  no_response : (message : Bytes) → ClientError
  error_code : (status : ℕ) → ClientError
  reported : (message : Bytes) → ClientError
  corrupt_input : ClientError

pub record ClientRequest : Type 0 where
  pub method : Method
  pub uri : Bytes
  pub body : Bytes

-- `httpClient`; `host_addr` is the `Addr` of its host client.
pub record HttpClient : Type 0 where
  pub url : Bytes
  pub addrs : List Bytes
  pub host_addr : Bytes

abbrev pub scheme : Bytes
scheme = b'h' ∷ b't' ∷ b't' ∷ b'p' ∷ b':' ∷ b'/' ∷ b'/' ∷ []

abbrev pub path : Bytes
path = b'/' ∷ b'k' ∷ b'v' ∷ []

-- `"%s?key=%s"` behind the first argument
abbrev pub key_query : Bytes → Bytes
key_query key = b'k' ∷ b'e' ∷ b'y' ∷ b'=' ∷ key

-- `strings.Join(addrs, ",")`
unfoldable pub join : List Bytes → Bytes
join [] = []
join (addr ∷ []) = addr
join (addr ∷ next ∷ addrs) = addr ++ b',' ∷ join (next ∷ addrs)

-- `New`; `addrs[0]` panics without an address.
unfoldable pub new : List Bytes → Outcome HttpClient
unfolding join
new [] = panics
new (addr ∷ addrs) =
    returns (record {
      url = scheme ++ addr ++ path;
      addrs = addr ∷ addrs;
      host_addr = join (addr ∷ addrs);
    })

-- `client.Do` in a world: an error's text, or a response
abbrev pub Do : Type 0 → Type 0
Do W = ClientRequest → W → Try Bytes HttpResponse × W

-- A call's result, and the world after it
abbrev pub Called : Type 0 → Type 0 → Type 0
Called A W = Outcome (Try ClientError A) × W

-- `Get` behind `doHTTP`; `res.Data.(string)` panics on other data.
unfoldable pub value_of : Data → Outcome (Try ClientError (Option Bytes))
unfolding decode_string
value_of Data.nil = returns (done none)
value_of (Data.text t) = elim (decode_string t) [
  | none ↦ returns (failed ClientError.corrupt_input)
  | some v ↦ returns (done (some v))
]
value_of (Data.slice b) = panics
value_of Data.other = panics

unfoldable pub get_result : Try ClientError JsonResult → Outcome (Try ClientError (Option Bytes))
unfolding value_of
get_result (failed e) = returns (failed e)
get_result (done res) = value_of res.json_data

-- `Set` returns the error of `doHTTP`, and `Delete` returns nil whatever it is.
unfoldable pub set_result : Try ClientError JsonResult → Try ClientError (Unit {0})
set_result (failed e) = failed e
set_result (done res) = done tt

unfoldable pub delete_result : Try ClientError JsonResult → Try ClientError (Unit {0})
delete_result res = done tt

module _ (json : Json) where
  -- `doHTTP` behind `Do`
  unfoldable pub read_response : Try Bytes HttpResponse → Outcome (Try ClientError JsonResult)
  unfolding must_unmarshal_result
  read_response (failed message) = returns (failed (ClientError.no_response message))
  read_response (done resp) =
      let parsed = (do
        result ← must_unmarshal_result json resp.body
        returns
            (if result.code == 0 then done result else failed (ClientError.reported result.err))) in
      if resp.status == 200 then parsed else returns (failed (ClientError.error_code resp.status))

  module _ {W : Type 0} (send : Do W) where
    unfoldable pub do_http : ClientRequest → W → Called JsonResult W
    unfolding read_response
    do_http req w = let (resp, after) = send req w in (read_response resp, after)

    unfoldable pub set : HttpClient → (key value : Bytes) → W → Called (Unit {0}) W
    unfolding do_http must_marshal set_result
    set c key value w =
        let r : Request = record { key = key; value = value } in
        let (res, after) =
          do_http (record { method = Method.post; uri = c.url; body = must_marshal json r }) w in
        (do result ← res; returns (set_result result), after)

    unfoldable pub get : HttpClient → (key : Bytes) → W → Called (Option Bytes) W
    unfolding do_http get_result
    get c key w =
        let (res, after) =
          do_http (record { method = Method.get; uri = c.url ++ b'?' ∷ key_query key; body = [] })
            w in
        (do result ← res; get_result result, after)

    unfoldable pub delete : HttpClient → (key : Bytes) → W → Called (Unit {0}) W
    unfolding do_http delete_result
    delete c key w =
        let (res, after) =
          do_http
            (record { method = Method.delete; uri = c.url ++ b'?' ∷ key_query key; body = [] }) w in
        (do result ← res; returns (delete_result result), after)
