-- ===== src/Examples/Api.antt =====
-- A JSON package and a network that keep to what the client relies on, and calls over them.
use talent_challenge.Prelude.{
  ℕ, ◌<◌, ◌≡◌, refl, ap, ◌∙◌, Bool, Option, none, some, List, [], ◌∷◌, ◌++◌, arith, ◌/◌, ◌%◌, ◌*◌,
  ◌+◌, ◌==◌, if◌then◌else◌,
}
use talent_challenge.Prelude.Outcome.{returns}
use talent_challenge.Prelude.Bytes.{Bytes}
use talent_challenge.Api.Base64.{encode, digit}
use talent_challenge.Api.Url.{cut}
use talent_challenge.Api.Url.Plain.{is_unreserved}
use talent_challenge.Api.Model.{
  Try, failed, done, Request, Data, JsonResult, Json, IsAscii, IsAsciiData, IsLosslessJson,
  read_back,
}
use talent_challenge.Api.Store.{Store, memory_store, memory_map}
use talent_challenge.Api.Server.{serve, kv_path}
use talent_challenge.Api.Client.{ClientError, HttpClient, new, Do, set, get, delete}
use talent_challenge.Api.Client.Network.{IsDelivered}
use talent_challenge.Api.Client.Calls.{Call, IsPlain, answers, call_all, call_all-answers}
use talent_challenge.Api.Client.Misread.{get-ampersand}
use talent_challenge.Api.Client.Reports.{set-reported}
use talent_challenge.Store.Memory.{lookup, new_memory_store}

-- A text ends in 255.
abbrev mark : ℕ
mark = 255

abbrev is_mark : ℕ → Bool
is_mark c = c == mark

cut-ascii : (t rest : Bytes) → IsAscii t → cut is_mark (t ++ mark ∷ rest) ≡ (t, some rest)
unfolding cut
cut-ascii [] rest h = refl
cut-ascii (b ∷ bs) rest h = ground (arith, h.0, cut-ascii bs rest h.1)

digit-ascii : (n : ℕ) → digit n < 128
unfolding digit
digit-ascii n = ground arith

encode-IsAscii : (xs : Bytes) → IsAscii (encode xs)
unfolding encode
encode-IsAscii [] = tt
encode-IsAscii (a ∷ []) =
    (digit-ascii (a / 4), (digit-ascii (a % 4 * 16), (omega arith, (omega arith, tt))))
encode-IsAscii (a ∷ b ∷ []) = (
  digit-ascii (a / 4),
  (digit-ascii (a % 4 * 16 + b / 16), (digit-ascii (b % 16 * 4), (omega arith, tt))),
)
encode-IsAscii (a ∷ b ∷ c ∷ xs) = (
  digit-ascii (a / 4),
  (
    digit-ascii (a % 4 * 16 + b / 16),
    (digit-ascii (b % 16 * 4 + c / 64), (digit-ascii (c % 64), encode-IsAscii xs)),
  ),
)

abbrev tag_of : Data → ℕ
tag_of Data.nil = 0
tag_of (Data.text t) = 1
tag_of (Data.slice none) = 0
tag_of (Data.slice (some b)) = 1
tag_of Data.other = 2

abbrev text_of : Data → Bytes
text_of Data.nil = []
text_of (Data.text t) = t
text_of (Data.slice none) = []
text_of (Data.slice (some b)) = encode b
text_of Data.other = []

abbrev data_of : ℕ → Bytes → Data
data_of n t = if n == 0 then Data.nil else if n == 1 then Data.text t else Data.other

abbrev second : Bytes → Option Bytes → Option (Bytes × Bytes)
second t none = none
second t (some rest) = some (t, (cut is_mark rest).0)

-- Two texts that end in marks
two_texts : Bytes → Option (Bytes × Bytes)
unfolding cut
two_texts bytes = let first = cut is_mark bytes in second first.0 first.1

two_texts-ascii :
    (t u : Bytes) → IsAscii t → IsAscii u → two_texts (t ++ mark ∷ (u ++ mark ∷ [])) ≡ some (t, u)
unfolding two_texts cut
two_texts-ascii t u ht hu =
    ap (λ first. second first.0 first.1) (cut-ascii t (u ++ mark ∷ []) ht)
    ∙ ap (λ rest. some (t, rest.0)) (cut-ascii u [] hu)

text_of-IsAscii : (d : Data) → IsAsciiData d → IsAscii (text_of d)
unfolding IsAsciiData
text_of-IsAscii Data.nil h = tt
text_of-IsAscii (Data.text t) h = h
text_of-IsAscii (Data.slice none) h = tt
text_of-IsAscii (Data.slice (some b)) h = encode-IsAscii b
text_of-IsAscii Data.other h = tt

data_of-tag_of : (d : Data) → data_of (tag_of d) (text_of d) ≡ read_back d
unfolding read_back
data_of-tag_of Data.nil = refl
data_of-tag_of (Data.text t) = refl
data_of-tag_of (Data.slice none) = refl
data_of-tag_of (Data.slice (some b)) = refl
data_of-tag_of Data.other = refl

abbrev bound : Option (Bytes × Bytes) → Try Bytes Request
bound none = failed []
bound (some (k, v)) = done (record { key = k; value = v })

abbrev result_of : (code tag : ℕ) → Option (Bytes × Bytes) → Option JsonResult
result_of code tag none = none
result_of code tag (some (t, e)) = some (record { code = code; json_data = data_of tag t; err = e })

abbrev read_result : Bytes → Option JsonResult
read_result [] = none
read_result (code ∷ []) = none
read_result (code ∷ tag ∷ rest) = result_of code tag (two_texts rest)

abbrev json : Json
json = record {
  marshal_request = λ r. r.key ++ mark ∷ (r.value ++ mark ∷ []);
  bind = λ body. bound (two_texts body);
  marshal_result =
      λ r. r.code ∷ tag_of r.json_data ∷ (text_of r.json_data ++ mark ∷ (r.err ++ mark ∷ []));
  unmarshal_result = read_result;
}

json-IsLossless : IsLosslessJson json
json-IsLossless = record {
  bind-marshal_request = λ r hk hv. ap bound (two_texts-ascii r.key r.value hk hv);
  unmarshal_result-marshal_result = λ r hd he.
      ap (result_of r.code (tag_of r.json_data))
        (two_texts-ascii (text_of r.json_data) r.err (text_of-IsAscii r.json_data hd) he)
      ∙ ap (λ d. some (record { code = r.code; json_data = d; err = r.err }))
          (data_of-tag_of r.json_data);
}

-- A network that takes the query behind the first question mark of a URI
abbrev is_question : ℕ → Bool
is_question c = c == b'?'

abbrev query_part : Option Bytes → Bytes
query_part none = []
query_part (some q) = q

send : (S : Store) → Do S.State
unfolding serve cut
send S req w =
    let parts = cut is_question req.uri in
    let r =
      serve S json
        (record {
          method = req.method;
          path = kv_path;
          raw_query = query_part parts.1;
          body = req.body;
        })
        w in
    (done r.0, r.1)

abbrev addr : Bytes
addr = b'h' ∷ []

send-IsDelivered : (S : Store) → IsDelivered S json addr (send S)
unfolding send
send-IsDelivered S = record { without_query = λ m body w. refl; with_query = λ m q body w h. refl }

abbrev client : HttpClient
client = record {
  url = b'h' ∷ b't' ∷ b't' ∷ b'p' ∷ b':' ∷ b'/' ∷ b'/' ∷ b'h' ∷ b'/' ∷ b'k' ∷ b'v' ∷ [];
  addrs = addr ∷ [];
  host_addr = addr;
}

new-client : new (addr ∷ []) ≡ returns client
unfolding new
new-client = refl

abbrev calls : List Call
calls =
    Call.set (b'a' ∷ []) (b'x' ∷ [])
    ∷ Call.get (b'a' ∷ [])
    ∷ Call.delete (b'a' ∷ [])
    ∷ Call.get (b'a' ∷ [])
    ∷ []

call_all-answers_example :
    (call_all json (send memory_store) client calls new_memory_store).0 ≡ answers calls (λ k. none)
unfolding IsPlain is_unreserved new_memory_store memory_map lookup
call_all-answers_example =
    call_all-answers memory_store memory_map json json-IsLossless addr (send memory_store)
      (send-IsDelivered memory_store) client new-client calls new_memory_store (λ k. none)
      (((omega arith, tt), (omega arith, tt)), ((refl, tt), ((refl, tt), ((refl, tt), tt))))
      (λ k. refl) (λ k. tt)

get-ampersand_example :
    (get json (send memory_store) client (b'a' ∷ b'&' ∷ b'b' ∷ []) new_memory_store
      ≡ get json (send memory_store) client (b'a' ∷ []) new_memory_store)
    × (delete json (send memory_store) client (b'a' ∷ b'&' ∷ b'b' ∷ []) new_memory_store
        ≡ delete json (send memory_store) client (b'a' ∷ []) new_memory_store)
unfolding is_unreserved
get-ampersand_example =
    get-ampersand memory_store json addr (send memory_store) (send-IsDelivered memory_store) client
      new-client (b'a' ∷ []) (b'b' ∷ []) new_memory_store (refl, tt) (refl, tt)

-- A store that fails
abbrev broken : Store
broken = record {
  State = Unit {0};
  Error = Unit {0};
  message = λ e. b'n' ∷ b'o' ∷ [];
  set = λ k v s. (some tt, s);
  get = λ k s. (failed tt, s);
  delete = λ k s. (some tt, s);
}

set-reported_example :
    (set json (send broken) client (b'a' ∷ []) (b'x' ∷ []) tt
      ≡ (returns (failed (ClientError.reported (b'n' ∷ b'o' ∷ []))), tt))
    × (get json (send broken) client (b'a' ∷ []) tt
        ≡ (returns (failed (ClientError.reported (b'n' ∷ b'o' ∷ []))), tt))
    × (delete json (send broken) client (b'a' ∷ []) tt ≡ (returns (done tt), tt))
unfolding is_unreserved
set-reported_example =
    let ascii : IsAscii (b'n' ∷ b'o' ∷ []) = (omega arith, (omega arith, tt)) in
    set-reported broken json json-IsLossless addr (send broken) (send-IsDelivered broken) client
      new-client (b'a' ∷ []) (b'x' ∷ []) tt tt tt tt (refl, tt) (omega arith, tt)
      (ascii, ascii, ascii) refl refl refl
