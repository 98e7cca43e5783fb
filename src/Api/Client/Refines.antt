-- ===== src/Api/Client/Refines.antt =====
-- Each call of the client over a network that delivers it, on a server whose store is a map.
use talent_challenge.Prelude.{◌<◌, ◌≡◌, refl, ap, ◌∙◌, Option, none, some, [], ◌∷◌, All, arith}
use talent_challenge.Prelude.Outcome.{returns, ◌>>=◌}
use talent_challenge.Prelude.Bytes.{Bytes}
use talent_challenge.Api.Base64.{decode_string-encode}
use talent_challenge.Api.Url.Plain.{IsUnreserved, query-unreserved}
use talent_challenge.Api.Model.{
  done, Data, Json, IsAscii, IsLosslessJson, must_marshal, read_back, IsAsciiData,
}
use talent_challenge.Api.Store.{Store, IsMap}
use talent_challenge.Api.Server.{
  Method, kv_path, do_get, do_set, do_delete, reply, return_data, written, ok_text,
}
use talent_challenge.Api.Client.{
  HttpClient, key_query, new, Do, read_response, value_of, get_result, set_result, delete_result,
  set, get, delete,
}
use talent_challenge.Api.Client.Network.{
  IsDelivered, IsQuery-unreserved, read_response-reply, get-do_get, delete-do_delete, set-do_set,
}

-- Bytes are numbers below 256.
abbrev pub IsBytes : Bytes → Type 0
IsBytes v = All (λ b. b < 256) v

abbrev pub IsBytesOption : Option Bytes → Type 0
IsBytesOption none = Unit {0}
IsBytesOption (some v) = IsBytes v

pub IsBytes-ascii : (v : Bytes) → IsAscii v → IsBytes v
IsBytes-ascii [] h = tt
IsBytes-ascii (b ∷ bs) h = (omega (arith, h.0), IsBytes-ascii bs h.1)

module _ (S : Store) (m : IsMap S) (json : Json) (lossless : IsLosslessJson json) where
  do_get-holds :
      (k : Bytes) (w : S.State)
      → IsUnreserved k
      → do_get S json
          (record { method = Method.get; path = kv_path; raw_query = key_query k; body = [] })
          w
        ≡ (reply S json (return_data (Data.slice (m.holds w k))), (S.get k w).1)
  unfolding do_get
  do_get-holds k w h = rw (query-unreserved k h) (rw (m.get-holds k w).0 refl)

  value_of-read_back :
      (v : Option Bytes) → IsBytesOption v → value_of (read_back (Data.slice v)) ≡ returns (done v)
  unfolding value_of read_back
  value_of-read_back none h = refl
  value_of-read_back (some v) h = rw (value_of, decode_string-encode v h) refl

  get_result-slice :
      (v : Option Bytes)
      → IsBytesOption v
      → (read_response json (done (reply S json (return_data (Data.slice v)))) >>= λ res.
          get_result res)
        ≡ returns (done v)
  unfolding return_data get_result IsAsciiData
  get_result-slice v h =
      ap (λ o. o >>= λ res. get_result res)
        (read_response-reply S json lossless (return_data (Data.slice v)) tt tt)
      ∙ value_of-read_back v h

  do_delete-holds :
      (k : Bytes) (w : S.State)
      → IsUnreserved k
      → do_delete S json
          (record { method = Method.delete; path = kv_path; raw_query = key_query k; body = [] })
          w
        ≡ (reply S json (return_data (Data.text ok_text)), (S.delete k w).1)
  unfolding do_delete written
  do_delete-holds k w h = rw (query-unreserved k h) (rw (m.delete-holds k w).0 refl)

  do_set-holds :
      (k v : Bytes) (w : S.State)
      → IsAscii k
      → IsAscii v
      → do_set S json
          (record {
            method = Method.post;
            path = kv_path;
            raw_query = [];
            body = must_marshal json (record { key = k; value = v });
          })
          w
        ≡ (reply S json (return_data (Data.text ok_text)), (S.set k v w).1)
  unfolding do_set must_marshal written
  do_set-holds k v w hk hv =
      rw (do_set, must_marshal, lossless.bind-marshal_request (record { key = k; value = v }) hk hv)
        (rw (m.set-holds k v w).0 refl)

  read_ok_text :
      read_response json (done (reply S json (return_data (Data.text ok_text))))
      ≡ returns (done (return_data (Data.text ok_text)))
  unfolding return_data read_back IsAsciiData
  read_ok_text =
      read_response-reply S json lossless (return_data (Data.text ok_text))
        (omega arith, (omega arith, tt)) tt

  module _ (addr : Bytes) (send : Do S.State) (delivered : IsDelivered S json addr send)
      (c : HttpClient) (made : new (addr ∷ []) ≡ returns c) where
    pub get-holds :
        (k : Bytes) (w : S.State)
        → IsUnreserved k
        → IsBytesOption (m.holds w k)
        → get json send c k w ≡ (returns (done (m.holds w k)), (S.get k w).1)
    get-holds k w h bytes =
        get-do_get S json addr send delivered c made k w (IsQuery-unreserved k h)
        ∙ ap (λ r. ((read_response json (done r.0) >>= λ res. get_result res), r.1))
            (do_get-holds k w h)
        ∙ ap (λ o. (o, (S.get k w).1)) (get_result-slice (m.holds w k) bytes)

    pub delete-holds :
        (k : Bytes) (w : S.State)
        → IsUnreserved k
        → delete json send c k w ≡ (returns (done tt), (S.delete k w).1)
    unfolding delete_result
    delete-holds k w h =
        delete-do_delete S json addr send delivered c made k w (IsQuery-unreserved k h)
        ∙ ap (λ r. ((read_response json (done r.0) >>= λ res. returns (delete_result res)), r.1))
            (do_delete-holds k w h)
        ∙ ap (λ o. ((o >>= λ res. returns (delete_result res)), (S.delete k w).1)) read_ok_text

    pub set-holds :
        (k v : Bytes) (w : S.State)
        → IsAscii k
        → IsAscii v
        → set json send c k v w ≡ (returns (done tt), (S.set k v w).1)
    unfolding set_result
    set-holds k v w hk hv =
        set-do_set S json addr send delivered c made k v w
        ∙ ap (λ r. ((read_response json (done r.0) >>= λ res. returns (set_result res)), r.1))
            (do_set-holds k v w hk hv)
        ∙ ap (λ o. ((o >>= λ res. returns (set_result res)), (S.set k v w).1)) read_ok_text
