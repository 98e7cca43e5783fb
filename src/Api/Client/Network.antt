-- ===== src/Api/Client/Network.antt =====
-- What the client relies on: its requests reach the server's engine. Each call is then the server's
-- handler on the store.
use talent_challenge.Prelude.{
  ℕ, ◌≡◌, refl, sym, ap, ◌∙◌, Bool, true, false, [], ◌∷◌, ◌++◌, All, ◌==◌, ◌||◌, if◌then◌else◌,
}
use talent_challenge.Prelude.Outcome.{returns, ◌>>=◌, returns-injective}
use talent_challenge.Prelude.Bytes.{Bytes, bytes_eq}
use talent_challenge.Api.Url.Plain.{is_unreserved, IsUnreserved}
use talent_challenge.Api.Model.{
  failed, done, JsonResult, Json, must_marshal, must_unmarshal_result, read_back, IsAscii,
  IsAsciiData, IsLosslessJson,
}
use talent_challenge.Api.Store.{Store}
use talent_challenge.Api.Server.{Method, kv_path, serve, do_get, do_set, do_delete, reply}
use talent_challenge.Api.Client.{
  ClientError, HttpClient, scheme, path, key_query, new, Do, read_response, get_result, set_result,
  delete_result, do_http, set, get, delete,
}

-- The characters that RFC 3986 allows in a query: these, and the unreserved ones
abbrev reserved : Bytes
reserved =
    b'%' ∷ b'!' ∷ b'$' ∷ b'&' ∷ b'\'' ∷ b'(' ∷ b')' ∷ b'*' ∷ b'+' ∷ b',' ∷ b';' ∷ b'=' ∷ b':' ∷ b'@'
    ∷ b'/' ∷ b'?' ∷ []

abbrev is_one_of : ℕ → Bytes → Bool
is_one_of x [] = false
is_one_of x (c ∷ cs) = (x == c) || is_one_of x cs

abbrev pub IsQuery : Bytes → Type 0
IsQuery q = All (λ x. (is_unreserved x || is_one_of x reserved) ≡ true) q

unfoldable pub IsQuery-unreserved : (k : Bytes) → IsUnreserved k → IsQuery k
IsQuery-unreserved [] h = tt
IsQuery-unreserved (x ∷ xs) h = (rw h.0 refl, IsQuery-unreserved xs h.1)

pub IsQuery-key_query : (q : Bytes) → IsQuery q → IsQuery (key_query q)
unfolding is_unreserved
IsQuery-key_query q h = (refl, (refl, (refl, (refl, h))))

module _ (S : Store) (json : Json) where
  -- `Do` brings a request for the URL of the server to the server's engine, its query as it stands
  -- in the URI, and brings the response back.
  pub record IsDelivered (addr : Bytes) (send : Do S.State) : Type 0 where
    pub without_query :
        (m : Method) (body : Bytes) (w : S.State)
        → let r =
            serve S json (record { method = m; path = kv_path; raw_query = []; body = body }) w in
          send (record { method = m; uri = scheme ++ addr ++ path; body = body }) w
          ≡ (done r.0, r.1)
    pub with_query :
        (m : Method) (q body : Bytes) (w : S.State)
        → IsQuery q
        → let r =
            serve S json (record { method = m; path = kv_path; raw_query = q; body = body }) w in
          send (record { method = m; uri = (scheme ++ addr ++ path) ++ b'?' ∷ q; body = body }) w
          ≡ (done r.0, r.1)

  pub read_response-reply :
      IsLosslessJson json
      → (r : JsonResult) → IsAsciiData r.json_data
      → IsAscii r.err
      → read_response json (done (reply S json r))
        ≡ returns (
            if r.code == 0
            then done (record { code = r.code; json_data = read_back r.json_data; err = r.err })
            else failed (ClientError.reported r.err))
  unfolding read_response reply must_unmarshal_result
  read_response-reply lossless r plain plain_err =
      rw
        (
          read_response,
          must_unmarshal_result,
          reply,
          lossless.unmarshal_result-marshal_result r plain plain_err,
        )
        refl

  module _ (addr : Bytes) (send : Do S.State) (delivered : IsDelivered addr send) (c : HttpClient)
      (made : new (addr ∷ []) ≡ returns c) where
    url-new : scheme ++ addr ++ path ≡ c.url
    unfolding new
    url-new = ap (λ h. h.url) (returns-injective made)

    -- A request with a query is answered by the engine.
    send-serve :
        (m : Method) (q : Bytes) (w : S.State)
        → IsQuery q
        → let r =
            serve S json (record { method = m; path = kv_path; raw_query = q; body = [] }) w in
          send (record { method = m; uri = c.url ++ b'?' ∷ q; body = [] }) w ≡ (done r.0, r.1)
    send-serve m q w h =
        ap (λ url. send (record { method = m; uri = url ++ b'?' ∷ q; body = [] }) w) (sym url-new)
        ∙ delivered.with_query m q [] w h

    pub get-do_get :
        (key : Bytes) (w : S.State)
        → IsQuery key
        → let r =
            do_get S json
              (record { method = Method.get; path = kv_path; raw_query = key_query key; body = [] })
              w in
          get json send c key w ≡ ((read_response json (done r.0) >>= λ res. get_result res), r.1)
    unfolding get do_http serve bytes_eq
    get-do_get key w h =
        ap (λ r. ((read_response json r.0 >>= λ res. get_result res), r.1))
          (send-serve Method.get (key_query key) w (IsQuery-key_query key h))

    pub delete-do_delete :
        (key : Bytes) (w : S.State)
        → IsQuery key
        → let r =
            do_delete S json
              (record {
                method = Method.delete;
                path = kv_path;
                raw_query = key_query key;
                body = [];
              })
              w in
          delete json send c key w
          ≡ ((read_response json (done r.0) >>= λ res. returns (delete_result res)), r.1)
    unfolding delete do_http serve bytes_eq
    delete-do_delete key w h =
        ap (λ r. ((read_response json r.0 >>= λ res. returns (delete_result res)), r.1))
          (send-serve Method.delete (key_query key) w (IsQuery-key_query key h))

    pub set-do_set :
        (key value : Bytes) (w : S.State)
        → let body = must_marshal json (record { key = key; value = value }) in
          let r =
            do_set S json
              (record { method = Method.post; path = kv_path; raw_query = []; body = body })
              w in
          set json send c key value w
          ≡ ((read_response json (done r.0) >>= λ res. returns (set_result res)), r.1)
    unfolding set do_http serve bytes_eq
    set-do_set key value w =
        let body = must_marshal json (record { key = key; value = value }) in
        ap (λ r. ((read_response json r.0 >>= λ res. returns (set_result res)), r.1))
          (ap (λ url. send (record { method = Method.post; uri = url; body = body }) w)
              (sym url-new)
            ∙ delivered.without_query Method.post body w)
