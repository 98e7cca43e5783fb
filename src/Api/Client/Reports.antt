-- ===== src/Api/Client/Reports.antt =====
-- Which errors of the store reach the caller of the client.
use talent_challenge.Prelude.{◌≡◌, refl, ap, ◌∙◌, some, [], ◌∷◌, arith}
use talent_challenge.Prelude.Outcome.{returns, ◌>>=◌}
use talent_challenge.Prelude.Bytes.{Bytes}
use talent_challenge.Api.Url.Plain.{IsUnreserved, is_unreserved, query-unreserved}
use talent_challenge.Api.Model.{
  failed, done, Json, IsAscii, IsAsciiData, IsLosslessJson, must_marshal,
}
use talent_challenge.Api.Store.{Store}
use talent_challenge.Api.Server.{
  Method, kv_path, do_get, do_set, do_delete, reply, return_error, written,
}
use talent_challenge.Api.Client.{
  ClientError, HttpClient, key_query, new, Do, read_response, get_result, set_result, delete_result,
  set, get, delete,
}
use talent_challenge.Api.Client.Network.{
  IsDelivered, IsQuery-unreserved, read_response-reply, get-do_get, delete-do_delete, set-do_set,
}

IsAscii-unreserved : (k : Bytes) → IsUnreserved k → IsAscii k
unfolding is_unreserved
IsAscii-unreserved [] h = tt
IsAscii-unreserved (x ∷ xs) h = (ground (arith, h.0), IsAscii-unreserved xs h.1)

module _ (S : Store) (json : Json) (lossless : IsLosslessJson json) where
  read_return_error :
      (e : Bytes)
      → IsAscii e
      → read_response json (done (reply S json (return_error e)))
        ≡ returns (failed (ClientError.reported e))
  unfolding return_error IsAsciiData
  read_return_error e h = read_response-reply S json lossless (return_error e) tt h

  module _ (addr : Bytes) (send : Do S.State) (delivered : IsDelivered S json addr send)
      (c : HttpClient) (made : new (addr ∷ []) ≡ returns c) where
    set-failed :
        (k v : Bytes) (w : S.State) (e : S.Error)
        → IsAscii k
        → IsAscii v
        → IsAscii (S.message e)
        → (S.set k v w).0 ≡ some e
        → set json send c k v w
          ≡ (returns (failed (ClientError.reported (S.message e))), (S.set k v w).1)
    unfolding set_result written do_set reply must_marshal return_error
    set-failed k v w e hk hv he fails =
        let at_server : do_set S json
              (record {
                method = Method.post;
                path = kv_path;
                raw_query = [];
                body = must_marshal json (record { key = k; value = v });
              })
              w
            ≡ (reply S json (return_error (S.message e)), (S.set k v w).1) =
          rw
            (
              do_set,
              must_marshal,
              lossless.bind-marshal_request (record { key = k; value = v }) hk hv,
            )
            (rw fails refl) in
        set-do_set S json addr send delivered c made k v w
        ∙ ap (λ r. ((read_response json (done r.0) >>= λ res. returns (set_result res)), r.1))
            at_server
        ∙ ap (λ o. ((o >>= λ res. returns (set_result res)), (S.set k v w).1))
            (read_return_error (S.message e) he)

    get-failed :
        (k : Bytes) (w : S.State) (e : S.Error)
        → IsUnreserved k
        → IsAscii (S.message e)
        → (S.get k w).0 ≡ failed e
        → get json send c k w
          ≡ (returns (failed (ClientError.reported (S.message e))), (S.get k w).1)
    unfolding get_result do_get reply
    get-failed k w e hk he fails =
        let at_server : do_get S json
              (record { method = Method.get; path = kv_path; raw_query = key_query k; body = [] }) w
            ≡ (reply S json (return_error (S.message e)), (S.get k w).1) =
          rw (do_get, query-unreserved k hk) (rw fails refl) in
        get-do_get S json addr send delivered c made k w (IsQuery-unreserved k hk)
        ∙ ap (λ r. ((read_response json (done r.0) >>= λ res. get_result res), r.1)) at_server
        ∙ ap (λ o. ((o >>= λ res. get_result res), (S.get k w).1))
            (read_return_error (S.message e) he)

    delete-failed :
        (k : Bytes) (w : S.State) (e : S.Error)
        → IsUnreserved k
        → IsAscii (S.message e)
        → (S.delete k w).0 ≡ some e
        → delete json send c k w ≡ (returns (done tt), (S.delete k w).1)
    unfolding delete_result written do_delete reply
    delete-failed k w e hk he fails =
        let at_server : do_delete S json
              (record {
                method = Method.delete;
                path = kv_path;
                raw_query = key_query k;
                body = [];
              })
              w
            ≡ (reply S json (return_error (S.message e)), (S.delete k w).1) =
          rw (do_delete, query-unreserved k hk) (rw fails refl) in
        delete-do_delete S json addr send delivered c made k w (IsQuery-unreserved k hk)
        ∙ ap (λ r. ((read_response json (done r.0) >>= λ res. returns (delete_result res)), r.1))
            at_server
        ∙ ap (λ o. ((o >>= λ res. returns (delete_result res)), (S.delete k w).1))
            (read_return_error (S.message e) he)

    -- Over a network that delivers requests, with JSON that is lossless on ASCII: where the store
    -- fails with an error of an ASCII text, Set, of a key of letters, digits and `-._~` and of an
    -- ASCII value, returns an error with that text, and so does Get of such a key; Delete of it
    -- returns nil.
    pub set-reported :
        (k v : Bytes) (w : S.State) (e f g : S.Error)
        → IsUnreserved k
        → IsAscii v
        → IsAscii (S.message e) × IsAscii (S.message f) × IsAscii (S.message g)
        → (S.set k v w).0 ≡ some e
        → (S.get k w).0 ≡ failed f
        → (S.delete k w).0 ≡ some g
        → (set json send c k v w
            ≡ (returns (failed (ClientError.reported (S.message e))), (S.set k v w).1))
          × (get json send c k w
              ≡ (returns (failed (ClientError.reported (S.message f))), (S.get k w).1))
          × (delete json send c k w ≡ (returns (done tt), (S.delete k w).1))
    set-reported k v w e f g hk hv (he, hf, hg) es eg ed = (
      set-failed k v w e (IsAscii-unreserved k hk) hv he es,
      get-failed k w f hk hf eg,
      delete-failed k w g hk hg ed,
    )
