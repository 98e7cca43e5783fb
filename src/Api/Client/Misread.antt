-- ===== src/Api/Client/Misread.antt =====
-- Keys that are put into a URL as they stand: where an ampersand ends the value.
use talent_challenge.Prelude.{◌≡◌, refl, sym, ap, ◌∙◌, [], ◌∷◌, ◌++◌}
use talent_challenge.Prelude.Outcome.{returns, ◌>>=◌}
use talent_challenge.Prelude.Bytes.{Bytes}
use talent_challenge.Api.Url.{ampersand}
use talent_challenge.Api.Url.Plain.{IsUnreserved, is_unreserved, query-unreserved, query-ampersand}
use talent_challenge.Api.Model.{done, Json}
use talent_challenge.Api.Store.{Store}
use talent_challenge.Api.Server.{Method, kv_path, do_get, do_delete}
use talent_challenge.Api.Client.{
  HttpClient, key_query, new, Do, read_response, get_result, delete_result, get, delete,
}
use talent_challenge.Api.Client.Network.{
  IsDelivered, IsQuery, IsQuery-unreserved, get-do_get, delete-do_delete,
}

IsQuery-ampersand : (k b : Bytes) → IsUnreserved k → IsQuery b → IsQuery (k ++ ampersand ∷ b)
unfolding is_unreserved
IsQuery-ampersand [] b hk hb = (refl, hb)
IsQuery-ampersand (x ∷ xs) b hk hb =
    ((IsQuery-unreserved (x ∷ []) (hk.0, tt)).0, IsQuery-ampersand xs b hk.1 hb)

module _ (S : Store) (json : Json) (addr : Bytes) (send : Do S.State)
    (delivered : IsDelivered S json addr send) (c : HttpClient)
    (made : new (addr ∷ []) ≡ returns c) where
  do_get-ampersand :
      (k b : Bytes) (w : S.State)
      → IsUnreserved k
      → do_get S json
          (record {
            method = Method.get;
            path = kv_path;
            raw_query = key_query (k ++ ampersand ∷ b);
            body = [];
          })
          w
        ≡ do_get S json
            (record { method = Method.get; path = kv_path; raw_query = key_query k; body = [] })
            w
  unfolding do_get
  do_get-ampersand k b w h = rw (query-ampersand k b h, query-unreserved k h) refl

  do_delete-ampersand :
      (k b : Bytes) (w : S.State)
      → IsUnreserved k
      → do_delete S json
          (record {
            method = Method.delete;
            path = kv_path;
            raw_query = key_query (k ++ ampersand ∷ b);
            body = [];
          })
          w
        ≡ do_delete S json
            (record { method = Method.delete; path = kv_path; raw_query = key_query k; body = [] })
            w
  unfolding do_delete
  do_delete-ampersand k b w h = rw (query-ampersand k b h, query-unreserved k h) refl

  -- Over a network that delivers requests, Get and Delete with a key that has an ampersand behind
  -- letters, digits and `-._~` do, on any store, what they do with the part before the ampersand:
  -- the same result, and the same store after it.
  pub get-ampersand :
      (k b : Bytes) (w : S.State)
      → IsUnreserved k
      → IsQuery b
      → (get json send c (k ++ ampersand ∷ b) w ≡ get json send c k w)
        × (delete json send c (k ++ ampersand ∷ b) w ≡ delete json send c k w)
  get-ampersand k b w hk hb =
      let long = IsQuery-ampersand k b hk hb in
      let short = IsQuery-unreserved k hk in
      (
        get-do_get S json addr send delivered c made (k ++ ampersand ∷ b) w long
            ∙ ap (λ r. ((read_response json (done r.0) >>= λ res. get_result res), r.1))
                (do_get-ampersand k b w hk)
            ∙ sym (get-do_get S json addr send delivered c made k w short),
        delete-do_delete S json addr send delivered c made (k ++ ampersand ∷ b) w long
            ∙ ap
                (λ r. ((read_response json (done r.0) >>= λ res. returns (delete_result res)), r.1))
                (do_delete-ampersand k b w hk)
            ∙ sym (delete-do_delete S json addr send delivered c made k w short),
      )
