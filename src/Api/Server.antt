-- ===== src/Api/Server.antt =====
-- api/server.go and api/result.go, cfg/cfg.go: the handlers of the server. gin's engine is here as
-- far as the server uses it: routes by method and path, the value of a query, a JSON body.
use talent_challenge.Prelude.{
  ℕ, Bool, true, false, Option, none, some, List, [], ◌∷◌, ◌&&◌, if◌then◌else◌,
}
use talent_challenge.Prelude.Bytes.{Bytes, bytes_eq}
use talent_challenge.Api.Url.{query}
use talent_challenge.Api.Model.{failed, done, Data, JsonResult, Json}
use talent_challenge.Api.Store.{Store, StoreCfg, NewStore, new_store}

abbrev pub ok_text : Bytes
ok_text = b'O' ∷ b'K' ∷ []

abbrev pub key_name : Bytes
key_name = b'k' ∷ b'e' ∷ b'y' ∷ []

abbrev pub kv_path : Bytes
kv_path = b'/' ∷ b'k' ∷ b'v' ∷ []

-- `APICfg` and `Cfg`
pub record ApiCfg : Type 0 where
  pub addr : Bytes

pub record Cfg : Type 0 where
  pub api : ApiCfg
  pub store : StoreCfg

pub record Server (T : Type 0) : Type 0 where
  pub cfg : Cfg
  pub store : T

-- `NewServer`; `NewStore` returns no error.
unfoldable pub new_server : Cfg → Server NewStore
unfolding new_store
new_server cfg = record { cfg = cfg; store = new_store cfg.store }

unfoldable pub return_error : (message : Bytes) → JsonResult
return_error message = record { code = 1; json_data = Data.nil; err = message }

unfoldable pub return_data : Data → JsonResult
return_data value = record { code = 0; json_data = value; err = [] }

pub data Method : Type 0 where
  get post delete : Method

unfoldable pub method_eq : Method → Method → Bool
method_eq Method.get Method.get = true
method_eq Method.post Method.post = true
method_eq Method.delete Method.delete = true
method_eq m n = false

pub record HttpRequest : Type 0 where
  pub method : Method
  pub path : Bytes
  pub raw_query : Bytes
  pub body : Bytes

pub record HttpResponse : Type 0 where
  pub status : ℕ
  pub body : Bytes

module _ (S : Store) (json : Json) where
  -- `c.JSON(http.StatusOK, …)`
  unfoldable pub reply : JsonResult → HttpResponse
  reply r = record { status = 200; body = json.marshal_result r }

  unfoldable pub do_get : HttpRequest → S.State → HttpResponse × S.State
  unfolding query
  do_get c s =
      let (value, after) = S.get (query key_name c.raw_query) s in
      (
        reply (elim value [
          | failed e ↦ return_error (S.message e)
          | done v ↦ return_data (Data.slice v)
        ]),
        after,
      )

  -- The result of a write: "OK", or the error's text
  unfoldable pub written : Option S.Error → JsonResult
  written none = return_data (Data.text ok_text)
  written (some e) = return_error (S.message e)

  unfoldable pub do_set : HttpRequest → S.State → HttpResponse × S.State
  unfolding written
  do_set c s = elim (json.bind c.body) [
    | failed message ↦ (reply (return_error message), s)
    | done req ↦ (let (err, after) = S.set req.key req.value s in (reply (written err), after))
  ]

  unfoldable pub do_delete : HttpRequest → S.State → HttpResponse × S.State
  unfolding query written
  do_delete c s =
      let (err, after) = S.delete (query key_name c.raw_query) s in (reply (written err), after)

  abbrev pub Handler : Type 0
  Handler = HttpRequest → S.State → HttpResponse × S.State

  -- The routes that `Start` adds
  unfoldable pub routes : List (Method × Bytes × Handler)
  unfolding do_get do_set do_delete
  routes =
      (Method.get, kv_path, do_get)
      ∷ (Method.post, kv_path, do_set)
      ∷ (Method.delete, kv_path, do_delete)
      ∷ []

  -- The first route that fits; without one the status is 404.
  unfoldable pub dispatch : List (Method × Bytes × Handler) → Handler
  unfolding method_eq
  dispatch [] c s = (record { status = 404; body = [] }, s)
  dispatch ((method, path, handler) ∷ rest) c s =
      let next = dispatch rest c s in
      if method_eq method c.method && bytes_eq path c.path then handler c s else next

  -- `Start`: what the engine answers once the routes are there
  unfoldable pub serve : Handler
  unfolding routes dispatch
  serve c s = dispatch routes c s
