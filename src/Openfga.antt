-- ===== src/Openfga.antt =====
-- crates/openfga/src/models.rs, errors.rs and openfga.rs: the client of an OpenFGA server. HTTP is
-- reqwest's: a `Server` says what each request is answered with.
pub mod Batch
pub mod Examples
use overlay_mcp.Base.{
  String, ◌<>◌, Bool, true, false, Option, none, some, List, [], ◌∷◌, map, lookup, remove, insert,
  if◌then◌else◌, Result, ok, err, ok_or, ◌>>=◌,
}
use overlay_mcp.Core.Errors.{Url}

pub record Tuple : Type 0 where
  pub user : String
  pub relation : String
  pub object : String

pub record ContextualTuple : Type 0 where
  pub tuple_keys : List Tuple

pub data Consistency : Type 0 where
  unspecified minimize_latency higher_consistency : Consistency

pub record CheckBody : Type 0 where
  pub tuple_key : Tuple
  pub contextual_tuples : ContextualTuple
  pub consistency : Option Consistency

pub record CheckResponse : Type 0 where
  pub allowed : Bool
  pub resolution : String

pub record BatchCheckElem : Type 0 where
  pub tuple_key : Tuple
  pub contextual_tuples : ContextualTuple
  pub consistency : Option Consistency
  pub correlation_id : String

pub record BatchCheckBody : Type 0 where
  pub checks : List BatchCheckElem

-- The map from a correlation id to `allowed`.
pub record BatchCheckResponse : Type 0 where
  pub result : List (String × Bool)

pub record Store : Type 0 where
  pub name : String
  pub id : String

pub record ListAllStoresResponse : Type 0 where
  pub stores : List Store

pub record OpenfgaFailure : Type 0 where
  pub code : String
  pub message : String

-- A library's error is kept as its printed text.
pub data Error : Type 0 where
  invalid_header_name invalid_header_value : String → Error
  url_parse_error url_encode_error reqwest_error : String → Error
  store_not_found : Error
  check_failed : OpenfgaFailure → Error

-- `to_string`, from the `#[error]` attributes.
unfoldable pub display : Error → String
display (invalid_header_name e) = "Invalid header name: " <> e
display (invalid_header_value e) = "Invalid header value: " <> e
display (reqwest_error e) = "Reqwest error: " <> e
display (url_parse_error e) = "Url parse error: " <> e
display (url_encode_error e) = "Serde url encode error: " <> e
display store_not_found = "Store not found"
display (check_failed failure) =
    "Check failed: code: " <> (failure.code <> (", message: " <> failure.message))

-- `send().await?`, the status, and `json().await?`: a failed transport or body, an answer with a
-- success status, or a failure that the server reports.
pub data Answer (A : Type 0) : Type 0 where
  broken : String → Answer A
  success : A → Answer A
  failure : OpenfgaFailure → Answer A

-- `Url::join` is the url library's, `HeaderName::from_str` and `HeaderValue::from_str` http's.
pub record Server : Type 0 where
  pub join : Url → String → Option Url
  pub header_name : String → Result String String
  pub header_value : String → Result String String
  pub build_client : (default_headers : List (String × String)) → Result (Unit {0}) Error
  pub get_stores : Url → (name : String) → Result ListAllStoresResponse Error
  pub post_check : Url → CheckBody → Answer CheckResponse
  pub post_batch_check : Url → BatchCheckBody → Answer BatchCheckResponse

pub record OpenfgaConfig : Type 0 where
  pub url : Url
  pub store_name : String
  pub headers : List (String × String)

pub record Openfga : Type 0 where
  pub config : OpenfgaConfig
  pub store_id : String

-- `OpenfgaBuilder`
abbrev pub Builder : Type 0
Builder = Result OpenfgaConfig Error

unfoldable pub build : Url → String → Builder
build url store_name = ok (record { url = url; store_name = store_name; headers = [] })

abbrev first_store : List Store → Option Store
first_store [] = none
first_store (s ∷ _) = some s

module _ (server : Server) where
  abbrev put_header : OpenfgaConfig → Result String String → Result String String → Builder
  put_header config (ok name) (ok value) =
      ok (record config { headers = insert name value config.headers })
  put_header config (err e) _ = err (invalid_header_name e)
  put_header config (ok _) (err e) = err (invalid_header_value e)

  unfoldable pub with_header : Builder → String → String → Builder
  with_header (ok config) key value =
      put_header config (server.header_name key) (server.header_value value)
  with_header (err e) key value = err e

  unfoldable pub connect : Builder → Result Openfga Error
  connect builder = do
    config ← builder
    _ ← server.build_client config.headers
    resp ← server.get_stores config.url config.store_name
    store ← ok_or (first_store resp.stores) store_not_found
    ok (record { config = config; store_id = store.id })

  abbrev respond : {A : Type 0} → Answer A → Result A Error
  respond (broken e) = err (reqwest_error e)
  respond (success a) = ok a
  respond (failure f) = err (check_failed f)

  abbrev store_or : Openfga → Option String → String
  store_or self none = self.store_id
  store_or self (some store_id) = store_id

  -- The `expect` of the join is a panic: `none`.
  unfoldable pub check :
      Openfga → (path : Option String) → CheckBody → Option (Result CheckResponse Error)
  check self path body =
      elim (server.join self.config.url ("/stores/" <> (store_or self path <> "/check"))) [
        | none ↦ none
        | some checkurl ↦ some (respond (server.post_check checkurl body))
      ]

  unfoldable pub batch_check :
      Openfga → (path : Option String) → BatchCheckBody → Option (Result BatchCheckResponse Error)
  batch_check self path body =
      elim (server.join self.config.url ("/stores/" <> (store_or self path <> "/batch-check"))) [
        | none ↦ none
        | some checkurl ↦ some (respond (server.post_batch_check checkurl body))
      ]

  abbrev is_allowed : CheckResponse → Result Bool Error
  is_allowed r = ok r.allowed

  unfoldable pub simple_check : Openfga → Tuple → List Tuple → Option (Result Bool Error)
  simple_check self tuple context =
      elim (check self none (record {
        tuple_key = tuple;
        contextual_tuples = record { tuple_keys = context };
        consistency = none;
      })) [ none ↦ none | some r ↦ some (r >>= is_allowed) ]

-- The elements of a batch, under the fresh ids that `Uuid::new_v4` gives: one for each check.
unfoldable pub batch_elems : List (CheckBody × String) → List BatchCheckElem
batch_elems = map (λ t. record {
  tuple_key = t.0.tuple_key;
  contextual_tuples = t.0.contextual_tuples;
  consistency = none;
  correlation_id = t.1;
})

abbrev or_false : Option Bool → Bool
or_false none = false
or_false (some b) = b

-- `for c in &body.checks`, where `resp.result.remove` takes the answer out of the map.
unfoldable pub collect_results : List BatchCheckElem → List (String × Bool) → List Bool
collect_results [] result = []
collect_results (c ∷ cs) result =
    or_false (lookup c.correlation_id result) ∷ collect_results cs (remove c.correlation_id result)

module _ (server : Server) where
  abbrev gather : List BatchCheckElem → BatchCheckResponse → Result (List Bool) Error
  gather checks resp = ok (collect_results checks resp.result)

  unfoldable pub batch_simple_check :
      Openfga → List (CheckBody × String) → Option (Result (List Bool) Error)
  batch_simple_check self tuples =
      elim (batch_check server self none (record { checks = batch_elems tuples })) [
        | none ↦ none
        | some r ↦ some (r >>= gather (batch_elems tuples))
      ]
