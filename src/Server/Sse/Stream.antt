-- ===== src/Server/Sse/Stream.antt =====
-- What `GET /sse` does with the session of a client, and what it tells the client.
use overlay_mcp.Base.{
  String, eq_iff, eq_refl, ◌≡◌, ◌≢◌, refl, ap, ◌∙◌, arith, Option, some, List, ok, err,
}
use overlay_mcp.Core.Errors.{Error, Url, authentication_failed, authorization_failed}
use overlay_mcp.Core.Models.{
  header, query, Authentication, api_key, jwt, no_auth, AuthorizationResult, allow, deny,
  unauthorized, to_err_response,
}
use overlay_mcp.Core.Action.{Action}
use overlay_mcp.Core.Responses.{into_response}
use overlay_mcp.Core.General.{GeneralSession, GeneralSessionManager}
use overlay_mcp.Http.Request.{Parts, unwrap_or_default, find_value, resolve, pick_session_id}
use overlay_mcp.Server.Sse.{endpoint_pairs, handler}

module _ {W Session Parts ClientMessage ServerMessage : Type 0}
    (g : GeneralSession W Session Parts ClientMessage ServerMessage)
    (m : GeneralSessionManager W Session) (resolve_url : Parts → Action W Url)
    (authorize_enter : Authentication → Action W AuthorizationResult)
    (encode : List (String × String) → String) (authn : Authentication) (session_id : Option String)
    (parts : Parts) where
  abbrev handle : Action W String
  handle = handler g m resolve_url authorize_enter encode authn session_id parts

  -- A request that may not enter is answered with an error, 401 where credentials are missing and 403
  -- otherwise, and no session is looked up, created or started for it.
  pub handler-refused :
      (result : AuthorizationResult) (w₀ w₁ : W)
      → authorize_enter authn w₀ ≡ (ok result, w₁)
      → result ≢ allow
      → (e : Error) × (handle w₀ ≡ (err e, w₁))
        × ((into_response e).status ≡ elim result [ allow ↦ 200 | deny ↦ 403 | unauthorized ↦ 401 ])
  unfolding handler to_err_response into_response
  handler-refused allow w₀ w₁ a n = absurd (n refl)
  handler-refused deny w₀ w₁ a n = (Error.forbidden authorization_failed, rw a refl, refl)
  handler-refused unauthorized w₀ w₁ a n =
      (Error.unauthorized authentication_failed, rw a refl, refl)

pairs-session_id :
    (authn : Authentication) (session_id : String)
    → find_value "session_id" (endpoint_pairs authn session_id) ≡ some session_id
unfolding find_value endpoint_pairs
pairs-session_id (api_key _ (query _)) session_id = refl
pairs-session_id (api_key _ (header _)) session_id = refl
pairs-session_id (jwt _) session_id = refl
pairs-session_id no_auth session_id = refl

pairs-api_key :
    (apikey name session_id : String)
    → name ≢ "session_id"
    → find_value name (endpoint_pairs (api_key apikey (query name)) session_id) ≡ some apikey
unfolding find_value endpoint_pairs
pairs-api_key apikey name session_id n = ground (arith, eq_iff "session_id" name, eq_refl name)

-- A request with the query that the endpoint event tells a client, read back by the extractors of the
-- server, has the session's id; and it has the API key of the client, where a query parameter other than
-- `session_id` had it.
pub endpoint_pairs-read_back :
    (parse : String → List (String × String)) (encode : List (String × String) → String)
    (authn : Authentication) (session_id : String) (parts : Parts)
    → parse (encode (endpoint_pairs authn session_id)) ≡ endpoint_pairs authn session_id
    → parts.query ≡ some (encode (endpoint_pairs authn session_id))
    → (pick_session_id parse parts ≡ some session_id)
      × ((apikey name : String)
          → authn ≡ api_key apikey (query name)
          → name ≢ "session_id"
          → resolve parse (query name) parts ≡ some apikey)
unfolding pick_session_id resolve
endpoint_pairs-read_back parse encode authn session_id parts h q =
    let read : (s : String)
        → find_value s (parse (unwrap_or_default parts.query))
          ≡ find_value s (endpoint_pairs authn session_id) =
      λ s. ap (λ o. find_value s (parse (unwrap_or_default o))) q ∙ ap (find_value s) h in
    (
      read "session_id" ∙ pairs-session_id authn session_id,
      λ apikey name e n.
          read name
          ∙ ap (λ a. find_value name (endpoint_pairs a session_id)) e
          ∙ pairs-api_key apikey name session_id n,
    )
