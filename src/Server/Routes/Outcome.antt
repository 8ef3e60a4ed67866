-- ===== src/Server/Routes/Outcome.antt =====
-- Which requests reach a handler, and what the others are answered.
use overlay_mcp.Base.{
  String, ℕ, ◌≡◌, refl, ap₂, ◌⊎◌, inl, inr, Bool, true, false, Option, none, some, List, Result, ok,
  err, ok_or, ◌>>=◌, if◌then◌else◌,
}
use overlay_mcp.Core.Errors.{Error}
use overlay_mcp.Core.Models.{Authentication, AuthorizationResult}
use overlay_mcp.Core.Responses.{Response}
use overlay_mcp.Core.Action.{Action}
use overlay_mcp.Core.General.{GeneralSession, GeneralSessionManager}
use overlay_mcp.Http.Request.{Parts, pick_session_id}
use overlay_mcp.Server.Extract.{
  Request, failed_as_500, collected, BodyError, length_limit, other, Mime, http_authentication,
  http_session_id, json_content_type, json_request, insert_auth, insert_session_manager,
}
use overlay_mcp.Server.Message.{JsonRpcMessage, handler}
use overlay_mcp.Server.Routes.{answered, run_message, message_args, post_message}

module _ {Authn Authz Manager Message : Type 0}
    (authenticate : Authn → Parts → Result Authentication Error)
    (parse_query : String → List (String × String)) (parse_mime : String → Option Mime)
    (from_bytes : String → Result Message Response) (authn : Authn) where
  -- The request has what the handler needs: credentials or none that fail, a session id, and a JSON message.
  abbrev pub Accepts : Request Authn Authz Manager → Authentication → String → Message → Type 0
  Accepts req a id json =
      (authenticate authn req.parts ≡ ok a)
      × (pick_session_id parse_query req.parts ≡ some id)
      × (json_content_type parse_mime req.parts ≡ true)
      × ((bytes : String) × (req.body ≡ ok bytes) × (from_bytes bytes ≡ ok json))

  -- The first thing that is wrong with it, and what it is answered.
  pub data Refused (req : Request Authn Authz Manager) : Response → Type 0 where
    bad_credentials :
        {e : Error}
        → authenticate authn req.parts ≡ err e
        → Refused req (record { status = 500; body = "" })
    no_session_id :
        {a : Authentication}
        → authenticate authn req.parts ≡ ok a
        → pick_session_id parse_query req.parts ≡ none
        → Refused req (record { status = 400; body = "no session id" })
    no_json :
        {a : Authentication} {id : String}
        → authenticate authn req.parts ≡ ok a
        → pick_session_id parse_query req.parts ≡ some id
        → json_content_type parse_mime req.parts ≡ false
        → Refused req (record { status = 415; body = "missing json content type" })
    too_long :
        {a : Authentication} {id : String}
        → authenticate authn req.parts ≡ ok a
        → pick_session_id parse_query req.parts ≡ some id
        → json_content_type parse_mime req.parts ≡ true
        → req.body ≡ err length_limit
        → Refused req (record { status = 413; body = "Failed to buffer the request body" })
    broken :
        {a : Authentication} {id : String}
        → authenticate authn req.parts ≡ ok a
        → pick_session_id parse_query req.parts ≡ some id
        → json_content_type parse_mime req.parts ≡ true
        → req.body ≡ err other
        → Refused req (record { status = 400; body = "Failed to buffer the request body" })
    no_message :
        {a : Authentication} {id bytes : String} {refusal : Response}
        → authenticate authn req.parts ≡ ok a
        → pick_session_id parse_query req.parts ≡ some id
        → json_content_type parse_mime req.parts ≡ true
        → req.body ≡ ok bytes
        → from_bytes bytes ≡ err refusal
        → Refused req refusal

-- The layers around the routes.
unfoldable pub layered :
    {Authn Authz Manager : Type 0}
    → Authn
    → Authz
    → Manager
    → Request Authn Authz Manager
    → Request Authn Authz Manager
unfolding insert_auth insert_session_manager
layered authn authz manager req = insert_auth authn authz (insert_session_manager manager req)

module _ {Authn Authz Manager Message : Type 0}
    (authenticate : Authn → Parts → Result Authentication Error)
    (parse_query : String → List (String × String)) (missing : Response)
    (parse_mime : String → Option Mime) (from_bytes : String → Result Message Response)
    (authn : Authn) (authz : Authz) (manager : Manager) where
  abbrev Fits : Request Authn Authz Manager → Authentication → String → Message → Type 0
  Fits = Accepts authenticate parse_query parse_mime from_bytes authn

  abbrev Faulty : Request Authn Authz Manager → Response → Type 0
  Faulty = Refused authenticate parse_query parse_mime from_bytes authn

  abbrev Outcome :
      Request Authn Authz Manager
      → Result (Authentication × (String × (Manager × (Authz × Message)))) Response
      → Type 0
  Outcome req (ok (a, (id, (m, (z, json))))) = Fits req a id json × (m ≡ manager) × (z ≡ authz)
  Outcome req (err refusal) = Faulty req refusal

  abbrev with_json :
      Authentication
      → String
      → Result Message Response
      → Result (Authentication × (String × (Manager × (Authz × Message)))) Response
  with_json a id r = r >>= λ json. ok (a, (id, (manager, (authz, json))))

  bytes-Outcome :
      (req : Request Authn Authz Manager) (a : Authentication) (id bytes : String)
      (x : Result Message Response)
      → authenticate authn req.parts ≡ ok a
      → pick_session_id parse_query req.parts ≡ some id
      → json_content_type parse_mime req.parts ≡ true
      → req.body ≡ ok bytes
      → from_bytes bytes ≡ x
      → Outcome req (with_json a id x)
  bytes-Outcome req a id bytes (ok json) p q c b e = ((p, q, c, (bytes, b, e)), refl, refl)
  bytes-Outcome req a id bytes (err refusal) p q c b e = no_message p q c b e

  body-Outcome :
      (req : Request Authn Authz Manager) (a : Authentication) (id : String) (t : Bool)
      (body : Result String BodyError)
      → authenticate authn req.parts ≡ ok a
      → pick_session_id parse_query req.parts ≡ some id
      → json_content_type parse_mime req.parts ≡ t
      → req.body ≡ body
      → Outcome req (
          with_json a id (
            if t
            then collected body >>= from_bytes
            else err (record { status = 415; body = "missing json content type" })))
  body-Outcome req a id false body p q c b = no_json p q c
  body-Outcome req a id true (err length_limit) p q c b = too_long p q c b
  body-Outcome req a id true (err other) p q c b = broken p q c b
  body-Outcome req a id true (ok bytes) p q c b =
      bytes-Outcome req a id bytes (from_bytes bytes) p q c b refl

  session_id-Outcome :
      (req : Request Authn Authz Manager) (a : Authentication) (id : Option String)
      → authenticate authn req.parts ≡ ok a
      → pick_session_id parse_query req.parts ≡ id
      → Outcome req (
          ok_or id (record { status = 400; body = "no session id" }) >>= λ id.
          json_request parse_mime from_bytes req.parts req.body >>= λ json.
          ok (a, (id, (manager, (authz, json)))))
  unfolding json_request
  session_id-Outcome req a none p q = no_session_id p q
  session_id-Outcome req a (some id) p q =
      body-Outcome req a id (json_content_type parse_mime req.parts) req.body p q refl refl

  authentication-Outcome :
      (req : Request Authn Authz Manager) (x : Result Authentication Error)
      → authenticate authn req.parts ≡ x
      → Outcome req (
          failed_as_500 x >>= λ a.
          ok_or
            (pick_session_id parse_query req.parts)
            (record { status = 400; body = "no session id" })
          >>= λ id. json_request parse_mime from_bytes req.parts req.body >>= λ json.
              ok (a, (id, (manager, (authz, json)))))
  authentication-Outcome req (err e) p = bad_credentials p
  authentication-Outcome req (ok a) p =
      session_id-Outcome req a (pick_session_id parse_query req.parts) p refl

  args-Outcome :
      (req : Request Authn Authz Manager)
      → Outcome req (
          message_args authenticate parse_query missing parse_mime from_bytes
            (layered authn authz manager req))
  unfolding message_args layered insert_auth insert_session_manager http_authentication
      http_session_id json_request
  args-Outcome req = authentication-Outcome req (authenticate authn req.parts) refl

module _ {W Session Authn Authz Manager Req Res Noti SReq SRes SNoti : Type 0}
    (g : GeneralSession W Session Parts
      (JsonRpcMessage Req Res Noti)
      (JsonRpcMessage SReq SRes SNoti))
    (managers : Manager → GeneralSessionManager W Session)
    (authenticate : Authn → Parts → Result Authentication Error)
    (parse_query : String → List (String × String)) (missing : Response)
    (authorize_client_message : Authz
      → Authentication
      → JsonRpcMessage Req Res Noti
      → Action W AuthorizationResult)
    (parse_mime : String → Option Mime)
    (from_bytes : String → Result (JsonRpcMessage Req Res Noti) Response) (authn : Authn)
    (authz : Authz) (manager : Manager) where
  abbrev Taken :
      Request Authn Authz Manager → Authentication → String → JsonRpcMessage Req Res Noti → Type 0
  Taken = Accepts authenticate parse_query parse_mime from_bytes authn

  abbrev handle : Parts → Authentication → String → JsonRpcMessage Req Res Noti → Action W ℕ
  handle parts a id json =
      handler g (managers manager) (authorize_client_message authz) a id parts json

  run-Outcome :
      (req : Request Authn Authz Manager)
      (x : Result
        (Authentication × (String × (Manager × (Authz × JsonRpcMessage Req Res Noti))))
        Response)
      (w : W)
      → Outcome authenticate parse_query missing parse_mime from_bytes authn authz manager req x
      → ((a : Authentication) × (id : String) × (json : JsonRpcMessage Req Res Noti) × Taken req a
            id json
          × (run_message g managers authenticate parse_query missing authorize_client_message
                parse_mime from_bytes req.parts x w
              ≡ answered (handle req.parts a id json w)))
        ⊎ ((refusal : Response) × Refused authenticate parse_query parse_mime from_bytes authn req
              refusal
            × (run_message g managers authenticate parse_query missing authorize_client_message
                  parse_mime from_bytes req.parts x w
                ≡ (refusal, w)))
  run-Outcome req (err refusal) w h = inr (refusal, h, refl)
  run-Outcome req (ok (a, (id, (m, (z, json))))) w (h, p, q) = inl (
    a,
    id,
    json,
    h,
    ap₂
        (λ m z.
          answered (handler g (managers m) (authorize_client_message z) a id req.parts json w))
        p q,
  )

  -- A request for `POST /message` behind the layers either reaches the handler, with the credentials, the session id and
  -- the JSON message that it has, and is answered its result; or its first fault is answered, with 500 for bad
  -- credentials, 400 for a missing session id or a body that breaks off, 415 for another content type, 413 for a
  -- body that is too long, and axum's answer for a body that is no message, and nothing is changed.
  pub post_message-outcome :
      (req : Request Authn Authz Manager) (w : W)
      → let response =
          post_message g managers authenticate parse_query missing authorize_client_message
            parse_mime from_bytes
            (layered authn authz manager req)
            w in
        ((a : Authentication) × (id : String) × (json : JsonRpcMessage Req Res Noti) × Accepts
            authenticate parse_query parse_mime from_bytes authn req a id json
          × (response
              ≡ answered (
                  handler g
                    (managers manager)
                    (authorize_client_message authz)
                    a
                    id
                    req.parts
                    json
                    w)))
        ⊎ ((refusal : Response) × Refused authenticate parse_query parse_mime from_bytes authn req
              refusal
            × (response ≡ (refusal, w)))
  unfolding post_message layered insert_auth insert_session_manager
  post_message-outcome req w =
      run-Outcome req _ w (
        args-Outcome authenticate parse_query missing parse_mime from_bytes authn authz manager req)
