-- ===== src/Server/Routes.antt =====
-- The two routes of a session in crates/overlay-mcp-svr/src/router, from the request that the layers hand on to
-- its response: the extractors of a handler run in the order of its arguments, and the first that refuses answers.
pub mod Outcome
pub mod Credentials
pub mod Examples
use overlay_mcp.Base.{String, ℕ, Option, none, some, List, Result, ok, err, ok_or, ◌>>=◌}
use overlay_mcp.Core.Errors.{Error, Url}
use overlay_mcp.Core.Models.{Authentication, AuthorizationResult}
use overlay_mcp.Core.Responses.{Response, into_response}
use overlay_mcp.Core.Action.{Action}
use overlay_mcp.Core.General.{GeneralSession, GeneralSessionManager}
use overlay_mcp.Http.Request.{Parts}
use overlay_mcp.Server.Extract.{
  Request, http_authentication, http_session_id, optional_session_id, json_request, Mime,
}
use overlay_mcp.Server.Message.{JsonRpcMessage, handler}
use overlay_mcp.Server.Sse

-- `IntoResponse` of a handler's result.
abbrev pub answered : {W : Type 0} → Result ℕ Error × W → Response × W
answered (ok status, w) = (record { status = status; body = "" }, w)
answered (err e, w) = (into_response e, w)

-- A stream is answered by its first event.
abbrev pub streamed : {W : Type 0} → Result String Error × W → Result String Response × W
streamed (ok event, w) = (ok event, w)
streamed (err e, w) = (err (into_response e), w)

-- `authenticate` is the authenticator's, `missing` is what axum answers for an extension that no layer put in.
module _ {Authn Authz Manager : Type 0} (authenticate : Authn → Parts → Result Authentication Error)
    (parse_query : String → List (String × String)) (missing : Response) where
  -- What the extractors of `message::handler` give.
  unfoldable pub message_args :
      {Message : Type 0} (parse_mime : String → Option Mime)
      (from_bytes : String → Result Message Response)
      → Request Authn Authz Manager
      → Result (Authentication × (String × (Manager × (Authz × Message)))) Response
  message_args parse_mime from_bytes req = do
    authn ← http_authentication authenticate req.extensions.authn req.parts
    session_id ← http_session_id parse_query req.parts
    session_manager ← ok_or req.extensions.session_manager missing
    authz ← ok_or req.extensions.authz missing
    json ← json_request parse_mime from_bytes req.parts req.body
    ok (authn, (session_id, (session_manager, (authz, json))))

  -- What those of `sse::handler` give, but for the resolver, which is a parameter there.
  unfoldable pub sse_args :
      Request Authn Authz Manager
      → Result (Authentication × (Option String × (Manager × Authz))) Response
  sse_args req = do
    authn ← http_authentication authenticate req.extensions.authn req.parts
    session_id ← optional_session_id parse_query req.parts
    session_manager ← ok_or req.extensions.session_manager missing
    authz ← ok_or req.extensions.authz missing
    ok (authn, (session_id, (session_manager, authz)))

module _ {W Session Authn Authz Manager Req Res Noti SReq SRes SNoti : Type 0}
    (g : GeneralSession W Session Parts
      (JsonRpcMessage Req Res Noti)
      (JsonRpcMessage SReq SRes SNoti))
    (manager : Manager → GeneralSessionManager W Session)
    (authenticate : Authn → Parts → Result Authentication Error)
    (parse_query : String → List (String × String)) (missing : Response) where
  module _
      (authorize_client_message : Authz
        → Authentication
        → JsonRpcMessage Req Res Noti
        → Action W AuthorizationResult)
      (parse_mime : String → Option Mime)
      (from_bytes : String → Result (JsonRpcMessage Req Res Noti) Response) where
    abbrev pub run_message :
        Parts
        → Result
            (Authentication × (String × (Manager × (Authz × JsonRpcMessage Req Res Noti))))
            Response
        → W
        → Response × W
    run_message parts (err refusal) w = (refusal, w)
    run_message parts (ok (authn, (session_id, (session_manager, (authz, json))))) w = answered (
        handler g (manager session_manager) (authorize_client_message authz) authn session_id parts
          json w)

    -- `POST /message`
    unfoldable pub post_message : Request Authn Authz Manager → W → Response × W
    post_message req w =
        run_message req.parts
          (message_args authenticate parse_query missing parse_mime from_bytes req) w

  module _ (authorize_enter : Authz → Authentication → Action W AuthorizationResult)
      (resolve : Parts → Action W Url) (encode : List (String × String) → String) where
    abbrev pub run_sse :
        Parts
        → Result (Authentication × (Option String × (Manager × Authz))) Response
        → W
        → Result String Response × W
    run_sse parts (err refusal) w = (err refusal, w)
    run_sse parts (ok (authn, (session_id, (session_manager, authz)))) w = streamed (
        Sse.handler g (manager session_manager) resolve (authorize_enter authz) encode authn
          session_id parts w)

    -- `GET /sse`
    unfoldable pub get_sse : Request Authn Authz Manager → W → Result String Response × W
    get_sse req w = run_sse req.parts (sse_args authenticate parse_query missing req) w
