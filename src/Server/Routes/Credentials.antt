-- ===== src/Server/Routes/Credentials.antt =====
-- What a message without credentials comes to, with either authorizer.
use overlay_mcp.Base.{String, ◌≡◌, refl, ◌∙◌, Option, some, List, Result}
use overlay_mcp.Core.Errors.{Error, PointerBuf}
use overlay_mcp.Core.Json.{Value}
use overlay_mcp.Core.Models.{Authentication, AuthorizationResult, no_auth}
use overlay_mcp.Core.Responses.{Response, into_response}
use overlay_mcp.Core.Errors.{display401}
use overlay_mcp.Core.Action.{Action, lift}
use overlay_mcp.Core.General.{GeneralSession, GeneralSessionManager}
use overlay_mcp.Http.Request.{Parts}
use overlay_mcp.Openfga.{Openfga, CheckBody, CheckResponse}
use overlay_mcp.Auth.Static.{StaticAuthz}
use overlay_mcp.Auth.Fga.{OpenfgaAuthzConfig, build_tuple_user}
use overlay_mcp.Auth.Static
use overlay_mcp.Auth.Fga
use overlay_mcp.Auth.Dispatch.{Authz, static, open_fga}
use overlay_mcp.Auth.Dispatch
use overlay_mcp.Server.Extract.{
  Request, Mime, http_authentication, http_session_id, json_request, insert_auth,
  insert_session_manager,
}
use overlay_mcp.Server.Message.{JsonRpcMessage, handler}
use overlay_mcp.Server.Routes.{answered, message_args, post_message}
use overlay_mcp.Server.Routes.Outcome.{Accepts, layered}

-- What the program asks its authorizer about a message.
abbrev pub authorize :
    {W Message : Type 0} (resolve : PointerBuf → Value → Option Value)
    (check : Openfga → CheckBody → Result CheckResponse Error)
    (called_tool : Message → Option String)
    → Authz
    → Authentication
    → Message
    → Action W AuthorizationResult
authorize resolve check called_tool authz target json =
    lift (Dispatch.authorize_client_message resolve check called_tool authz target json)

module _ {W Session Authn Manager Req Res Noti SReq SRes SNoti : Type 0}
    (g : GeneralSession W Session Parts
      (JsonRpcMessage Req Res Noti)
      (JsonRpcMessage SReq SRes SNoti))
    (managers : Manager → GeneralSessionManager W Session)
    (authenticate : Authn → Parts → Result Authentication Error)
    (parse_query : String → List (String × String)) (missing : Response)
    (resolve : PointerBuf → Value → Option Value)
    (check : Openfga → CheckBody → Result CheckResponse Error)
    (called_tool : JsonRpcMessage Req Res Noti → Option String) (parse_mime : String → Option Mime)
    (from_bytes : String → Result (JsonRpcMessage Req Res Noti) Response) (authn : Authn)
    (manager : Manager) where
  -- The response behind the layers, with an authorizer.
  abbrev pub response : Authz → Request Authn Authz Manager → W → Response × W
  response authz req =
      post_message g managers authenticate parse_query missing (authorize resolve check called_tool)
        parse_mime from_bytes (layered authn authz manager req)

  abbrev pub handled :
      Authz
      → Request Authn Authz Manager
      → Authentication
      → String
      → JsonRpcMessage Req Res Noti
      → W
      → Response × W
  handled authz req a id json w = answered (
      handler g (managers manager) (authorize resolve check called_tool authz) a id req.parts json
        w)

  accepted-handled :
      (authz : Authz) (req : Request Authn Authz Manager) (a : Authentication) (id : String)
      (json : JsonRpcMessage Req Res Noti) (w : W)
      → Accepts authenticate parse_query parse_mime from_bytes authn req a id json
      → response authz req w ≡ handled authz req a id json w
  unfolding post_message layered insert_auth insert_session_manager message_args http_authentication
      http_session_id json_request
  accepted-handled authz req a id json w (p, q, c, (bytes, b, e)) = rw (p, q, c, b, e) refl

  -- A message that reaches the handler without credentials: where OpenFGA is the authorizer, a tool call is answered
  -- 401 and nothing is changed. With the static lists, any message is handled just as it is with any credentials.
  pub post_message-no_credentials :
      (req : Request Authn Authz Manager) (id : String) (json : JsonRpcMessage Req Res Noti) (w : W)
      → Accepts authenticate parse_query parse_mime from_bytes authn req no_auth id json
      → ((openfga : Openfga) (config : OpenfgaAuthzConfig) (tool : String)
          → called_tool json ≡ some tool
          → response (open_fga openfga config) req w
            ≡ (record { status = 401; body = "Authentication failed" }, w))
        × ((lists : StaticAuthz) (a : Authentication)
            → response (static lists) req w
              ≡ answered (
                  handler g
                    (managers manager)
                    (authorize resolve check called_tool (static lists))
                    a
                    id
                    req.parts
                    json
                    w))
  unfolding Dispatch.authorize_client_message Static.authorize_client_message
      Fga.authorize_client_message build_tuple_user handler into_response display401
  post_message-no_credentials req id json w h = (
    λ openfga config tool t.
        accepted-handled (open_fga openfga config) req no_auth id json w h ∙ rw t refl,
    λ lists a. accepted-handled (static lists) req no_auth id json w h,
  )
