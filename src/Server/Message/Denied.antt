-- ===== src/Server/Message/Denied.antt =====
-- What `POST /message` does with each answer of the authorizer.
use overlay_mcp.Base.{String, ℕ, ◌≡◌, refl, none, some, ok, err}
use overlay_mcp.Core.Errors.{Error, not_found, session_not_found, authentication_failed}
use overlay_mcp.Core.Models.{Authentication, AuthorizationResult, unauthorized, to_err_response}
use overlay_mcp.Core.Responses.{into_response}
use overlay_mcp.Core.Action.{Action}
use overlay_mcp.Core.General.{GeneralSession, GeneralSessionManager, ensure_started}
use overlay_mcp.Server.Message.{JsonRpcMessage, answer, handler}

module _ {W Session Parts Req Res Noti SReq SRes SNoti : Type 0}
    (g : GeneralSession W Session Parts
      (JsonRpcMessage Req Res Noti)
      (JsonRpcMessage SReq SRes SNoti))
    (m : GeneralSessionManager W Session)
    (authorize_client_message : Authentication
      → JsonRpcMessage Req Res Noti
      → Action W AuthorizationResult)
    (authn : Authentication) (session_id : String) (parts : Parts)
    (json : JsonRpcMessage Req Res Noti) where
  abbrev handle : Action W ℕ
  handle = handler g m authorize_client_message authn session_id parts json

  -- Where the authorizer wants credentials the message goes nowhere and the answer is 401; but the
  -- session has been started by then.
  pub handler-unauthorized :
      (session : Session) (w₀ w₁ w₂ w₃ : W)
      → authorize_client_message authn json w₀ ≡ (ok unauthorized, w₁)
      → m.find session_id w₁ ≡ (ok (some session), w₂)
      → ensure_started g session parts w₂ ≡ (ok tt, w₃)
      → handle w₀ ≡ (err (Error.unauthorized authentication_failed), w₃)
  unfolding handler answer to_err_response
  handler-unauthorized session w₀ w₁ w₂ w₃ a f s = rw a (rw f (rw s))

  -- A message for a session that is not known goes nowhere and starts nothing. The error is
  -- `NotFound`, and the status of its response is 500.
  pub handler-missing_session :
      (result : AuthorizationResult) (w₀ w₁ w₂ : W)
      → authorize_client_message authn json w₀ ≡ (ok result, w₁)
      → m.find session_id w₁ ≡ (ok none, w₂)
      → (handle w₀ ≡ (err (not_found (session_not_found session_id)), w₂))
        × ((into_response (not_found (session_not_found session_id))).status ≡ 500)
  unfolding handler into_response
  handler-missing_session result w₀ w₁ w₂ a f = (rw a (rw f), refl)
