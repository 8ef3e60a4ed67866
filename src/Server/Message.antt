-- ===== src/Server/Message.antt =====
-- crates/overlay-mcp-svr/src/router/message.rs: `POST /message`. The sessions and their manager are
-- the records of general.rs; the authorizer's answer is a parameter.
pub mod Denied
pub mod Examples
use overlay_mcp.Base.{String, ℕ, Option, none, some, Result, ok, err}
use overlay_mcp.Core.Errors.{Error, not_found, session_not_found}
use overlay_mcp.Core.Models.{
  Authentication, AuthorizationResult, allow, deny, unauthorized, to_err_response,
}
use overlay_mcp.Core.Action.{Action, pure, fail, lift, ◌>>=◌, ◌>>◌, dropping}
use overlay_mcp.Core.General.{GeneralSession, GeneralSessionManager, ensure_started}

pub data NumberOrString : Type 0 where
  number : ℕ → NumberOrString
  string : String → NumberOrString

-- rmcp's `JsonRpcMessage`: what the program reads of it is the id.
pub data JsonRpcMessage (Req Res Noti : Type 0) : Type 0 where
  request : (id : NumberOrString) → Req → JsonRpcMessage Req Res Noti
  response : (id : NumberOrString) → Res → JsonRpcMessage Req Res Noti
  notification : Noti → JsonRpcMessage Req Res Noti
  error : (id : NumberOrString) → (code message : String) → JsonRpcMessage Req Res Noti

unfoldable pub extract_json_rpc_id :
    {Req Res Noti : Type 0} → JsonRpcMessage Req Res Noti → Option NumberOrString
extract_json_rpc_id (request id _) = some id
extract_json_rpc_id (response id _) = some id
extract_json_rpc_id (notification _) = none
extract_json_rpc_id (error id _ _) = some id

abbrev unwrap_or {ℓ} : {A : Type ℓ} → Option A → A → A
unwrap_or none d = d
unwrap_or (some a) d = a

abbrev pub accepted : ℕ
accepted = 202

-- What a denied client is told: the answer to its own message.
unfoldable pub denial :
    {Req Res Noti SReq SRes SNoti : Type 0}
    → JsonRpcMessage Req Res Noti
    → JsonRpcMessage SReq SRes SNoti
unfolding extract_json_rpc_id
denial json =
    error (unwrap_or (extract_json_rpc_id json) (number 0)) "INVALID_REQUEST"
      "This method is not allowed"

module _ {W Session Parts Req Res Noti SReq SRes SNoti : Type 0}
    (g : GeneralSession W Session Parts
      (JsonRpcMessage Req Res Noti)
      (JsonRpcMessage SReq SRes SNoti)) where
  -- `guard_bypass_downstream` and `send`; the guard is dropped at the end of the arm.
  unfoldable pub refuse : Session → JsonRpcMessage Req Res Noti → Action W (Unit {0})
  refuse session json = do
    g.guard_bypass_downstream session
    dropping (g.drop_bypass_downstream session) (g.send_bypass session (denial json))

  -- `match result`
  unfoldable pub answer :
      AuthorizationResult → Session → JsonRpcMessage Req Res Noti → Action W (Unit {0})
  answer allow session json = pure tt
  answer deny session json = refuse session json
  answer unauthorized session json = lift (to_err_response unauthorized)

  -- `guard_upstream` and `send`; the guard is dropped when the handler returns.
  unfoldable pub forward : Session → JsonRpcMessage Req Res Noti → Action W ℕ
  forward session json = do
    g.guard_upstream session
    dropping (g.drop_upstream session) (do g.send_upstream session json; pure accepted)

  module _ (m : GeneralSessionManager W Session)
      (authorize_client_message : Authentication
        → JsonRpcMessage Req Res Noti
        → Action W AuthorizationResult) where
    unfoldable pub handler :
        Authentication → String → Parts → JsonRpcMessage Req Res Noti → Action W ℕ
    handler authn session_id parts json = do
      result ← authorize_client_message authn json
      found ← m.find session_id
      elim found [
        | none ↦ fail (not_found (session_not_found session_id))
        | some session ↦ do
          ensure_started g session parts
          answer result session json
          forward session json
      ]
