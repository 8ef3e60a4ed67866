-- ===== src/Server/Message/Examples.antt =====
-- The theorems about `POST /message` over a world that records what is sent, and tests.
use overlay_mcp.Base.{String, ◌≡◌, refl, Bool, true, false, none, some, List, [], ◌∷◌, ok}
use overlay_mcp.Core.Models.{Authentication, no_auth, AuthorizationResult, deny}
use overlay_mcp.Core.Action.{Action, pure}
use overlay_mcp.Core.General.{GeneralSession, GeneralSessionManager, ensure_started}
use overlay_mcp.Server.Message.{
  JsonRpcMessage, request, NumberOrString, number, denial, refuse, forward, handler, accepted,
}

abbrev Message : Type 0
Message = JsonRpcMessage String String String

record Wire : Type 0 where
  started : Bool
  to_upstream : List Message
  to_client : List Message

abbrev quiet : Wire
quiet = record { started = false; to_upstream = []; to_client = [] }

abbrev wire_session : GeneralSession Wire String (Unit {0}) Message Message
wire_session = record {
  session_id = λ s. s;
  upstream_url = λ s. "http://upstream/sse";
  guard_upstream = λ s. pure tt;
  drop_upstream = λ s w. w;
  guard_downstream = λ s. pure tt;
  drop_downstream = λ s w. w;
  guard_bypass_downstream = λ s. pure tt;
  drop_bypass_downstream = λ s w. w;
  guard_close = λ s. pure tt;
  drop_close = λ s w. w;
  is_started = λ s w. w.started;
  start = λ s parts w. (ok tt, record w { started = true });
  stop = λ s. pure tt;
  close = λ s. pure tt;
  send_upstream = λ s json w. (ok tt, record w { to_upstream = json ∷ w.to_upstream });
  send_bypass = λ s json w. (ok tt, record w { to_client = json ∷ w.to_client });
}

abbrev one_session : GeneralSessionManager Wire String
one_session = record { create = λ url. pure "s1"; find = λ id. pure (some id) }

abbrev no_session : GeneralSessionManager Wire String
no_session = record { create = λ url. pure "s1"; find = λ id. pure none }

abbrev call_tool : Message
call_tool = request (number 7) "tools/call"

abbrev always : AuthorizationResult → Authentication → Message → Action Wire AuthorizationResult
always result authn json = pure result

abbrev started_wire : Wire
started_wire = record quiet { started = true }

abbrev told : Wire
told = record started_wire { to_client = denial call_tool ∷ [] }

-- The denied call reaches the upstream.
denied_call_is_sent :
    handler wire_session one_session (always deny) no_auth "s1" tt call_tool quiet
    ≡ (ok accepted, record told { to_upstream = call_tool ∷ [] })
unfolding handler overlay_mcp.Server.Message.answer refuse denial forward ensure_started
denied_call_is_sent = refl
