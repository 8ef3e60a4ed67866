-- ===== src/Standalone/Service/Runs.antt =====
-- The sessions of a standalone server under its requests, the ends of its event streams, and its tasks.
use overlay_mcp.Base.{String, ℕ, ◌≡◌, Option, some, List, lookup}
use overlay_mcp.Core.Errors.{Url}
use overlay_mcp.Core.Models.{Authentication, AuthorizationResult}
use overlay_mcp.Core.Action.{Action}
use overlay_mcp.Server.Message
use overlay_mcp.Server.Message.{JsonRpcMessage}
use overlay_mcp.Server.Sse
use overlay_mcp.Server.Invariant.{Operation}
use overlay_mcp.Standalone.{Session, start}
use overlay_mcp.Standalone.Moves.{Move, Moves}
use overlay_mcp.Standalone.Service.{
  Handle, Node, Peers, put_session, session_ops, manager_ops, clean,
}

module _ {R S U D B Net Parts Req Res Noti SReq SRes SNoti : Type 0}
    (peers : Peers R S U D B Net (JsonRpcMessage Req Res Noti) (JsonRpcMessage SReq SRes SNoti))
    (authorize_client_message : Authentication
      → JsonRpcMessage Req Res Noti
      → Action (Node R S U D B Net) AuthorizationResult)
    (authorize_enter : Authentication → Action (Node R S U D B Net) AuthorizationResult)
    (resolve : Parts → Action (Node R S U D B Net) Url)
    (encode : List (String × String) → String) where
  abbrev pub post :
      Authentication → String → Parts → JsonRpcMessage Req Res Noti → Action (Node R S U D B Net) ℕ
  post = Message.handler (session_ops peers) (manager_ops peers) authorize_client_message

  abbrev pub get : Authentication → Option String → Parts → Action (Node R S U D B Net) String
  get = Sse.handler (session_ops peers) (manager_ops peers) resolve authorize_enter encode

  abbrev pub end_stream : Handle → Node R S U D B Net → Node R S U D B Net
  end_stream =
      Sse.end_stream (session_ops {Parts = Parts} peers) (manager_ops peers) resolve authorize_enter
        encode

  -- Requests, whole or an operation at a time, as they interleave where they wait; the ends of event streams,
  -- the tasks that clean up, those that move one session, and the network, in any order.
  pub data Runs (start : Node R S U D B Net) : Node R S U D B Net → Type 0 where
    begun : Runs start start
    posted :
        {w : Node R S U D B Net} (authn : Authentication) (id : String) (parts : Parts)
        (json : JsonRpcMessage Req Res Noti)
        → Runs start w
        → Runs start (post authn id parts json w).1
    got :
        {w : Node R S U D B Net} (authn : Authentication) (id : Option String) (parts : Parts)
        → Runs start w
        → Runs start (get authn id parts w).1
    operated :
        {w after : Node R S U D B Net}
        → Operation (session_ops {Parts = Parts} peers) (manager_ops peers) w after
        → Runs start w
        → Runs start after
    ended :
        {w : Node R S U D B Net} (handle : Handle) → Runs start w → Runs start (end_stream handle w)
    cleaned : {w : Node R S U D B Net} (id : String) → Runs start w → Runs start (clean id w)
    worked :
        {w : Node R S U D B Net} (id : String) (before after : Session R S U D B)
        → lookup id w.manager.sessions ≡ some before
        → Move before after
        → Runs start w
        → Runs start (put_session id after w)
    flowed :
        {w : Node R S U D B Net} (net : Net) → Runs start w → Runs start (record w { net = net })
