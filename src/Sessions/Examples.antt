-- ===== src/Sessions/Examples.antt =====
-- The theorem about the choice of a session manager at two concrete ones.
use overlay_mcp.Base.{String, ◌≡◌, true, some, List, [], ◌∷◌, ok}
use overlay_mcp.Core.Errors.{Url}
use overlay_mcp.Core.Models.{Authentication, no_auth, AuthorizationResult, allow}
use overlay_mcp.Core.Action.{Action, pure}
use overlay_mcp.Core.General.{GeneralSession, GeneralSessionManager}
use overlay_mcp.Server.Message.{JsonRpcMessage, request, number}
use overlay_mcp.Server.Message
use overlay_mcp.Server.Sse
use overlay_mcp.Sessions.{SessionManager, session_ops, manager_ops}
use overlay_mcp.Sessions.Chosen.{handlers-chosen}

abbrev TextMessage : Type 0
TextMessage = JsonRpcMessage String String String

-- What is sent upstream, with the kind of the session.
abbrev World : Type 0
World = List (String × TextMessage)

abbrev ops : (kind : String) → GeneralSession World String (Unit {0}) TextMessage TextMessage
ops kind = record {
  session_id = λ s. s;
  upstream_url = λ s. "http://upstream/sse";
  guard_upstream = λ s. pure tt;
  drop_upstream = λ s w. w;
  guard_downstream = λ s. pure tt;
  drop_downstream = λ s w. w;
  guard_bypass_downstream = λ s. pure tt;
  drop_bypass_downstream = λ s w. w;
  guard_close = λ s. pure tt;
  drop_close = λ s w. w;
  is_started = λ s w. true;
  start = λ s parts. pure tt;
  stop = λ s. pure tt;
  close = λ s. pure tt;
  send_upstream = λ s json w. (ok tt, (kind, json) ∷ w);
  send_bypass = λ s json. pure tt;
}

abbrev managers : Unit {0} → GeneralSessionManager World String
managers _ = record { create = λ url. pure "s2"; find = λ id. pure (some id) }

abbrev allowing : Authentication → TextMessage → Action World AuthorizationResult
allowing authn json = pure allow

abbrev resolve : Unit {0} → Action World Url
resolve parts = pure "http://upstream/sse"

abbrev entering : Authentication → Action World AuthorizationResult
entering authn = pure allow

abbrev encode : List (String × String) → String
encode pairs = "session_id=s1"

abbrev call : TextMessage
call = request (number 7) "tools/call"

handlers-chosen_example :
    ((manager : Unit {0})
      → let chosen = manager_ops managers managers (SessionManager.standalone manager) in
        (Message.handler
            (session_ops (ops "standalone") (ops "raft"))
            chosen
            allowing
            no_auth
            "s1"
            tt
            call
            []
          ≡ Message.handler (ops "standalone") (managers manager) allowing no_auth "s1" tt call [])
        × (Sse.handler
              (session_ops (ops "standalone") (ops "raft"))
              chosen
              resolve
              entering
              encode
              no_auth
              (some "s1")
              tt
              []
            ≡ Sse.handler
                (ops "standalone")
                (managers manager)
                resolve
                entering
                encode
                no_auth
                (some "s1")
                tt
                []))
    × ((manager : Unit {0})
        → let chosen = manager_ops managers managers (SessionManager.raft manager) in
          (Message.handler
              (session_ops (ops "standalone") (ops "raft"))
              chosen
              allowing
              no_auth
              "s1"
              tt
              call
              []
            ≡ Message.handler (ops "raft") (managers manager) allowing no_auth "s1" tt call [])
          × (Sse.handler
                (session_ops (ops "standalone") (ops "raft"))
                chosen
                resolve
                entering
                encode
                no_auth
                (some "s1")
                tt
                []
              ≡ Sse.handler
                  (ops "raft")
                  (managers manager)
                  resolve
                  entering
                  encode
                  no_auth
                  (some "s1")
                  tt
                  []))
handlers-chosen_example =
    handlers-chosen (ops "standalone") (ops "raft") managers managers allowing resolve entering
      encode no_auth "s1" (some "s1") tt call []
