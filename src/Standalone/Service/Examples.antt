-- ===== src/Standalone/Service/Examples.antt =====
-- The theorems about a standalone server over a network that records what is sent, and tests.
use overlay_mcp.Base.{
  String, ℕ, ◌≡◌, ◌≢◌, refl, true, false, none, some, List, [], ◌∷◌, lookup, Result, ok, err,
}
use overlay_mcp.Core.Errors.{
  Error, Url, fatal, timeout, not_found, session_not_found, already_closed_session,
}
use overlay_mcp.Core.Models.{Authentication, no_auth, AuthorizationResult, allow, deny}
use overlay_mcp.Core.Action.{Action, pure}
use overlay_mcp.Core.Slots.{lone}
use overlay_mcp.Server.Sse
use overlay_mcp.Server.Message.{JsonRpcMessage, request, number, denial}
use overlay_mcp.Standalone
use overlay_mcp.Standalone.{stopped, cancel, Session, started}
use overlay_mcp.Standalone.Manager.{empty}
use overlay_mcp.Standalone.Moves.{Moves}
use overlay_mcp.Standalone.Service.{Node, Peers, clean}
use overlay_mcp.Standalone.Service.Runs.{get}
use overlay_mcp.Standalone.Service.Opening.{relaying, post-opens}
use overlay_mcp.Standalone.Service.Denied.{post-denied}
use overlay_mcp.Standalone.Service.Busy.{get-busy}
use overlay_mcp.Standalone.Service.Busy
use overlay_mcp.Standalone.Service.Delivery.{post, post-delivers, post-ended, ended}

abbrev Message : Type 0
Message = JsonRpcMessage String String String

abbrev World : Type 0
World = Node ℕ ℕ ℕ ℕ ℕ (List Message)

abbrev wire : Peers ℕ ℕ ℕ ℕ ℕ (List Message) Message Message
wire = record {
  fresh = λ net. record {
    session_id = "s1";
    upstream = 1;
    downstream = 2;
    bypass_downstream = 3;
    clt_recv = 4;
    svr_send = 5;
  };
  upstream_looks = λ net s. [];
  downstream_looks = λ net s. [];
  bypass_looks = λ net s. [];
  stop_looks = λ net s. [];
  opened = λ net s. (s, ok tt);
  send_client = λ u json net. (some tt, json ∷ net);
  send_server = λ b json net. (some tt, json ∷ net);
}

abbrev quiet : World
quiet = record { manager = empty; closed = []; upstream_urls = []; net = [] }

abbrev allow_message : Authentication → Message → Action World AuthorizationResult
allow_message authn json = pure allow

abbrev allow_enter : Authentication → Action World AuthorizationResult
allow_enter authn = pure allow

abbrev to_upstream : Unit {0} → Action World Url
to_upstream parts = pure "http://upstream/sse"

abbrev plain : List (String × String) → String
plain pairs = ""

abbrev call_tool : Message
call_tool = request (number 7) "tools/call"

-- A session whose transport runs.
abbrev running : Session ℕ ℕ ℕ ℕ ℕ
running = record {
  session_id = "s1";
  upstream = lone 1;
  downstream = record { free = none; lent = 2 ∷ [] };
  bypass_downstream = lone 3;
  connection = started false;
  starting = none;
  relay = some (4, 5);
  cancelled = false;
}

abbrev serving : World
serving = record {
  manager = record { sessions = ("s1", running) ∷ [] };
  closed = [];
  upstream_urls = ("s1", "http://upstream/sse") ∷ [];
  net = [];
}

abbrev opened : World
opened = (get wire allow_message allow_enter to_upstream plain no_auth none tt quiet).1

post-delivers_example :
    ((post wire allow_message no_auth "s1" tt call_tool serving).0 ≡ ok 202)
    × ((post wire allow_message no_auth "s1" tt call_tool serving).1.net ≡ call_tool ∷ [])
    × (lookup "s1" (post wire allow_message no_auth "s1" tt call_tool serving).1.manager.sessions
        ≡ some running)
    × ((other : String)
        → "s1" ≢ other
        → lookup other
            (post wire allow_message no_auth "s1" tt call_tool serving).1.manager.sessions
          ≡ lookup other serving.manager.sessions)
unfolding lookup
post-delivers_example =
    post-delivers wire allow_message no_auth "s1" tt call_tool "http://upstream/sse" running 1
      serving (call_tool ∷ []) refl refl refl false refl refl refl refl

abbrev over : World
over =
    ended wire allow_message no_auth "s1" tt call_tool to_upstream allow_enter plain
      "http://upstream/sse" running serving

post-ended_example :
    ((post wire allow_message no_auth "s1" tt call_tool over).0 ≡ err (already_closed_session "s1"))
    × ((post wire allow_message no_auth "s1" tt call_tool over).1.net ≡ [])
    × (post wire allow_message no_auth "s1" tt call_tool (clean "s1" over)
        ≡ (err (not_found (session_not_found "s1")), clean "s1" over))
    × ((clean "s1" over).net ≡ [])
unfolding lookup
post-ended_example =
    post-ended wire allow_message no_auth "s1" tt call_tool to_upstream allow_enter plain
      "http://upstream/sse" running serving refl refl refl (λ v. refl)

-- A session that nothing was sent to yet.
abbrev idle : Session ℕ ℕ ℕ ℕ ℕ
idle = record running { connection = stopped 4 5; relay = none }

abbrev waiting : World
waiting = record serving { manager = record { sessions = ("s1", idle) ∷ [] } }

post-opens_example :
    ((post wire allow_message no_auth "s1" tt call_tool waiting).0 ≡ ok 202)
    × ((post wire allow_message no_auth "s1" tt call_tool waiting).1.net ≡ call_tool ∷ [])
    × (lookup "s1" (post wire allow_message no_auth "s1" tt call_tool waiting).1.manager.sessions
        ≡ some (relaying idle 4 5))
unfolding lookup
post-opens_example =
    post-opens wire allow_message no_auth "s1" tt call_tool "http://upstream/sse" idle 1 4 5 waiting
      (call_tool ∷ []) refl refl refl refl refl refl refl refl

abbrev deny_message : Authentication → Message → Action World AuthorizationResult
deny_message authn json = pure deny

post-denied_example :
    let after = post wire deny_message no_auth "s1" tt call_tool serving in
    (after.0 ≡ ok 202)
    × (after.1.net ≡ call_tool ∷ denial call_tool ∷ [])
    × (lookup "s1" after.1.manager.sessions ≡ some running)
    × ((other : String)
        → "s1" ≢ other
        → lookup other after.1.manager.sessions ≡ lookup other serving.manager.sessions)
unfolding lookup
post-denied_example =
    post-denied wire deny_message no_auth "s1" tt call_tool "http://upstream/sse" running 1 3
      serving (denial call_tool ∷ []) (call_tool ∷ denial call_tool ∷ []) refl refl false refl refl
      refl refl refl refl refl

-- A second stream for the session of `serving`, whose first stream holds the downstream.
abbrev twice : Result String Error × World
twice = Busy.get wire to_upstream allow_enter plain no_auth "s1" tt serving

get-busy_example :
    (twice.0 ≡ err (fatal timeout))
    × (lookup "s1" twice.1.manager.sessions ≡ some (cancel running))
    × ((cancel running).cancelled ≡ true)
    × Busy.IsLent (cancel running)
    × (twice.1.net ≡ [])
unfolding lookup
get-busy_example =
    get-busy wire to_upstream allow_enter plain no_auth "s1" tt "http://upstream/sse" running
      serving false refl refl refl refl tt refl refl
