-- ===== src/Server/Routes/Examples.antt =====
-- The theorems about the routes at a request without credentials, over a world that records what goes upstream.
use overlay_mcp.Base.{
  String, ◌==◌, ◌≡◌, refl, ◌⊎◌, true, Option, none, some, List, [], ◌∷◌, Result, ok, if◌then◌else◌,
}
use overlay_mcp.Core.Errors.{Error, PointerBuf}
use overlay_mcp.Core.Json.{Value}
use overlay_mcp.Core.Models.{Authentication, no_auth, AuthorizationResult}
use overlay_mcp.Core.Responses.{Response}
use overlay_mcp.Core.Action.{Action, pure}
use overlay_mcp.Core.General.{GeneralSession, GeneralSessionManager}
use overlay_mcp.Http.Request.{Parts, HeaderValue, pick_session_id, find_value}
use overlay_mcp.Openfga.{Openfga, CheckBody, CheckResponse}
use overlay_mcp.Auth.Static.{StaticAuthz}
use overlay_mcp.Auth.Fga.{OpenfgaAuthzConfig}
use overlay_mcp.Auth.Dispatch.{Authz, static, open_fga}
use overlay_mcp.Server.Extract.{Request, Mime, json_content_type}
use overlay_mcp.Server.Message.{JsonRpcMessage, request, number, handler}
use overlay_mcp.Server.Routes.{answered, post_message}
use overlay_mcp.Server.Routes.Outcome.{Accepts, Refused, layered, post_message-outcome}
use overlay_mcp.Server.Routes.Credentials.{authorize, post_message-no_credentials}

abbrev Message : Type 0
Message = JsonRpcMessage String String String

abbrev World : Type 0
World = List Message

abbrev ops : GeneralSession World String Parts Message Message
ops = record {
  session_id = λ s. s;
  upstream_url = λ s. "http://upstream/sse";
  guard_upstream = λ s. pure tt;
  drop_upstream = λ s w. w;
  guard_downstream = λ s. pure tt;
  drop_downstream = λ s w. w;
  guard_bypass_downstream = λ s. pure tt;
  drop_bypass_downstream = λ s w. w;
  guard_close = λ s. pure tt;
  drop_close = λ s w. w;
  is_started = λ s w. true;
  start = λ s parts. pure tt;
  stop = λ s. pure tt;
  close = λ s. pure tt;
  send_upstream = λ s json w. (ok tt, json ∷ w);
  send_bypass = λ s json. pure tt;
}

abbrev managers : Unit {0} → GeneralSessionManager World String
managers _ = record { create = λ url. pure "s1"; find = λ id. pure (some id) }

abbrev authenticate : Unit {0} → Parts → Result Authentication Error
authenticate _ parts = ok no_auth

abbrev parse_query : String → List (String × String)
parse_query query = ("session_id", query) ∷ []

abbrev missing : Response
missing = record { status = 500; body = "" }

abbrev parse_mime : String → Option Mime
parse_mime text = some (record { type_ = "application"; subtype = "json"; suffix = none })

abbrev from_bytes : String → Result Message Response
from_bytes bytes = ok (request (number 7) bytes)

abbrev called_tool : Message → Option String
called_tool json = some "echo"

abbrev resolve : PointerBuf → Value → Option Value
resolve path value = none

abbrev check : Openfga → CheckBody → Result CheckResponse Error
check openfga body = ok (record { allowed = true; resolution = "" })

abbrev no_lists : StaticAuthz
no_lists = record { apikey = record { whitelist = []; blacklist = [] }; jwt = [] }

abbrev json_header : String → Option HeaderValue
json_header name =
    if name == "content-type" then some (record { to_str = some "application/json" }) else none

abbrev bare : Request (Unit {0}) Authz (Unit {0})
bare = record {
  parts = record { headers = json_header; query = some "s1" };
  extensions = record { authn = none; authz = none; session_manager = none };
  body = ok "tools/call";
}

abbrev call : Message
call = request (number 7) "tools/call"

bare_is_accepted : Accepts authenticate parse_query parse_mime from_bytes tt bare no_auth "s1" call
unfolding pick_session_id find_value json_content_type
bare_is_accepted = (refl, refl, refl, ("tools/call", refl, refl))

post_message-no_credentials_example :
    ((openfga : Openfga) (config : OpenfgaAuthzConfig) (tool : String)
      → called_tool call ≡ some tool
      → post_message ops managers authenticate parse_query missing
          (authorize resolve check called_tool)
          parse_mime
          from_bytes
          (layered tt (open_fga openfga config) tt bare)
          []
        ≡ (record { status = 401; body = "Authentication failed" }, []))
    × ((lists : StaticAuthz) (a : Authentication)
        → post_message ops managers authenticate parse_query missing
            (authorize resolve check called_tool)
            parse_mime
            from_bytes
            (layered tt (static lists) tt bare)
            []
          ≡ answered (
              handler ops
                (managers tt)
                (authorize resolve check called_tool (static lists))
                a
                "s1"
                bare.parts
                call
                []))
post_message-no_credentials_example =
    post_message-no_credentials ops managers authenticate parse_query missing resolve check
      called_tool parse_mime from_bytes tt tt bare "s1" call [] bare_is_accepted

abbrev allowing : Authz → Authentication → Message → Action World AuthorizationResult
allowing authz a json = pure AuthorizationResult.allow

abbrev response_to_bare : Response × World
response_to_bare =
    post_message ops managers authenticate parse_query missing allowing parse_mime from_bytes
      (layered tt (static no_lists) tt bare) []

post_message-outcome_example :
    ((a : Authentication) × (id : String) × (json : Message) × Accepts authenticate parse_query
        parse_mime from_bytes tt bare a id json
      × (response_to_bare
          ≡ answered
              (handler ops (managers tt) (allowing (static no_lists)) a id bare.parts json [])))
    ⊎ ((refusal : Response) × Refused authenticate parse_query parse_mime from_bytes tt bare refusal
        × (response_to_bare ≡ (refusal, [])))
post_message-outcome_example =
    post_message-outcome ops managers authenticate parse_query missing allowing parse_mime
      from_bytes tt (static no_lists) tt bare []
