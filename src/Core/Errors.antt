-- ===== src/Core/Errors.antt =====
-- crates/overlay-mcp-core/src/errors.rs. A library's error is kept as its printed text.
use overlay_mcp.Base.{String, ◌<>◌}

-- A JSON pointer and a URL are kept as their text.
abbrev pub PointerBuf : Type 0
PointerBuf = String

abbrev pub Url : Type 0
Url = String

pub data JwtContextPointerType : Type 0 where
  string string_array : JwtContextPointerType

pub data Error400 : Type 0 where
  invalid_url : String → Error400
  invalid_header_string : String → Error400
  bearer_token_expected : String → Error400
  invalid_token : String → Error400

pub data Error401 : Type 0 where
  authentication_failed : Error401

pub data Error403 : Type 0 where
  authorization_failed : Error403

pub data Error404 : Type 0 where
  session_not_found : String → Error404

pub data Error503 : Type 0 where
  no_upstream_mcp_server : Error503

pub data FatalError : Type 0 where
  timeout : FatalError
  token_request_error : FatalError
  claim_path_not_found : PointerBuf → FatalError
  unexpected_claim_type : JwtContextPointerType → FatalError
  raft_unresolved_node_id : String → FatalError

pub data Error : Type 0 where
  bad_request : Error400 → Error
  unauthorized : Error401 → Error
  forbidden : Error403 → Error
  not_found : Error404 → Error
  service_unavailable : Error503 → Error
  jwt_claim_type_error : (path : PointerBuf) (expected_type actual_type : String) → Error
  no_token_endpoint : Error
  already_started_session already_stopped_session already_closed_session : String → Error
  fatal : FatalError → Error
  openfga_error reqwest_error json_error jwt_error url_error discovery_error : String → Error
  sse_transport_error hickory_resolver_error configuration_error hiqlite_error : String → Error
  tokio_broadcast_error : Error

-- `to_string`, from the `#[error]` attributes.
unfoldable pub display400 : Error400 → String
display400 (invalid_url _) = "Invalid request"
display400 (invalid_header_string name) = "Invalid header string data " <> name
display400 (bearer_token_expected got) = "'Bearer' type expected, but got " <> got
display400 (invalid_token what) = "Invalid token: " <> what

unfoldable pub display401 : Error401 → String
display401 authentication_failed = "Authentication failed"

unfoldable pub display403 : Error403 → String
display403 authorization_failed = "Authorization failed"

unfoldable pub display_fatal : FatalError → String
display_fatal timeout = "Timeout"
display_fatal token_request_error = "Token request error"
display_fatal (claim_path_not_found _) = "Claim path not found"
display_fatal (unexpected_claim_type _) = "Unexpected claim type: 0"
display_fatal (raft_unresolved_node_id what) = "Raft config error: " <> what
