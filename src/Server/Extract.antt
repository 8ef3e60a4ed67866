-- ===== src/Server/Extract.antt =====
-- The extractors of crates/overlay-mcp-svr/src: middlewares/auth.rs, middlewares/session.rs and
-- utils/jsonrequest.rs, with the layers that set what the first ones read. An extractor that refuses
-- answers its own response. axum's part (the body, `Json::from_bytes`, `Extension`) and mime's parser are parameters.
use overlay_mcp.Base.{
  String, ◌==◌, Bool, false, ◌&&◌, ◌||◌, Option, none, some, List, Result, ok, err, ok_or, ◌>>=◌,
  if◌then◌else◌,
}
use overlay_mcp.Core.Errors.{Error}
use overlay_mcp.Core.Models.{Authentication}
use overlay_mcp.Core.Responses.{Response}
use overlay_mcp.Http.Request.{Parts, HeaderValue, pick_session_id}

-- What the layers put into a request's extensions.
pub record Extensions (Authn Authz Manager : Type 0) : Type 0 where
  pub authn : Option Authn
  pub authz : Option Authz
  pub session_manager : Option Manager

-- Why `collect` fails: the limit of the body, or anything else.
pub data BodyError : Type 0 where
  length_limit other : BodyError

pub record Request (Authn Authz Manager : Type 0) : Type 0 where
  pub parts : Parts
  pub extensions : Extensions Authn Authz Manager
  pub body : Result String BodyError

pub record Mime : Type 0 where
  pub type_ : String
  pub subtype : String
  pub suffix : Option String

abbrev pub empty_response : Response
empty_response = record { status = 500; body = "" }

module _ {Authn Authz Manager : Type 0} where
  -- `AuthMiddleware::call` and `SessionManagerMiddleware::call`, before `inner.call`.
  unfoldable pub insert_auth :
      Authn → Authz → Request Authn Authz Manager → Request Authn Authz Manager
  insert_auth authn authz req = record req {
    extensions = record req.extensions { authn = some authn; authz = some authz };
  }

  unfoldable pub insert_session_manager :
      Manager → Request Authn Authz Manager → Request Authn Authz Manager
  insert_session_manager session_manager req = record req {
    extensions = record req.extensions { session_manager = some session_manager };
  }

abbrev pub failed_as_500 : Result Authentication Error → Result Authentication Response
failed_as_500 (ok authn) = ok authn
failed_as_500 (err _) = err empty_response

-- `HttpAuthentication::from_request_parts`
unfoldable pub http_authentication :
    {Authn : Type 0}
    → (authenticate : Authn → Parts → Result Authentication Error) → Option Authn
    → Parts
    → Result Authentication Response
http_authentication authenticate authn parts =
    ok_or authn empty_response >>= λ authn. failed_as_500 (authenticate authn parts)

-- `HttpSessionId::from_request_parts`, the required one and the optional one.
unfoldable pub http_session_id :
    (parse_query : String → List (String × String)) → Parts → Result String Response
http_session_id parse_query parts =
    ok_or (pick_session_id parse_query parts) (record { status = 400; body = "no session id" })

unfoldable pub optional_session_id :
    (parse_query : String → List (String × String)) → Parts → Result (Option String) Response
optional_session_id parse_query parts = ok (pick_session_id parse_query parts)

abbrev is_json_name : Option String → Bool
is_json_name none = false
is_json_name (some name) = name == "json"

abbrev is_json_content_type : Option Mime → Bool
is_json_content_type none = false
is_json_content_type (some mime) =
    (mime.type_ == "application") && ((mime.subtype == "json") || is_json_name mime.suffix)

abbrev pub body_refused : BodyError → Response
body_refused length_limit = record { status = 413; body = "Failed to buffer the request body" }
body_refused other = record { status = 400; body = "Failed to buffer the request body" }

abbrev pub collected : Result String BodyError → Result String Response
collected (ok bytes) = ok bytes
collected (err e) = err (body_refused e)

module _ (parse_mime : String → Option Mime) where
  abbrev is_json_text : Option String → Bool
  is_json_text none = false
  is_json_text (some content_type) = is_json_content_type (parse_mime content_type)

  abbrev is_json_header : Option HeaderValue → Bool
  is_json_header none = false
  is_json_header (some content_type) = is_json_text content_type.to_str

  unfoldable pub json_content_type : Parts → Bool
  json_content_type parts = is_json_header (parts.headers "content-type")

  -- `JsonRequest::from_request`, with the answer that axum gives for a body that is no such JSON.
  unfoldable pub json_request :
      {T : Type 0}
      → (from_bytes : String → Result T Response) → Parts
      → Result String BodyError
      → Result T Response
  json_request from_bytes parts body =
      let read = collected body >>= from_bytes in
      if json_content_type parts
      then read
      else err (record { status = 415; body = "missing json content type" })
