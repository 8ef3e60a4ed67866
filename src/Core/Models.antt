-- ===== src/Core/Models.antt =====
-- crates/overlay-mcp-core/src/models.rs, with the parts of `http` and `jsonwebtoken` that it holds.
use overlay_mcp.Base.{String, Option, Result, ok, err}
use overlay_mcp.Core.Json.{Value}
use overlay_mcp.Core.Errors.{Error, forbidden, authorization_failed, authentication_failed}

-- crates/httpbuilder/src/http_reference.rs
pub data HttpReference : Type 0 where
  header query : String → HttpReference

-- `jsonwebtoken::Header`: the algorithm by its name, and the key id.
pub record Header : Type 0 where
  pub alg : String
  pub kid : Option String

-- `jsonwebtoken::TokenData`
pub record TokenData : Type 0 where
  pub header : Header
  pub claims : Value

pub data Authentication : Type 0 where
  api_key : (apikey : String) (apikey_from : HttpReference) → Authentication
  jwt : TokenData → Authentication
  no_auth : Authentication

pub data AuthorizationResult : Type 0 where
  allow deny unauthorized : AuthorizationResult

unfoldable pub to_err_response : AuthorizationResult → Result (Unit {0}) Error
to_err_response allow = ok tt
to_err_response deny = err (forbidden authorization_failed)
to_err_response unauthorized = err (Error.unauthorized authentication_failed)
