-- ===== src/Core/Responses.antt =====
-- crates/overlay-mcp-core/src/errors.rs: `IntoResponse for Error`.
use overlay_mcp.Base.{String, ℕ}
use overlay_mcp.Core.Errors.{
  Error, bad_request, unauthorized, forbidden, fatal, display400, display401, display403,
  display_fatal,
}

pub record Response : Type 0 where
  pub status : ℕ
  pub body : String

unfoldable pub into_response : Error → Response
unfolding display400 display401 display403 display_fatal
into_response (bad_request e) = record { status = 400; body = display400 e }
into_response (unauthorized e) = record { status = 401; body = display401 e }
into_response (forbidden e) = record { status = 403; body = display403 e }
into_response (fatal e) = record { status = 500; body = display_fatal e }
into_response _ = record { status = 500; body = "" }
