-- ===== src/Auth/Dispatch.antt =====
-- crates/overlay-mcp-auth/src/lib.rs: the authorizer and the authenticator that the configuration chooses. What
-- the client of OpenFGA answers is the parameter `check`, as in Fga.antt.
use overlay_mcp.Base.{String, Option, List, [], ◌∷◌, Result, ok, map_err, ◌>>=◌}
use overlay_mcp.Core.Errors.{Error, PointerBuf, openfga_error}
use overlay_mcp.Core.Json.{Value}
use overlay_mcp.Core.Models.{Authentication, AuthorizationResult}
use overlay_mcp.Core.Config.{
  AuthConfig, AuthorizerFgaConfig, open_fga as by_open_fga, static as by_static,
}
use overlay_mcp.Openfga.{
  Openfga, Server, Builder, CheckBody, CheckResponse, build, with_header, connect, display,
}
use overlay_mcp.Auth.Static.{StaticAuthz}
use overlay_mcp.Auth.Static
use overlay_mcp.Auth.Fga.{OpenfgaAuthzConfig}
use overlay_mcp.Auth.Fga

pub data Authz : Type 0 where
  static : StaticAuthz → Authz
  open_fga : Openfga → OpenfgaAuthzConfig → Authz

module _ (server : Server) where
  -- `for (key, value) in config.headers.iter()`
  unfoldable pub with_headers : Builder → List (String × String) → Builder
  with_headers builder [] = builder
  with_headers builder ((key, value) ∷ headers) =
      with_headers (with_header server builder key value) headers

  -- `OpenfgaAuthz::new`
  unfoldable pub new_fga : AuthorizerFgaConfig → Result Authz Error
  new_fga config =
      map_err (λ e. openfga_error (display e))
        (connect server (with_headers (build config.url config.store) config.headers))
      >>= λ openfga. ok (
          open_fga openfga
            (record { check = config.check; apikey = config.apikey; jwt = config.jwt }))

  -- `Authz::new`
  unfoldable pub new : {Jwk : Type 0} → AuthConfig Jwk → Result Authz Error
  new (by_open_fga _ openfga) = new_fga openfga
  new (by_static _ constant) = Static.new constant >>= λ authz. ok (static authz)

module _ (resolve : PointerBuf → Value → Option Value)
    (check : Openfga → CheckBody → Result CheckResponse Error) where
  unfoldable pub authorize_enter : Authz → Authentication → Result AuthorizationResult Error
  authorize_enter (static authz) target = Static.authorize_enter resolve authz target
  authorize_enter (open_fga openfga authz) target =
      Fga.authorize_enter resolve (check openfga) authz target

  -- The tool that a message calls, if it is a `tools/call` request, is what is read of it.
  unfoldable pub authorize_client_message :
      {Message : Type 0}
      → (called_tool : Message → Option String) → Authz
      → Authentication
      → Message
      → Result AuthorizationResult Error
  authorize_client_message called_tool (static authz) target message =
      Static.authorize_client_message authz target message
  authorize_client_message called_tool (open_fga openfga authz) target message =
      Fga.authorize_client_message resolve (check openfga) authz target (called_tool message)

unfoldable pub authorize_server_message :
    {Message : Type 0} → Authz → Authentication → Message → Result AuthorizationResult Error
authorize_server_message (static authz) target message =
    Static.authorize_server_message authz target message
authorize_server_message (open_fga openfga authz) target message =
    Fga.authorize_server_message authz target message
