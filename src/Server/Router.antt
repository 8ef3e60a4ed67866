-- ===== src/Server/Router.antt =====
-- crates/overlay-mcp-svr/src/router/mod.rs, with meta/mod.rs and well_known/mod.rs: what the server is put together from, and
-- its routes. `none` is a panic. The providers, OpenFGA and hickory are what Authn.antt, Openfga.antt and
-- Resolver.antt take, and the constructors of the two session managers what Sessions.antt takes.
pub mod Chosen
pub mod Startup
pub mod Examples
use overlay_mcp.Base.{
  String, Bool, Option, none, some, List, [], ◌∷◌, ◌++◌, if◌then◌else◌, Result, ok, err,
}
use overlay_mcp.Core.Errors.{Error}
use overlay_mcp.Core.Action.{Action, pure, lift, continue, ◌>>=◌}
use overlay_mcp.Core.Config.{get_authenticater}
use overlay_mcp.Core.Application.{ApplicationConfig, Config}
use overlay_mcp.Openfga.{Server}
use overlay_mcp.Auth.Authn.{Libraries, InnerAuthn}
use overlay_mcp.Auth.Authn.Load.{Provider, OauthClient, new_authn}
use overlay_mcp.Auth.Dispatch
use overlay_mcp.Auth.Dispatch.{Authz}
use overlay_mcp.Resolver.{Resolver, try_new}
use overlay_mcp.Sessions
use overlay_mcp.Sessions.{SessionManager}
use overlay_mcp.Server.Oauth.{Authn}

pub data Method : Type 0 where
  get post : Method

-- `meta::router`, under its prefix
unfoldable pub meta_routes : ApplicationConfig → List (String × Method)
meta_routes config =
    (if config.health_check then ("/.meta/health", get) ∷ [] else [])
    ++ (if config.prometheus then ("/.meta/metrics", get) ∷ [] else [])

-- The routes of `router`, and those of the routers that it nests.
unfoldable pub routes : ApplicationConfig → List (String × Method)
unfolding meta_routes
routes config =
    ("/authorize", get)
    ∷ ("/register", post)
    ∷ ("/token", post)
    ∷ ("/sse", get)
    ∷ ("/message", post)
    ∷ ("/.well-known/oauth-authorization-server", get)
    ∷ meta_routes config

-- What the layers hand to the handlers, the routes, and the state.
pub record Router (l : Libraries) (RaftConfig SM RM : Type 0) : Type 0 where
  pub authn : Authn l.DecodingKey
  pub authz : Authz
  pub resolver : Resolver
  pub session_manager : SessionManager SM RM
  pub routes : List (String × Method)
  pub state : Config l.Jwk RaftConfig

module _ (l : Libraries) (provider : Provider l.Jwk) (server : Server)
    (builder_tokio : Result (Unit {0}) Error) {W RaftConfig SM RM : Type 0} (new_standalone : SM)
    (new_raft : RaftConfig → Action W RM) where
  -- What follows `Authn::new`.
  unfoldable pub with_authn :
      Config l.Jwk RaftConfig → Authn l.DecodingKey → Action W (Router l RaftConfig SM RM)
  with_authn config authn = do
    authz ← lift (Dispatch.new server config.auth)
    resolver ← lift (try_new builder_tokio config.upstream)
    session_manager ← Sessions.new new_standalone new_raft config.server.cluster
    pure (record {
      authn = authn;
      authz = authz;
      resolver = resolver;
      session_manager = session_manager;
      routes = routes config.application;
      state = config;
    })

  abbrev pub after_authn :
      Config l.Jwk RaftConfig
      → Option (Result (InnerAuthn l.DecodingKey × OauthClient) Error)
      → W
      → Option (Result (Router l RaftConfig SM RM) Error × W)
  unfolding with_authn
  after_authn config none w = none
  after_authn config (some (err e)) w = some (err e, w)
  after_authn config (some (ok (inner, oauth_client))) w =
      some (with_authn config (record { inner = inner; oauth_client = oauth_client }) w)

  unfoldable pub router :
      Config l.Jwk RaftConfig → W → Option (Result (Router l RaftConfig SM RM) Error × W)
  unfolding after_authn
  router config w =
      after_authn config (new_authn l provider (get_authenticater l.Jwk config.auth)) w
