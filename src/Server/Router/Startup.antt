-- ===== src/Server/Router/Startup.antt =====
-- Which parts a server runs with, what a failed start leaves behind, and that its routes do not overlap.
use overlay_mcp.Base.{
  String, ◌≡◌, refl, sym, ap, ◌∙◌, subst, ◌⊎◌, inl, inr, Bool, true, false, Option, none, some,
  List, [], ◌∷◌, ◌++◌, map, ◌==◌, ◌&&◌, ◌||◌, not, if◌then◌else◌, Result, ok, err,
}
use overlay_mcp.Core.Errors.{Error}
use overlay_mcp.Core.Action.{Action, continue, pure, ◌>>=◌}
use overlay_mcp.Core.Config.{get_authenticater, UpstreamConfig}
use overlay_mcp.Core.Application.{ApplicationConfig, Config}
use overlay_mcp.Core.Cluster.{ClusterConfig}
use overlay_mcp.Openfga.{Server}
use overlay_mcp.Auth.Authn.{Libraries, InnerAuthn}
use overlay_mcp.Auth.Authn.Load.{Provider, OauthClient, new_authn}
use overlay_mcp.Auth.Dispatch
use overlay_mcp.Auth.Dispatch.{Authz, new_fga, with_headers}
use overlay_mcp.Resolver
use overlay_mcp.Resolver.{Resolver, try_new}
use overlay_mcp.Sessions
use overlay_mcp.Sessions.{SessionManager}
use overlay_mcp.Server.Oauth.{Authn}
use overlay_mcp.Server.Oauth.Token.{IsConfigured, configured_client, new_authn-IsConfigured}
use overlay_mcp.Server.Oauth.Endpoints.{HasEndpoints, new_authn-HasEndpoints}
use overlay_mcp.Server.Router.Chosen.{Chosen, of_ok, new-Chosen}
use overlay_mcp.Server.Router.{Method, meta_routes, routes, Router, with_authn, after_authn, router}

abbrev listed : String → List String → Bool
listed p [] = false
listed p (q ∷ qs) = let rest = listed p qs in p == q || rest

-- No path is routed twice.
abbrev pub distinct : List String → Bool
distinct [] = true
distinct (p ∷ ps) = let rest = distinct ps in not (listed p ps) && rest

abbrev pub path_of : String × Method → String
path_of (path, _) = path

-- Whatever the configuration, no two routes have the same path, for which axum panics.
pub routes-distinct : (config : ApplicationConfig) → distinct (map path_of (routes config)) ≡ true
unfolding routes meta_routes
routes-distinct config = go config.health_check config.prometheus
  where
    go :
        (health_check prometheus : Bool)
        → distinct (
            map path_of (
              ("/authorize", Method.get)
              ∷ ("/register", Method.post)
              ∷ ("/token", Method.post)
              ∷ ("/sse", Method.get)
              ∷ ("/message", Method.post)
              ∷ ("/.well-known/oauth-authorization-server", Method.get)
              ∷ ((if health_check then ("/.meta/health", Method.get) ∷ [] else [])
                  ++ (if prometheus then ("/.meta/metrics", Method.get) ∷ [] else []))))
          ≡ true
    go true true = refl
    go true false = refl
    go false true = refl
    go false false = refl

of_err : {A : Type 0} {e f : Error} → Path (Result A Error) (err e) (err f) → e ≡ f
of_err h = cc

try_new-ok :
    (builder_tokio : Result (Unit {0}) Error) (config : UpstreamConfig) (resolver : Resolver)
    → try_new builder_tokio config ≡ ok resolver
    → resolver ≡ Resolver.new config
unfolding try_new
try_new-ok builder_tokio (UpstreamConfig.static config) resolver h = cc
try_new-ok (err e) (UpstreamConfig.discovery config) resolver h = absurd (cc)
try_new-ok (ok _) (UpstreamConfig.discovery config) resolver h = cc

module _ (l : Libraries) (provider : Provider l.Jwk) (server : Server)
    (builder_tokio : Result (Unit {0}) Error) {W RaftConfig SM RM : Type 0} (new_standalone : SM)
    (new_raft : RaftConfig → Action W RM) where
  -- The session manager is the standalone one, or a raft manager that was started.
  abbrev pub Started : ClusterConfig RaftConfig → SessionManager SM RM → (before after : W) → Type 0
  Started ClusterConfig.none manager before after =
      (manager ≡ SessionManager.standalone new_standalone) × (after ≡ before)
  Started (ClusterConfig.raft config) manager before after =
      (raft : RM) × (new_raft config before ≡ (ok raft, after))
      × (manager ≡ SessionManager.raft raft)

  -- Nothing has been changed, or a raft manager failed to start.
  abbrev pub Failed : ClusterConfig RaftConfig → Error → (before after : W) → Type 0
  Failed ClusterConfig.none e before after = after ≡ before
  Failed (ClusterConfig.raft config) e before after =
      (after ≡ before) ⊎ (new_raft config before ≡ (err e, after))

  manager-Started :
      (cluster : ClusterConfig RaftConfig) (manager : SessionManager SM RM) (before : W)
      → (Sessions.new new_standalone new_raft cluster before).0 ≡ ok manager
      → Started cluster manager before (Sessions.new new_standalone new_raft cluster before).1
  unfolding Sessions.new
  manager-Started ClusterConfig.none manager before h = (sym (of_ok _ manager h), refl)
  manager-Started (ClusterConfig.raft config) manager before h = go (new_raft config before) refl h
    where
      go :
          (x : Result RM Error × W)
          → new_raft config before ≡ x
          → (continue {B = SessionManager SM RM} x.0
              (λ raft. pure (SessionManager.raft raft))
              x.1).0
            ≡ ok manager
          → Started
              (ClusterConfig.raft config)
              manager
              before
              (continue {B = SessionManager SM RM} x.0
                (λ raft. pure (SessionManager.raft raft))
                x.1).1
      go (ok raft, after) p q = (raft, p, sym (of_ok _ manager q))
      go (err e, after) p q = absurd (cc)

  manager-Failed :
      (cluster : ClusterConfig RaftConfig) (e : Error) (before : W)
      → (Sessions.new new_standalone new_raft cluster before).0 ≡ err e
      → Failed cluster e before (Sessions.new new_standalone new_raft cluster before).1
  unfolding Sessions.new
  manager-Failed ClusterConfig.none e before h = refl
  manager-Failed (ClusterConfig.raft config) e before h = go (new_raft config before) refl h
    where
      go :
          (x : Result RM Error × W)
          → new_raft config before ≡ x
          → (continue {B = SessionManager SM RM} x.0
              (λ raft. pure (SessionManager.raft raft))
              x.1).0
            ≡ err e
          → Failed
              (ClusterConfig.raft config)
              e
              before
              (continue {B = SessionManager SM RM} x.0
                (λ raft. pure (SessionManager.raft raft))
                x.1).1
      go (ok raft, after) p q = absurd (cc)
      go (err f, after) p q = inr (p ∙ ap (λ f. (err f, after)) (of_err q))

  -- What a server that runs was made of.
  abbrev pub Made :
      Config l.Jwk RaftConfig → Router l RaftConfig SM RM → (before after : W) → Type 0
  Made config app before after =
      IsConfigured (configured_client (get_authenticater l.Jwk config.auth).jwt)
        app.authn.oauth_client
      × HasEndpoints provider (get_authenticater l.Jwk config.auth).jwt app.authn.oauth_client
      × Chosen server config.auth app.authz
      × (app.resolver ≡ Resolver.new config.upstream)
      × Started config.server.cluster app.session_manager before after

  abbrev Outcome :
      Config l.Jwk RaftConfig → W → Result (Router l RaftConfig SM RM) Error × W → Type 0
  Outcome config before (ok app, after) = Made config app before after
  Outcome config before (err e, after) = Failed config.server.cluster e before after

  unchanged : (cluster : ClusterConfig RaftConfig) (e : Error) (w : W) → Failed cluster e w w
  unchanged ClusterConfig.none e w = refl
  unchanged (ClusterConfig.raft config) e w = inl refl

  with_authn-Outcome :
      (config : Config l.Jwk RaftConfig) (authn : Authn l.DecodingKey) (w : W)
      → IsConfigured
          (configured_client (get_authenticater l.Jwk config.auth).jwt)
          authn.oauth_client
      → HasEndpoints provider (get_authenticater l.Jwk config.auth).jwt authn.oauth_client
      → Outcome config w
          (with_authn l provider server builder_tokio new_standalone new_raft config authn w)
  unfolding with_authn
  with_authn-Outcome config authn w c k =
      go (Dispatch.new server config.auth) refl (try_new builder_tokio config.upstream) refl
    where
      assembled : Authz → Resolver → SessionManager SM RM → Router l RaftConfig SM RM
      assembled authz resolver session_manager = record {
        authn = authn;
        authz = authz;
        resolver = resolver;
        session_manager = session_manager;
        routes = routes config.application;
        state = config;
      }

      managed :
          (authz : Authz)
          → Dispatch.new server config.auth ≡ ok authz
          → (resolver : Resolver) → try_new builder_tokio config.upstream ≡ ok resolver
          → (m : Result (SessionManager SM RM) Error × W)
          → Sessions.new new_standalone new_raft config.server.cluster w ≡ m
          → Outcome config w (
              continue {B = Router l RaftConfig SM RM} m.0
                (λ manager. pure (assembled authz resolver manager))
                m.1)
      managed authz p resolver q (err e, after) s =
          subst (Failed config.server.cluster e w) (ap (λ x. x.1) s)
            (manager-Failed config.server.cluster e w (ap (λ x. x.0) s))
      managed authz p resolver q (ok manager, after) s = (
        c,
        k,
        new-Chosen server config.auth authz p,
        try_new-ok builder_tokio config.upstream resolver q,
        subst (Started config.server.cluster manager w) (ap (λ x. x.1) s)
            (manager-Started config.server.cluster manager w (ap (λ x. x.0) s)),
      )

      go :
          (a : Result Authz Error)
          → Dispatch.new server config.auth ≡ a
          → (r : Result Resolver Error) → try_new builder_tokio config.upstream ≡ r
          → Outcome config w (
              continue {B = Router l RaftConfig SM RM} a
                (λ authz w.
                  continue {B = Router l RaftConfig SM RM} r
                    (λ resolver.
                      Sessions.new new_standalone new_raft config.server.cluster >>= λ manager.
                      pure (assembled authz resolver manager))
                    w)
                w)
      go (err e) p r q = unchanged config.server.cluster e w
      go (ok authz) p (err e) q = unchanged config.server.cluster e w
      go (ok authz) p (ok resolver) q =
          managed authz p resolver q (Sessions.new new_standalone new_raft config.server.cluster w)
            refl

  abbrev Reached :
      Config l.Jwk RaftConfig → W → Option (Result (Router l RaftConfig SM RM) Error × W) → Type 0
  Reached config before none = Unit
  Reached config before (some x) = Outcome config before x

  router-Reached :
      (config : Config l.Jwk RaftConfig) (before : W)
      → Reached config before
          (router l provider server builder_tokio new_standalone new_raft config before)
  unfolding router
  router-Reached config before =
      go (new_authn l provider (get_authenticater l.Jwk config.auth)) refl
    where
      go :
          (o : Option (Result (InnerAuthn l.DecodingKey × OauthClient) Error))
          → new_authn l provider (get_authenticater l.Jwk config.auth) ≡ o
          → Reached config before
              (after_authn l provider server builder_tokio new_standalone new_raft config o before)
      go none p = tt
      go (some (err e)) p = unchanged config.server.cluster e before
      go (some (ok (inner, client))) p =
          with_authn-Outcome config (record { inner = inner; oauth_client = client }) before
            (new_authn-IsConfigured l provider (get_authenticater l.Jwk config.auth) inner client p)
            (new_authn-HasEndpoints l provider (get_authenticater l.Jwk config.auth) inner client p)

  -- A server that is put together has: the OAuth client with the id, secret and endpoints of the configuration,
  -- where those of a discovery are what the provider answered; the authorizer with the lists of the configuration,
  -- or with its OpenFGA connection and checks; and the resolver and the session manager of the configuration.
  -- Where that fails, nothing has been changed, unless it was the start of the raft node that failed, which comes
  -- last.
  pub router-outcome :
      (config : Config l.Jwk RaftConfig) (before after : W)
      → ((app : Router l RaftConfig SM RM)
          → router l provider server builder_tokio new_standalone new_raft config before
            ≡ some (ok app, after)
          → Made config app before after)
        × ((e : Error)
            → router l provider server builder_tokio new_standalone new_raft config before
              ≡ some (err e, after)
            → Failed config.server.cluster e before after)
  router-outcome config before after = (
    λ app h. subst (Reached config before) h (router-Reached config before),
    λ e h. subst (Reached config before) h (router-Reached config before),
  )
