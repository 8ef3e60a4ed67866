-- ===== src/Server/Router/Examples.antt =====
-- The theorems about the start of a server at a concrete configuration.
use overlay_mcp.Base.{
  String, ℕ, suc, ◌≡◌, refl, true, Option, none, some, [], ◌∷◌, insert, Result, ok, err,
}
use overlay_mcp.Core.Errors.{Error}
use overlay_mcp.Core.Action.{Action}
use overlay_mcp.Core.Config.{static, get_authenticater, UpstreamConfig}
use overlay_mcp.Core.Application.{ApplicationConfig, Config}
use overlay_mcp.Core.Cluster.{ClusterConfig}
use overlay_mcp.Openfga.Examples.{batch_server}
use overlay_mcp.Auth.Authn
use overlay_mcp.Auth.Authn.{load_keys}
use overlay_mcp.Auth.Authn.Load.{new_authn, load_idp, load_configured, load_validator}
use overlay_mcp.Auth.Dispatch
use overlay_mcp.Auth.Static
use overlay_mcp.Resolver
use overlay_mcp.Resolver.{try_new}
use overlay_mcp.Sessions
use overlay_mcp.Auth.Authn.Examples.{one_key, silent, configured}
use overlay_mcp.Server.Router.{Router, routes, meta_routes, with_authn, router}
use overlay_mcp.Server.Router.Startup.{Made, Failed, router-outcome}

abbrev application : ApplicationConfig
application = record {
  log_filter = none;
  ip_extract = none;
  prometheus = true;
  health_check = true;
  passthrough = record {};
}

abbrev config : Config (Option String × ℕ) (Unit {0})
config = record {
  application = application;
  server = record {
    addr = "0.0.0.0:9090";
    hostname = "http://me";
    cluster = ClusterConfig.raft tt;
  };
  upstream = UpstreamConfig.static (record { urls = "http://up" ∷ [] });
  auth = static configured (record { apikey = none; jwt = [] });
  otel = none;
}

-- A raft node that starts counts.
abbrev new_raft : Unit {0} → Action ℕ ℕ
new_raft tt n = (ok n, suc n)

abbrev manager : String
manager = "manager"

abbrev App : Type 0
App = Router one_key (Unit {0}) String ℕ

router-outcome_example :
    ((app : App)
      → router one_key silent batch_server (ok tt) manager new_raft config 0 ≡ some (ok app, 1)
      → Made one_key silent batch_server (ok tt) manager new_raft config app 0 1)
    × ((e : Error)
        → router one_key silent batch_server (ok tt) manager new_raft config 0 ≡ some (err e, 1)
        → Failed one_key silent batch_server (ok tt) manager new_raft config.server.cluster e 0 1)
router-outcome_example =
    router-outcome one_key silent batch_server (ok tt) manager new_raft config 0 1

has_started : Option (Result App Error × ℕ) → Option ℕ
has_started (some (ok _, n)) = some n
has_started _ = none

-- The server starts, and its raft node once.
started_once :
    has_started (router one_key silent batch_server (ok tt) manager new_raft config 0) ≡ some 1
unfolding has_started router new_authn load_idp load_configured load_validator Authn.new load_keys
    insert get_authenticater with_authn Dispatch.new Static.new try_new Resolver.new Sessions.new
    routes meta_routes
started_once = refl
