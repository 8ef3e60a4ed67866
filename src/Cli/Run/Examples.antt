-- ===== src/Cli/Run/Examples.antt =====
-- The theorem about the loaded settings, with a Figment that takes the command line alone, and tests.
use overlay_mcp.Base.{
  String, ◌==◌, ◌≡◌, refl, ap, ℕ, suc, Bool, true, false, Option, none, some, [], Result, ok,
  if◌then◌else◌,
}
use overlay_mcp.Core.Json.{Value, string, bool, object, end, field}
use overlay_mcp.Core.Config.{AuthConfig, static, oauth2, JwtVerifierConfig, UpstreamConfig}
use overlay_mcp.Core.Cluster.{ClusterConfig}
use overlay_mcp.Core.Application.{Config}
use overlay_mcp.Cli.{figment_merge, clean_json, cluster}
use overlay_mcp.Cli.Examples.{index_only}
use overlay_mcp.Cli.Run.{Runtime, load, run}
use overlay_mcp.Cli.Run.Settings.{setting, IsFigment, load-settings}

abbrev text_of : Option Value → Option String
text_of (some (string s)) = some s
text_of _ = none

abbrev bool_of : Option Value → Bool
bool_of (some (bool b)) = b
bool_of _ = false

abbrev text_or_empty : Option String → String
text_or_empty none = ""
text_or_empty (some s) = s

abbrev unchecked : AuthConfig (Unit {0})
unchecked =
    static
      (record {
        apikey = record { key_from = [] };
        jwt =
            oauth2 "https://idp" "https://idp/auth" "https://idp/token" JwtVerifierConfig.no_check
              (record { id = "c"; secret = "s"; scopes = [] });
      })
      (record { apikey = none; jwt = [] })

abbrev read : Value → Config (Unit {0}) (Unit {0})
read v = record {
  application = record {
    log_filter = text_of (setting "application" "log_filter" v);
    ip_extract = none;
    prometheus = bool_of (setting "application" "prometheus" v);
    health_check = bool_of (setting "application" "health_check" v);
    passthrough = record {};
  };
  server = record {
    addr = text_or_empty (text_of (setting "server" "addr" v));
    hostname = "http://me";
    cluster = ClusterConfig.none;
  };
  upstream = UpstreamConfig.static (record { urls = [] });
  auth = unchecked;
  otel = none;
}

-- A server that counts the ports that it has bound; "bad" is no filter.
abbrev counting : Runtime ℕ (Unit {0}) (Unit {0}) (Unit {0}) ℕ (Unit {0})
counting = record {
  merge = λ under over. over;
  extract = λ v. ok (read v);
  parse = λ filter. if filter == "bad" then none else some tt;
  bind = λ addr n. (ok n, suc n);
  router = λ config n. some (ok tt, n);
  serve = λ listener app n. (ok tt, n);
  display = λ e. "error";
}

extracted :
    {A : Type 0} (f : Config (Unit {0}) (Unit {0}) → A) (v : Value)
    (config : Config (Unit {0}) (Unit {0}))
    → counting.extract v ≡ ok config
    → f (read v) ≡ f config
extracted f v config h = ap f (of_ok (read v) config h)
  where
    of_ok :
        (a b : Config (Unit {0}) (Unit {0}))
        → Path (Result (Config (Unit {0}) (Unit {0})) String) (ok a) (ok b)
        → a ≡ b
    of_ok a b h = cc

counting-IsFigment : IsFigment counting
counting-IsFigment = record {
  merge_string = λ under over section name s h. h;
  merge_bool = λ under over section name b h. h;
  log_filter =
      λ v config s e h. cc (extracted (λ c. c.application.log_filter) v config e, ap text_of h);
  prometheus =
      λ v config b e h. cc (extracted (λ c. c.application.prometheus) v config e, ap bool_of h);
  health_check =
      λ v config b e h. cc (extracted (λ c. c.application.health_check) v config e, ap bool_of h);
  addr = λ v config s e h.
      cc (extracted (λ c. c.server.addr) v config e, ap (λ o. text_or_empty (text_of o)) h);
}

-- A file that turns the metrics on.
abbrev metrics_on : Value
metrics_on = object (field "application" (object (field "prometheus" (bool true) end)) end)

abbrev loaded : Config (Unit {0}) (Unit {0})
loaded = read (figment_merge index_only)

load-settings_example :
    (loaded.application.log_filter ≡ some "warn")
    × (loaded.application.prometheus ≡ false)
    × (loaded.application.health_check ≡ true)
    × (loaded.server.addr ≡ "0.0.0.0:9090")
unfolding load
load-settings_example =
    load-settings counting counting-IsFigment (some metrics_on) index_only loaded refl

-- A run binds the one address, and ends when the server does.
runs_once : run counting (some metrics_on) index_only 0 ≡ some (ok tt, 1)
unfolding run figment_merge clean_json cluster
runs_once = refl

-- A log filter that does not parse is a panic before anything is bound.
bad_filter : run counting none (record index_only { log_filter = "bad" }) 0 ≡ none
unfolding run figment_merge clean_json cluster
bad_filter = refl
