-- ===== src/Cli/Run/Settings.antt =====
-- The settings that the command line has a default for.
use overlay_mcp.Base.{String, ◌≡◌, refl, ℕ, Bool, Option, none, some, ok}
use overlay_mcp.Core.Json.{Value, string, bool, object, end}
use overlay_mcp.Core.Application.{Config}
use overlay_mcp.Cli.{SubcommandRun, clean_json, cluster, figment_merge}
use overlay_mcp.Cli.Merge.{get}
use overlay_mcp.Cli.Run.{Runtime, file_or_empty, load}

-- The value of a setting in a section.
abbrev pub setting : (section name : String) → Value → Option Value
setting section name v = get name (get section (some v))

-- Of two values of a setting that are texts or truth values, the merge has the second; and what is read of a
-- configuration are its entries.
pub record IsFigment {W Jwk RaftConfig Filter Listener Router : Type 0}
    (runtime : Runtime W Jwk RaftConfig Filter Listener Router) : Type 0 where
  pub merge_string :
      (under over : Value) (section name s : String)
      → setting section name over ≡ some (string s)
      → setting section name (runtime.merge under over) ≡ some (string s)
  pub merge_bool :
      (under over : Value) (section name : String) (b : Bool)
      → setting section name over ≡ some (bool b)
      → setting section name (runtime.merge under over) ≡ some (bool b)
  pub log_filter :
      (v : Value) (config : Config Jwk RaftConfig) (s : String)
      → runtime.extract v ≡ ok config
      → setting "application" "log_filter" v ≡ some (string s)
      → config.application.log_filter ≡ some s
  pub prometheus :
      (v : Value) (config : Config Jwk RaftConfig) (b : Bool)
      → runtime.extract v ≡ ok config
      → setting "application" "prometheus" v ≡ some (bool b)
      → config.application.prometheus ≡ b
  pub health_check :
      (v : Value) (config : Config Jwk RaftConfig) (b : Bool)
      → runtime.extract v ≡ ok config
      → setting "application" "health_check" v ≡ some (bool b)
      → config.application.health_check ≡ b
  pub addr :
      (v : Value) (config : Config Jwk RaftConfig) (s : String)
      → runtime.extract v ≡ ok config
      → setting "server" "addr" v ≡ some (string s)
      → config.server.addr ≡ s

abbrev Holds : SubcommandRun → Type 0
Holds cli =
    (setting "application" "log_filter" (figment_merge cli) ≡ some (string cli.log_filter))
    × (setting "application" "prometheus" (figment_merge cli) ≡ some (bool cli.prometheus))
    × (setting "application" "health_check" (figment_merge cli) ≡ some (bool cli.health_check))
    × (setting "server" "addr" (figment_merge cli) ≡ some (string cli.addr))

merged :
    (cli : SubcommandRun) (hostname : Option String) (raft_id raft_index : Option ℕ)
    → Holds (record cli { hostname = hostname; raft_id = raft_id; raft_index = raft_index })
unfolding figment_merge clean_json cluster
merged cli none none none = (refl, refl, refl, refl)
merged cli none none (some _) = (refl, refl, refl, refl)
merged cli none (some _) none = (refl, refl, refl, refl)
merged cli none (some _) (some _) = (refl, refl, refl, refl)
merged cli (some _) none none = (refl, refl, refl, refl)
merged cli (some _) none (some _) = (refl, refl, refl, refl)
merged cli (some _) (some _) none = (refl, refl, refl, refl)
merged cli (some _) (some _) (some _) = (refl, refl, refl, refl)

module _ {W Jwk RaftConfig Filter Listener Router : Type 0}
    (runtime : Runtime W Jwk RaftConfig Filter Listener Router) (figment : IsFigment runtime) where
  -- Whatever a configuration file says, the log filter, the switches for metrics and health checks and the
  -- address that are loaded are those of the command line, which has a default for each.
  pub load-settings :
      (configfile : Option Value) (cli : SubcommandRun) (config : Config Jwk RaftConfig)
      → load runtime configfile cli ≡ ok config
      → (config.application.log_filter ≡ some cli.log_filter)
        × (config.application.prometheus ≡ cli.prometheus)
        × (config.application.health_check ≡ cli.health_check)
        × (config.server.addr ≡ cli.addr)
  unfolding load
  load-settings configfile cli config h =
      let under = runtime.merge (object end) (file_or_empty configfile) in
      let over = figment_merge cli in
      let (a, b, c, d) = merged cli cli.hostname cli.raft_id cli.raft_index in
      (
        figment.log_filter _ config cli.log_filter h
            (figment.merge_string under over "application" "log_filter" cli.log_filter a),
        figment.prometheus _ config cli.prometheus h
            (figment.merge_bool under over "application" "prometheus" cli.prometheus b),
        figment.health_check _ config cli.health_check h
            (figment.merge_bool under over "application" "health_check" cli.health_check c),
        figment.addr _ config cli.addr h
            (figment.merge_string under over "server" "addr" cli.addr d),
      )
