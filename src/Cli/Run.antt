-- ===== src/Cli/Run.antt =====
-- `run` of crates/overlay-mcp-cli/src/run.rs, without the logging. `none` is a panic, an error of anyhow is its
-- text. Figment, `EnvFilter`, the listener, the router and axum's server are the record `Runtime`.
pub mod Settings
pub mod Examples
use overlay_mcp.Base.{String, Option, none, some, Result, ok, err}
use overlay_mcp.Core.Errors.{Error}
use overlay_mcp.Core.Json.{Value, object, end}
use overlay_mcp.Core.Application.{Config}
use overlay_mcp.Cli.{SubcommandRun, figment_merge}

-- `merge` puts its second argument over the first, `extract` is serde's reading of a `Config`, and
-- `parse` is `none` where it is unwrapped in vain.
pub record Runtime (W Jwk RaftConfig Filter Listener Router : Type 0) : Type 0 where
  pub merge : Value → Value → Value
  pub extract : Value → Result (Config Jwk RaftConfig) String
  pub parse : String → Option Filter
  pub bind : String → W → Result Listener String × W
  pub router : Config Jwk RaftConfig → W → Option (Result Router Error × W)
  pub serve : Listener → Router → W → Result (Unit {0}) String × W
  pub display : Error → String

-- `unwrap_or(FigmentJson::string("{}"))`
abbrev pub file_or_empty : Option Value → Value
file_or_empty none = object end
file_or_empty (some file) = file

abbrev pub filter_or_info : Option String → String
filter_or_info none = "info"
filter_or_info (some filter) = filter

module _ {W Jwk RaftConfig Filter Listener Router : Type 0}
    (runtime : Runtime W Jwk RaftConfig Filter Listener Router) where
  -- The configuration, from what stands in the file.
  unfoldable pub load :
      (configfile : Option Value) → SubcommandRun → Result (Config Jwk RaftConfig) String
  load configfile cli =
      runtime.extract
        (runtime.merge (runtime.merge (object end) (file_or_empty configfile)) (figment_merge cli))

  abbrev pub with_app :
      Listener → Option (Result Router Error × W) → Option (Result (Unit {0}) String × W)
  with_app listener none = none
  with_app listener (some (err e, w)) = some (err (runtime.display e), w)
  with_app listener (some (ok app, w)) = some (runtime.serve listener app w)

  abbrev pub with_listener :
      Config Jwk RaftConfig → Result Listener String × W → Option (Result (Unit {0}) String × W)
  with_listener config (err e, w) = some (err e, w)
  with_listener config (ok listener, w) = with_app listener (runtime.router config w)

  abbrev pub with_filter :
      Config Jwk RaftConfig → Option Filter → W → Option (Result (Unit {0}) String × W)
  with_filter config none w = none
  with_filter config (some _) w = with_listener config (runtime.bind config.server.addr w)

  abbrev pub with_config :
      Result (Config Jwk RaftConfig) String → W → Option (Result (Unit {0}) String × W)
  with_config (err e) w = some (err e, w)
  with_config (ok config) w =
      with_filter config (runtime.parse (filter_or_info config.application.log_filter)) w

  unfoldable pub run :
      (configfile : Option Value) → SubcommandRun → W → Option (Result (Unit {0}) String × W)
  unfolding load
  run configfile cli w = with_config (load configfile cli) w
