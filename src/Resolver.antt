-- ===== src/Resolver.antt =====
-- crates/overlay-mcp-resolver: which upstream a new session goes to. The counter is an `AtomicUsize`
-- of 64 bits, whose `fetch_add` wraps. `none` is a panic.
pub mod Rounds
pub mod Discovery
pub mod Examples
use overlay_mcp.Base.{
  String, ℕ, suc, ◌+◌, ◌%◌, ◌^◌, Bool, Option, none, some, List, [], ◌∷◌, length, get_elem?, Result,
  ok, err,
}
use overlay_mcp.Core.Errors.{Url, Error, service_unavailable, no_upstream_mcp_server}
use overlay_mcp.Core.Config.{UpstreamConfig, StaticUpstream, DiscoveryUpstream}

abbrev pub usize_mod : ℕ
usize_mod = 2 ^ 64

-- static_resolver.rs and the served part of discovery_resolver.rs: a counter and the URLs in turn.
pub record Turns : Type 0 where
  pub counter : ℕ
  pub urls : List Url

-- `resolver.urls[index].clone()`, after `fetch_add`.
abbrev served : Option Url → Option (Result Url Error)
served none = none
served (some url) = some (ok url)

unfoldable pub take_turn : Turns → Option (Result Url Error) × Turns
take_turn self = elim self.urls [
  | [] ↦ (some (err (service_unavailable no_upstream_mcp_server)), self)
  | u ∷ us ↦ (
    served (get_elem? self.urls (self.counter % length self.urls)),
    record self { counter = (self.counter + 1) % usize_mod },
  )
]

pub record InnerDiscoveryResolver : Type 0 where
  pub discovery : Url
  pub turns : Turns

pub data Resolver : Type 0 where
  static : Turns → Resolver
  discovery : InnerDiscoveryResolver → Resolver

unfoldable pub new_static : StaticUpstream → Turns
new_static config = record { counter = 0; urls = config.urls }

-- What its task then reloads.
unfoldable pub new_discovery : DiscoveryUpstream → InnerDiscoveryResolver
new_discovery config = record {
  discovery = config.discovery;
  turns = record { counter = 0; urls = [] };
}

unfoldable pub new : UpstreamConfig → Resolver
unfolding new_static new_discovery
new (UpstreamConfig.static config) = static (new_static config)
new (UpstreamConfig.discovery config) = discovery (new_discovery config)

-- hickory's `builder_tokio`, before a discovery resolver is made, may fail.
unfoldable pub try_new :
    (builder_tokio : Result (Unit {0}) Error) → UpstreamConfig → Result Resolver Error
unfolding new
try_new builder_tokio (UpstreamConfig.static config) = ok (new (UpstreamConfig.static config))
try_new (err e) (UpstreamConfig.discovery config) = err e
try_new (ok _) (UpstreamConfig.discovery config) = ok (new (UpstreamConfig.discovery config))

unfoldable pub resolve : Resolver → Option (Result Url Error) × Resolver
unfolding take_turn
resolve (static self) = let (url, self') = take_turn self in (url, static self')
resolve (discovery self) =
    let (url, turns') = take_turn self.turns in (url, discovery (record self { turns = turns' }))

-- `temp.set_host(Some(&found_str))`, the url library's, is `set_host`; `none` is its error.
module _ (set_host : Url → String → Option Url) where
  -- `for found in lookup_result.iter()`
  unfoldable pub found_urls : Url → List String → List Url
  found_urls target [] = []
  found_urls target (ip ∷ ips) = elim (set_host target ip) [
    | some temp ↦ temp ∷ found_urls target ips
    | none ↦ found_urls target ips
  ]

  -- One round of the reload task, with what `lookup_ip` returns; `none` is its error.
  unfoldable pub reload : Option (List String) → InnerDiscoveryResolver → InnerDiscoveryResolver
  unfolding found_urls
  reload none self = self
  reload (some ips) self = record self {
    turns = record { counter = 0; urls = found_urls self.discovery ips };
  }
