-- ===== src/Core/General.antt =====
-- crates/overlay-mcp-core/src/general.rs: the traits that the server is written against, as records
-- of operations on a world `W`, and the default method `ensure_started`. A guard is the right to use
-- a stream of its session: `guard_…` takes it and `drop_…` is its `Drop`.
use overlay_mcp.Base.{String, Bool, Option, ok, if◌then◌else◌}
use overlay_mcp.Core.Errors.{Url}
use overlay_mcp.Core.Action.{Action}

pub record GeneralSession (W Session Parts ClientMessage ServerMessage : Type 0) : Type 0 where
  pub session_id : Session → String
  pub upstream_url : Session → Url
  pub guard_upstream : Session → Action W (Unit {0})
  pub drop_upstream : Session → W → W
  pub guard_downstream : Session → Action W (Unit {0})
  pub drop_downstream : Session → W → W
  pub guard_bypass_downstream : Session → Action W (Unit {0})
  pub drop_bypass_downstream : Session → W → W
  pub guard_close : Session → Action W (Unit {0})
  pub drop_close : Session → W → W
  pub is_started : Session → W → Bool
  pub start : Session → Parts → Action W (Unit {0})
  pub stop : Session → Action W (Unit {0})
  pub close : Session → Action W (Unit {0})
  -- stream.rs: `Upstream::send` and `BypassDownstream::send`
  pub send_upstream : Session → ClientMessage → Action W (Unit {0})
  pub send_bypass : Session → ServerMessage → Action W (Unit {0})

pub record GeneralSessionManager (W Session : Type 0) : Type 0 where
  pub create : Url → Action W Session
  pub find : String → Action W (Option Session)

module _ {W Session Parts ClientMessage ServerMessage : Type 0}
    (g : GeneralSession W Session Parts ClientMessage ServerMessage) where
  unfoldable pub ensure_started : Session → Parts → Action W (Unit {0})
  ensure_started self original_request w =
      if g.is_started self w then (ok tt, w) else g.start self original_request w
