-- ===== src/Core/Stream.antt =====
-- crates/overlay-mcp-core/src/stream.rs: the three streams of a session are ends of tokio's broadcast channels.
-- What such a channel does to the state of the channels is a parameter, whose error has no content.
use overlay_mcp.Base.{Option, none, some, Result, ok, err}
use overlay_mcp.Core.Errors.{Error, tokio_broadcast_error}
use overlay_mcp.Core.Action.{Action}

-- `map_err(|_| Error::TokioBroadcastError)`
abbrev pub broadcast_result : {Net A : Type 0} → Option A × Net → Result A Error × Net
broadcast_result (some a, net) = (ok a, net)
broadcast_result (none, net) = (err tokio_broadcast_error, net)

module _ {Net Channel Message : Type 0} where
  -- `Upstream::send` and `BypassDownstream::send`
  unfoldable pub send :
      (broadcast_send : Channel → Message → Net → Option (Unit {0}) × Net)
      → Channel
      → Message
      → Action Net (Unit {0})
  send broadcast_send self msg net = broadcast_result (broadcast_send self msg net)

  -- `Downstream::recv`
  unfoldable pub recv :
      (broadcast_recv : Channel → Net → Option Message × Net) → Channel → Action Net Message
  recv broadcast_recv self net = broadcast_result (broadcast_recv self net)
