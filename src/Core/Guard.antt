-- ===== src/Core/Guard.antt =====
-- crates/overlay-mcp-core/src/guard.rs: `StreamGuard` and `SessionGuard`, which hold a value until they are
-- dropped. The sender of the oneshot channel is left out: `drop` answers the value that it sends, and `none`
-- is a panic.
use overlay_mcp.Base.{Option, none, some}

abbrev pub Guard : Type 0 → Type 0
Guard A = Option A

module _ {A : Type 0} where
  unfoldable pub new : A → Guard A
  new data' = some data'

  -- `take`, then what the sender is given.
  unfoldable pub drop : Guard A → Option (A × Guard A)
  drop none = none
  drop (some value) = some (value, none)

  -- `deref`, `deref_mut` and `session_id` look at the value alike.
  unfoldable pub deref : Guard A → Option A
  deref none = none
  deref (some value) = some value
