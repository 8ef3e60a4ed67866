-- ===== src/Core/Slots.antt =====
-- The streams of a session, that its `guard_…` methods lend out under the guards of
-- crates/overlay-mcp-core/src/guard.rs: what the standalone and the raft session do alike.
use overlay_mcp.Base.{Option, none, some, List, [], ◌∷◌, Result, ok, err}
use overlay_mcp.Core.Errors.{Error, fatal, timeout}

-- A stream in its mutex, and the streams under guards.
pub record Slot (A : Type 0) : Type 0 where
  pub free : Option A
  pub lent : List A

abbrev pub lone : {A : Type 0} → A → Slot A
lone a = record { free = some a; lent = [] }

-- `lock().await.take()`, and the guard that the stream then stands under.
abbrev pub lend : {A : Type 0} → Slot A → Option A → Option (A × Slot A)
lend slot none = none
lend slot (some a) = some (a, record { free = none; lent = a ∷ slot.lent })

abbrev pub take_slot : {A : Type 0} → Slot A → Option (A × Slot A)
take_slot slot = lend slot slot.free

-- The task that waits for a guard's drop: `lock().await.replace(..)` of the stream under it.
abbrev pub put_back : {A : Type 0} → Slot A → List A → Slot A
put_back slot [] = slot
put_back slot (a ∷ lent) = record { free = some a; lent = lent }

unfoldable pub give_back : {A : Type 0} → Slot A → Slot A
give_back slot = put_back slot slot.lent

-- The loop of a `guard_…` under its five seconds: `self` is the session that the first lock finds,
-- `later` what the next ones find until time is up.
module _ {State A : Type 0} (get : State → Slot A) (put : Slot A → State → State) where
  -- `if let Some(..)`, and `rest` where the stream is taken.
  abbrev pub given :
      (rest : Result A Error × State) → State → Option (A × Slot A) → Result A Error × State
  given rest self none = rest
  given rest self (some (a, slot)) = (ok a, put slot self)

  unfoldable pub guard_loop : State → (later : List State) → Result A Error × State
  guard_loop self [] = given (err (fatal timeout), self) self (take_slot (get self))
  guard_loop self (next ∷ later) = given (guard_loop next later) self (take_slot (get self))
