-- ===== src/Standalone/Replay.antt =====
-- The operations and tasks of a standalone session as a script, and the session after a script.
use overlay_mcp.Base.{
  ◌≡◌, refl, Option, none, some, List, [], ◌∷◌, ◌++◌, Any, here, there, inl, inr, Result, ok, err,
}
use overlay_mcp.Core.Errors.{Error}
use overlay_mcp.Standalone
use overlay_mcp.Standalone.{Slot, Session, put_upstream, put_downstream, put_bypass}
use overlay_mcp.Standalone.Ends
use overlay_mcp.Standalone.Ends.{Steps, EndsAt, steps-EndsAt}

pub data Act (U D B : Type 0) : Type 0 where
  starts : Act U D B
  opens : Result (Unit {0}) Error → Act U D B
  ends : Act U D B
  asks : Act U D B
  cancels : Act U D B
  upstreams : Slot U → Act U D B
  downstreams : Slot D → Act U D B
  bypasses : Slot B → Act U D B

module _ {U D B : Type 0} where
  -- A transport that has failed.
  abbrev pub IsFailed : Act U D B → Type 0
  IsFailed starts = ⊥
  IsFailed (opens (ok _)) = ⊥
  IsFailed (opens (err _)) = Unit
  IsFailed ends = ⊥
  IsFailed asks = ⊥
  IsFailed cancels = ⊥
  IsFailed (upstreams _) = ⊥
  IsFailed (downstreams _) = ⊥
  IsFailed (bypasses _) = ⊥

module _ {R S U D B : Type 0} where
  -- The transport's answer, where a `start` waits for it.
  abbrev pub opened :
      Result (Unit {0}) Error → Option (R × S) → Session R S U D B → Session R S U D B
  opened r none self = self
  opened r (some _) self = (Standalone.finish_start self r).1

  abbrev pub act : Act U D B → Session R S U D B → Session R S U D B
  act starts self = (Standalone.start self).1
  act (opens r) self = opened r self.starting self
  act ends self = Standalone.end_relay self
  act asks self = (Standalone.request_stop self).1
  act cancels self = Standalone.cancel self
  act (upstreams slot) self = put_upstream slot self
  act (downstreams slot) self = put_downstream slot self
  act (bypasses slot) self = put_bypass slot self

  abbrev pub replay : List (Act U D B) → Session R S U D B → Session R S U D B
  replay [] self = self
  replay (a ∷ script) self = replay script (act a self)

  pub replay-append :
      (a b : List (Act U D B)) (self : Session R S U D B)
      → replay (a ++ b) self ≡ replay b (replay a self)
  replay-append [] b self = refl
  replay-append (x ∷ a) b self = replay-append a b (act x self)

module _ {R S U D B P : Type 0} where
  one-EndsAt :
      (r : R) (s : S) (self after : Session R S U D B) (t : Ends.Step self after)
      → (Ends.IsFailure t → P)
      → EndsAt P r s self
      → EndsAt P r s after
  one-EndsAt r s self after t f p = steps-EndsAt r s self after (Ends.later Ends.done t) failed p
    where
      failed : Ends.HasFailed (Ends.later Ends.done t) → P
      failed (inl x) = elim x [ ]
      failed (inr x) = f x

  opened-EndsAt :
      (r : R) (s : S) (self : Session R S U D B) (result : Result (Unit {0}) Error)
      (o : Option (R × S))
      → self.starting ≡ o
      → (IsFailed {U = U} {D = D} {B = B} (opens result) → P)
      → EndsAt P r s self
      → EndsAt P r s (opened result o self)
  opened-EndsAt r s self result none h f p = p
  opened-EndsAt r s self (ok v) (some waiting) h f p =
      one-EndsAt r s self _ (Ends.opens h (ok v)) f p
  opened-EndsAt r s self (err e) (some waiting) h f p =
      one-EndsAt r s self _ (Ends.opens h (err e)) f p

  act-EndsAt :
      (r : R) (s : S) (a : Act U D B) (self : Session R S U D B)
      → (IsFailed a → P)
      → EndsAt P r s self
      → EndsAt P r s (act a self)
  act-EndsAt r s starts self f p = one-EndsAt r s self _ Ends.starts f p
  act-EndsAt r s (opens result) self f p = opened-EndsAt r s self result self.starting refl f p
  act-EndsAt r s ends self f p = one-EndsAt r s self _ Ends.ends f p
  act-EndsAt r s asks self f p = one-EndsAt r s self _ Ends.asks f p
  act-EndsAt r s cancels self f p = one-EndsAt r s self _ Ends.cancels f p
  act-EndsAt r s (upstreams slot) self f p = one-EndsAt r s self _ (Ends.upstreams slot) f p
  act-EndsAt r s (downstreams slot) self f p = one-EndsAt r s self _ (Ends.downstreams slot) f p
  act-EndsAt r s (bypasses slot) self f p = one-EndsAt r s self _ (Ends.bypasses slot) f p

  -- A script leaves the ends in one place, and loses them only where it has a failed transport.
  pub replay-EndsAt :
      (r : R) (s : S) (script : List (Act U D B)) (self : Session R S U D B)
      → (Any IsFailed script → P)
      → EndsAt P r s self
      → EndsAt P r s (replay script self)
  replay-EndsAt r s [] self f p = p
  replay-EndsAt r s (a ∷ script) self f p =
      replay-EndsAt r s script (act a self) (λ x. f (there x))
        (act-EndsAt r s a self (λ x. f (here x)) p)
